-- ===== src/Handler/Queue.antt =====
-- The queue of a handler, its count, and the messages that are taken out of it.
use upil.Common.{
  ℕ, ◌+◌, ◌-◌, ◌≤◌, ◌<◌, ◌≡◌, refl, ap, ◌∙◌, inl, inr, Bool, true, false, not, ◌&&◌, ◌||◌, Option,
  List, [], ◌∷◌, ◌++◌, append-nil, Bool-cases, arith, ltb, if◌then◌else◌, length, length-append,
}
use upil.Common.Memory.{Bytes}
use upil.Handler.Defs.{
  Msg, Handler, max_msg_queue_size, in_queue, erase_msg, remove_from_queue, remove_from_list,
  obtain, stored, is_some, obtain_message, send_message_delay, sm_send_message_delay,
}

-- The addresses in a queue are below `n`, and are different.
abbrev pub IsDistinct : ℕ → List Msg → Type 0
IsDistinct n [] = Unit
IsDistinct n (m ∷ q) = (m.id < n) × (in_queue m.id q ≡ false) × IsDistinct n q

-- No message is deferred (nothing in the program defers one); the count is that of the queue, and
-- stays below the size of the pool; the messages have different addresses, given out before.
pub record IsSound (h : Handler) : Type 0 where
  pub no_defers : h.defer_msg_queue ≡ []
  pub counted : h.msg_count ≡ length h.msg_queue
  pub capped : h.msg_count < max_msg_queue_size
  pub distinct : IsDistinct h.fresh h.msg_queue

pub in_queue-below : (n k : ℕ) (q : List Msg) → IsDistinct n q → n ≤ k → in_queue k q ≡ false
unfolding in_queue
in_queue-below n k [] d h = refl
in_queue-below n k (m ∷ q) d h = ground (arith, in_queue-below n k q d.2 h)

pub in_queue-append :
    (k : ℕ) (q r : List Msg) → in_queue k (q ++ r) ≡ (in_queue k q || in_queue k r)
unfolding in_queue
in_queue-append k [] r = refl
in_queue-append k (m ∷ q) r = ground (arith, in_queue-append k q r)

pub IsDistinct-mono : (n k : ℕ) (q : List Msg) → IsDistinct n q → n ≤ k → IsDistinct k q
IsDistinct-mono n k [] d h = tt
IsDistinct-mono n k (m ∷ q) d h = (omega arith, d.1, IsDistinct-mono n k q d.2 h)

pub IsDistinct-append :
    (n : ℕ) (q : List Msg) (m : Msg)
    → IsDistinct n q
    → m.id ≡ n
    → IsDistinct (n + 1) (q ++ (m ∷ []))
unfolding in_queue
IsDistinct-append n [] m d e = (omega arith, refl, tt)
IsDistinct-append n (x ∷ q) m d e =
    (omega arith, in_queue-append x.id q (m ∷ []) ∙ ground arith, IsDistinct-append n q m d.2 e)

-- Taking out the message behind `p`, whose address is not in `p`.
erase_msg-append :
    (p : List Msg) (m : Msg) (q : List Msg)
    → in_queue m.id p ≡ false
    → erase_msg m.id (p ++ (m ∷ q)) ≡ p ++ q
unfolding erase_msg in_queue
erase_msg-append [] m q h = ground arith
erase_msg-append (x ∷ p) m q h = ground (arith, erase_msg-append p m q)

in_queue_middle : (p : List Msg) (m : Msg) (q : List Msg) → in_queue m.id (p ++ (m ∷ q)) ≡ true
unfolding in_queue
in_queue_middle [] m q = ground arith
in_queue_middle (x ∷ p) m q = ground (arith, in_queue_middle p m q)

-- Taking one message out of the queue: what changes in the handler, and what does not.
pub record Removed (h h' : Handler) (rest : List Msg) : Type 0 where
  pub queue : h'.msg_queue ≡ rest
  pub defers : h'.defer_msg_queue ≡ h.defer_msg_queue
  pub count : h'.msg_count ≡ h.msg_count - 1
  pub same_fresh : h'.fresh ≡ h.fresh
  pub same_grants : h'.grants ≡ h.grants

pub remove_from_list-Removed :
    (h : Handler) (p : List Msg) (m : Msg) (q : List Msg)
    → h.msg_queue ≡ p ++ (m ∷ q)
    → in_queue m.id p ≡ false
    → Removed h (remove_from_list m.id h) (p ++ q)
unfolding remove_from_list remove_from_queue
remove_from_list-Removed h p m q e new =
    let here : in_queue m.id h.msg_queue ≡ true = ap (in_queue m.id) e ∙ in_queue_middle p m q in
    let out : erase_msg m.id h.msg_queue ≡ p ++ q =
      ap (erase_msg m.id) e ∙ erase_msg-append p m q new in
    rw here
      (record { queue = out; defers = refl; count = refl; same_fresh = refl; same_grants = refl })

-- A message is granted if it has no data, or memory for it.
abbrev pub is_granted : Handler → Option Bytes → Bool
is_granted h payload = not (is_some payload) || h.grants h.fresh

abbrev pub new_msg : Handler → ℕ → Option Bytes → Msg
new_msg h what data_in = record { id = h.fresh; what = what; payload = stored data_in }

sent_queue :
    (h : Handler) (what : ℕ) (data_in : Option Bytes) (msec : ℕ)
    → IsSound h
    → let r = sm_send_message_delay what data_in msec h in
      let ok = ltb (h.msg_count + 1) max_msg_queue_size && is_granted h (stored data_in) in
      (r.0 ≡ ok)
      × (r.1.msg_queue ≡ (if ok then h.msg_queue ++ (new_msg h what data_in ∷ []) else h.msg_queue))
      × (r.1.msg_count ≡ (if ok then h.msg_count + 1 else h.msg_count))
      × (r.1.defer_msg_queue ≡ [])
      × (r.1.fresh ≡ (if ltb (h.msg_count + 1) max_msg_queue_size then h.fresh + 1 else h.fresh))
unfolding sm_send_message_delay obtain_message obtain send_message_delay
sent_queue h what data_in msec s =
    let m : Msg = new_msg h what data_in in
    let h1 : Handler = record h {
      msg_queue = h.msg_queue ++ (m ∷ []);
      msg_count = h.msg_count + 1;
      fresh = h.fresh + 1;
    } in
    let undone : Removed h1 (remove_from_list m.id h1) (h.msg_queue ++ []) =
      remove_from_list-Removed h1 h.msg_queue m [] refl
        (in_queue-below h.fresh h.fresh h.msg_queue s.distinct (omega arith)) in
    ground (
      arith,
      undone.queue,
      undone.defers,
      undone.count,
      undone.same_fresh,
      s.no_defers,
      append-nil h.msg_queue,
    )

pub sm_send_message_delay-IsSound :
    (h : Handler) (what : ℕ) (data_in : Option Bytes) (msec : ℕ)
    → IsSound h
    → IsSound (sm_send_message_delay what data_in msec h).1
sm_send_message_delay-IsSound h what data_in msec s =
    let (sent, queue, count, defers, fresh) = sent_queue h what data_in msec s in
    let grown = IsDistinct-append h.fresh h.msg_queue (new_msg h what data_in) s.distinct refl in
    elim (Bool-cases (ltb (h.msg_count + 1) max_msg_queue_size && is_granted h (stored data_in))) [
      | inl ok ↦
          let room : ltb (h.msg_count + 1) max_msg_queue_size ≡ true = ground arith in
          let after = (sm_send_message_delay what data_in msec h).1 in
          let q : after.msg_queue ≡ h.msg_queue ++ (new_msg h what data_in ∷ []) = queue ∙ rw ok in
          let c : after.msg_count ≡ h.msg_count + 1 = count ∙ rw ok in
          let f : after.fresh ≡ h.fresh + 1 = fresh ∙ rw room in
          record {
            no_defers = defers;
            counted =
                rw (c, q)
                  (omega
                    (arith, s.counted, length-append h.msg_queue (new_msg h what data_in ∷ [])));
            capped = rw c (ground arith);
            distinct = rw (q, f) grown;
          }
      | inr refused ↦
          let after = (sm_send_message_delay what data_in msec h).1 in
          let q : after.msg_queue ≡ h.msg_queue = queue ∙ rw refused in
          let c : after.msg_count ≡ h.msg_count = count ∙ rw refused in
          record {
            no_defers = defers;
            counted = rw (c, q) s.counted;
            capped = rw c s.capped;
            distinct =
                rw q (IsDistinct-mono h.fresh _ h.msg_queue s.distinct (ground (arith, fresh)));
          }
    ]

-- On a sound handler, a message is sent, in a new place behind those queued, exactly if the pool of
-- messages is not used up and there is memory for its data; if it is not sent, the queue and the
-- count stay. The handler is sound afterwards.
pub sm_send_message_delay_lem :
    (h : Handler) (what : ℕ) (data_in : Option Bytes) (msec : ℕ)
    → IsSound h
    → let r = sm_send_message_delay what data_in msec h in
      let ok = ltb (h.msg_count + 1) max_msg_queue_size && is_granted h (stored data_in) in
      (r.0 ≡ ok)
      × (r.1.msg_queue ≡ (if ok then h.msg_queue ++ (new_msg h what data_in ∷ []) else h.msg_queue))
      × (r.1.msg_count ≡ (if ok then h.msg_count + 1 else h.msg_count))
      × IsSound r.1
sm_send_message_delay_lem h what data_in msec s =
    let (sent, queue, count, defers, fresh) = sent_queue h what data_in msec s in
    (sent, queue, count, sm_send_message_delay-IsSound h what data_in msec s)
