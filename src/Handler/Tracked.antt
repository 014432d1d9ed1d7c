-- ===== src/Handler/Tracked.antt =====
-- state_machine/handler.c over the event loop: the events of the queued messages as messages are sent,
-- put off and taken out by the loop.
use upil.Common.{
  ℕ, ◌+◌, ◌≡◌, refl, ap, ◌∙◌, inl, inr, Bool, true, false, ◌&&◌, ◌||◌, Option, none, some, List, [],
  ◌∷◌, ◌++◌, append-nil, Bool-cases, arith, ltb, ◌==◌, if◌then◌else◌,
}
use upil.Common.Memory.{Bytes}
use upil.Loop.Time.{Timeval, timeradd, of_msec}
use upil.Loop.Defs.{Loop, mem, event_set, timer_add}
use upil.Loop.Deadlines.{mem_insert}
use upil.Handler.Defs
use upil.Handler.Defs.{
  Msg, Handler, max_msg_queue_size, in_queue, erase_msg, remove_from_queue, unlink, remove_message,
  obtain, obtain_message, stored, is_some, send_message_delay, process_defers, process_defer_msg,
  remove_ids, remove_message_id, sm_send_message_delay,
}
use upil.Handler.Queue.{
  IsDistinct, IsDistinct-append, IsDistinct-mono, in_queue-below, new_msg, remove_from_list-Removed,
}
use upil.Handler.Linked.{
  is_linked, all_linked, unlink_absent, erase_linked, erase_kept, erase_msg-IsDistinct, more_linked,
  taken_loop, IsTracked,
}

pub added_linked :
    (now : Timeval) (ev : ℕ) (tv : Timeval) (l : Loop) (k : ℕ)
    → is_linked k (timer_add now ev (some tv) (event_set ev none false l))
      ≡ (ev == k || is_linked k l)
unfolding timer_add event_set
added_linked now ev tv l k =
    ap (λ b. b || mem k l.pending) (mem_insert _ k ev (timeradd now tv) l.timers) ∙ ground arith

append_linked :
    (l : Loop) (q : List Msg) (m : Msg)
    → all_linked l q ≡ true
    → is_linked m.id l ≡ true
    → all_linked l (q ++ (m ∷ [])) ≡ true
unfolding all_linked
append_linked l [] m a b = ground (arith, b)
append_linked l (x ∷ q) m a b = ground (arith, a, append_linked l q m (ground (arith, a)) b)

send_message_delay-IsTracked :
    (m : Msg) (msec : ℕ) (h : Handler) (q : List Msg)
    → h.msg_queue ≡ q ++ (m ∷ [])
    → IsDistinct h.fresh h.msg_queue
    → all_linked h.loop q ≡ true
    → IsTracked (send_message_delay m msec h)
unfolding send_message_delay
send_message_delay-IsTracked m msec h q e d a =
    let l' =
      timer_add (h.clock h.ticks) m.id (some (of_msec msec)) (event_set m.id none false h.loop) in
    let grown = λ (k : ℕ). added_linked (h.clock h.ticks) m.id (of_msec msec) h.loop k in
    record {
      distinct = d;
      linked = rw e (
          append_linked l' q m (more_linked h.loop l' q (λ k b. grown k ∙ ground (arith, b)) a)
            (grown m.id ∙ ground arith));
    }

-- The message as it is in the queue, before there is memory for its data.
abbrev pub obtained : Handler → ℕ → Option Bytes → Handler
obtained h what data_in = record h {
  msg_queue = h.msg_queue ++ (new_msg h what data_in ∷ []);
  msg_count = h.msg_count + 1;
  fresh = h.fresh + 1;
}

refused-IsTracked :
    (h : Handler) (what : ℕ) (data_in : Option Bytes)
    → IsTracked h
    → IsTracked (remove_message h.fresh (obtained h what data_in))
refused-IsTracked h what data_in t =
    let m = new_msg h what data_in in
    let new = in_queue-below h.fresh h.fresh h.msg_queue t.distinct (omega arith) in
    let r = remove_from_list-Removed (obtained h what data_in) h.msg_queue m [] refl new in
    record {
      distinct =
          rw (r.queue, append-nil h.msg_queue, r.same_fresh)
            (IsDistinct-mono h.fresh _ h.msg_queue t.distinct (omega arith));
      linked =
          rw (r.queue, append-nil h.msg_queue, taken_loop h.fresh (obtained h what data_in))
            (unlink_absent h.fresh h.loop h.msg_queue new t.linked);
    }

-- What `sm_send_message_delay` does with the message that it got, if it got one.
unfoldable pub finish : ℕ → Option Msg × Handler → Bool × Handler
finish msec r = elim r.0 [
  | none ↦ (false, r.1)
  | some msg ↦ (true, send_message_delay msg msec r.1)
]

pub finish_lem :
    (what : ℕ) (data_in : Option Bytes) (msec : ℕ) (h : Handler) (r : Option Msg × Handler)
    → obtain_message what data_in h ≡ r
    → sm_send_message_delay what data_in msec h ≡ finish msec r
unfolding sm_send_message_delay finish
finish_lem what data_in msec h r e = ap (finish msec) e

pub sent-IsTracked :
    (what : ℕ) (data_in : Option Bytes) (msec : ℕ) (h : Handler)
    → IsTracked h
    → IsTracked (sm_send_message_delay what data_in msec h).1
unfolding obtain_message obtain finish
sent-IsTracked what data_in msec h t =
    let m = new_msg h what data_in in
    let h1 = obtained h what data_in in
    elim (Bool-cases (ltb (h.msg_count + 1) max_msg_queue_size)) [
      | inr full ↦ rw (finish_lem what data_in msec h (none, h) (rw (full, obtain_message) refl)) t
      | inl room ↦
          elim (Bool-cases (is_some m.payload && (if h.grants m.id then false else true))) [
            | inl refused ↦
                rw
                  (finish_lem what data_in msec h (none, remove_message m.id h1)
                    (rw (room, obtain_message) (rw refused refl)))
                  (refused-IsTracked h what data_in t)
            | inr granted ↦
                rw
                  (finish_lem what data_in msec h (some m, h1)
                    (rw (room, obtain_message) (rw granted refl)))
                  (send_message_delay-IsTracked m msec h1 h.msg_queue refl
                    (IsDistinct-append h.fresh h.msg_queue m t.distinct refl) t.linked)
          ]
    ]

process_defers-IsTracked :
    (ms : List Msg) (h : Handler) → IsTracked h → IsTracked (process_defers ms h)
unfolding process_defers send_message_delay remove_from_queue
process_defers-IsTracked [] h t = t
process_defers-IsTracked (m ∷ ms) h t =
    let q = remove_from_queue m.id h in
    process_defers-IsTracked ms (send_message_delay m 0 q)
      (elim (Bool-cases (in_queue m.id h.msg_queue)) [
        | inl here ↦ rw here (record {
          distinct = erase_msg-IsDistinct m.id h.fresh h.msg_queue t.distinct;
          linked =
              more_linked h.loop _ _
                (λ k b. added_linked _ m.id (of_msec 0) h.loop k ∙ ground (arith, b))
                (erase_kept m.id h.loop h.msg_queue t.linked);
        })
        | inr absent ↦ rw absent (record {
          distinct = t.distinct;
          linked =
              more_linked h.loop _ _
                (λ k b. added_linked _ m.id (of_msec 0) h.loop k ∙ ground (arith, b)) t.linked;
        })
      ])

pub process_defer_msg-IsTracked : (h : Handler) → IsTracked h → IsTracked (process_defer_msg h)
unfolding process_defer_msg
process_defer_msg-IsTracked h t = process_defers-IsTracked h.defer_msg_queue h t

-- The handler after the loop took the message's event to fire it.
abbrev pub unlinked : ℕ → Handler → Handler
unlinked id h = record h { loop = unlink id h.loop }

erased_absent : (k n : ℕ) (q : List Msg) → IsDistinct n q → in_queue k (erase_msg k q) ≡ false
unfolding in_queue erase_msg
erased_absent k n [] d = refl
erased_absent k n (m ∷ q) d = elim (Bool-cases (m.id == k)) [
  | inl here ↦ let same : m.id ≡ k = ground (arith, here) in rw here (rw same at d.1)
  | inr other ↦ rw (other, in_queue) (rw other (erased_absent k n q d.2))
]

-- The first thing that its processing does then is to take it out of the queue.
pub fired-IsTracked :
    (id : ℕ) (h : Handler) → IsTracked h → IsTracked (Defs.remove_from_list id (unlinked id h))
unfolding Defs.remove_from_list remove_from_queue
fired-IsTracked id h t = elim (Bool-cases (in_queue id h.msg_queue)) [
  | inl here ↦ rw here (record {
    distinct = erase_msg-IsDistinct id h.fresh h.msg_queue t.distinct;
    linked =
        unlink_absent id (unlink id h.loop) (erase_msg id h.msg_queue)
          (erased_absent id h.fresh h.msg_queue t.distinct)
          (erase_linked id h.fresh h.loop h.msg_queue t.distinct t.linked);
  })
  | inr absent ↦ rw absent (record {
    distinct = t.distinct;
    linked =
        unlink_absent id (unlink id h.loop) h.msg_queue absent
          (unlink_absent id h.loop h.msg_queue absent t.linked);
  })
]

-- The event of another list of the loop is taken.
pub passed-IsTracked :
    (ev : ℕ) (h : Handler)
    → in_queue ev h.msg_queue ≡ false
    → IsTracked h
    → IsTracked (unlinked ev h)
passed-IsTracked ev h n t = record {
  distinct = t.distinct;
  linked = unlink_absent ev h.loop h.msg_queue n t.linked;
}
