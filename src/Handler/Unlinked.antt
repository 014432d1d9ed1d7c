-- ===== src/Handler/Unlinked.antt =====
-- state_machine/handler.c over the event loop: an event that `sm_remove_message_id` takes off the
-- loop's lists, and that stays off them as other messages come and go.
use upil.Common.{
  ℕ, ◌+◌, ◌<◌, ◌≡◌, refl, ◌∙◌, inl, inr, Bool, true, false, not, ◌&&◌, ◌||◌, Option, none, some,
  List, [], ◌∷◌, ◌++◌, Bool-cases, arith, ltb, ◌==◌, if◌then◌else◌,
}
use upil.Common.Memory.{Bytes}
use upil.Loop.Time.{of_msec}
use upil.Loop.Defs.{Loop, mem, erase, remove_from_list}
use upil.Handler.Defs
use upil.Handler.Defs.{
  Msg, Handler, remove_from_queue, max_msg_queue_size, unlink, remove_message, obtain,
  obtain_message, is_some, stored, remove_ids, remove_message_id, sm_send_message_delay,
  send_message_delay,
}
use upil.Handler.Queue.{new_msg}
use upil.Handler.Linked.{is_linked, taken_loop}
use upil.Handler.Tracked.{obtained, finish, finish_lem, added_linked}

-- No timer, and pending once at most.
abbrev pub is_apart : ℕ → Loop → Bool
is_apart k l = not (mem k l.timers || mem k (erase k l.pending))

mem-erase : (k id : ℕ) (xs : List ℕ) → mem k xs ≡ false → mem k (erase id xs) ≡ false
unfolding mem erase
mem-erase k id [] n = refl
mem-erase k id (x ∷ xs) n = ground (arith, n, mem-erase k id xs)

erase-once :
    (k id : ℕ) (xs : List ℕ) → mem k (erase k xs) ≡ false → mem k (erase k (erase id xs)) ≡ false
unfolding mem erase
erase-once k id [] n = refl
erase-once k id (x ∷ xs) n =
    ground (arith, n, erase-once k id xs, mem-erase k k xs, mem-erase k id xs)

pub unlink_off : (k id : ℕ) (l : Loop) → is_linked k l ≡ false → is_linked k (unlink id l) ≡ false
unfolding unlink remove_from_list
unlink_off k id l n = ground (arith, n, mem-erase k id l.timers, mem-erase k id l.pending)

pub unlink_apart : (k id : ℕ) (l : Loop) → is_apart k l ≡ true → is_apart k (unlink id l) ≡ true
unfolding unlink remove_from_list
unlink_apart k id l a = ground (arith, a, mem-erase k id l.timers, erase-once k id l.pending)

unlink_takes : (k : ℕ) (l : Loop) → is_apart k l ≡ true → is_linked k (unlink k l) ≡ false
unfolding unlink remove_from_list
unlink_takes k l a = ground (arith, a)

remove_ids_off :
    (k : ℕ) (ms : List Msg) (what : ℕ) (h : Handler)
    → is_linked k h.loop ≡ false
    → is_linked k (remove_ids ms what h).loop ≡ false
unfolding remove_ids
remove_ids_off k [] what h n = n
remove_ids_off k (m ∷ ms) what h n = elim (Bool-cases (m.what == what)) [
  | inl kind ↦
      rw (kind, remove_ids)
        (remove_ids_off k ms what (remove_message m.id h)
          (rw (taken_loop m.id h) (unlink_off k m.id h.loop n)))
  | inr other ↦ rw (other, remove_ids) (remove_ids_off k ms what h n)
]

remove_ids_takes :
    (p : List Msg) (m : Msg) (q : List Msg) (what : ℕ) (h : Handler)
    → m.what == what ≡ true
    → is_apart m.id h.loop ≡ true
    → is_linked m.id (remove_ids (p ++ (m ∷ q)) what h).loop ≡ false
unfolding remove_ids
remove_ids_takes [] m q what h kind a =
    rw (kind, remove_ids)
      (remove_ids_off m.id q what (remove_message m.id h)
        (rw (taken_loop m.id h) (unlink_takes m.id h.loop a)))
remove_ids_takes (x ∷ p) m q what h kind a = elim (Bool-cases (x.what == what)) [
  | inl same ↦
      rw (same, remove_ids)
        (remove_ids_takes p m q what (remove_message x.id h) kind
          (rw (taken_loop x.id h) (unlink_apart m.id x.id h.loop a)))
  | inr other ↦ rw (other, remove_ids) (remove_ids_takes p m q what h kind a)
]

-- The event of a queued message of this kind is in no list afterwards.
pub remove_message_id_takes :
    (p : List Msg) (m : Msg) (q : List Msg) (what : ℕ) (h : Handler)
    → h.msg_queue ≡ p ++ (m ∷ q)
    → m.what == what ≡ true
    → is_apart m.id h.loop ≡ true
    → is_linked m.id (remove_message_id what h).loop ≡ false
unfolding remove_message_id
remove_message_id_takes p m q what h e kind a =
    remove_ids_off m.id _ what _ (simp (e) (remove_ids_takes p m q what h kind a))

pub taken_fresh : (id : ℕ) (h : Handler) → (Defs.remove_from_list id h).fresh ≡ h.fresh
unfolding Defs.remove_from_list remove_from_queue
taken_fresh id h = ground arith

remove_ids_fresh : (ms : List Msg) (what : ℕ) (h : Handler) → (remove_ids ms what h).fresh ≡ h.fresh
unfolding remove_ids
remove_ids_fresh [] what h = refl
remove_ids_fresh (m ∷ ms) what h = elim (Bool-cases (m.what == what)) [
  | inl kind ↦
      rw (kind, remove_ids) (remove_ids_fresh ms what (remove_message m.id h) ∙ taken_fresh m.id h)
  | inr other ↦ rw (other, remove_ids) (remove_ids_fresh ms what h)
]

pub remove_message_id_fresh : (what : ℕ) (h : Handler) → (remove_message_id what h).fresh ≡ h.fresh
unfolding remove_message_id
remove_message_id_fresh what h =
    remove_ids_fresh (remove_ids h.msg_queue what h).defer_msg_queue what _
    ∙ remove_ids_fresh h.msg_queue what h

-- Nor does another message bring it back.
pub sent_off :
    (k what : ℕ) (data_in : Option Bytes) (msec : ℕ) (h : Handler)
    → k < h.fresh
    → is_linked k h.loop ≡ false
    → is_linked k (sm_send_message_delay what data_in msec h).1.loop ≡ false
unfolding obtain_message obtain finish send_message_delay
sent_off k what data_in msec h old n =
    let m = new_msg h what data_in in
    let h1 = obtained h what data_in in
    elim (Bool-cases (ltb (h.msg_count + 1) max_msg_queue_size)) [
      | inr full ↦ rw (finish_lem what data_in msec h (none, h) (rw (full, obtain_message) refl)) n
      | inl room ↦
          elim (Bool-cases (is_some m.payload && (if h.grants m.id then false else true))) [
            | inl refused ↦
                rw
                  (finish_lem what data_in msec h (none, remove_message m.id h1)
                    (rw (room, obtain_message) (rw refused refl)))
                  (rw (taken_loop m.id h1) (unlink_off k m.id h.loop n))
            | inr granted ↦
                rw
                  (finish_lem what data_in msec h (some m, h1)
                    (rw (room, obtain_message) (rw granted refl)))
                  (added_linked (h.clock h.ticks) m.id (of_msec msec) h.loop k
                    ∙ ground (arith, n, old))
          ]
    ]
