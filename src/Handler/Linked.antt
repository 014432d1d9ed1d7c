-- ===== src/Handler/Linked.antt =====
-- state_machine/handler.c over the event loop: no queued message is lost. Its event stands in one of
-- the lists of the loop, so that it is fired or waits to be.
use upil.Common.{
  ℕ, ◌≡◌, refl, inl, inr, Bool, true, false, ◌&&◌, ◌||◌, List, [], ◌∷◌, Bool-cases, arith, ◌==◌,
}
use upil.Loop.Defs.{Loop, mem, erase, remove_from_list}
use upil.Handler.Defs
use upil.Handler.Defs.{
  Msg, Handler, max_msg_queue_size, in_queue, erase_msg, remove_from_queue, unlink, remove_message,
  obtain, obtain_message, stored, is_some, send_message_delay, process_defers, process_defer_msg,
  remove_ids, remove_message_id, sm_send_message_delay,
}
use upil.Handler.Queue.{IsDistinct}

-- The event is a timer, or pending.
abbrev pub is_linked : ℕ → Loop → Bool
is_linked k l = mem k l.timers || mem k l.pending

-- So is that of every message of the queue.
unfoldable pub all_linked : Loop → List Msg → Bool
all_linked l [] = true
all_linked l (m ∷ q) = is_linked m.id l && all_linked l q

mem_other : (k id : ℕ) (xs : List ℕ) → (k == id) ≡ false → mem k (erase id xs) ≡ mem k xs
unfolding mem erase
mem_other k id [] n = refl
mem_other k id (x ∷ xs) n = ground (arith, n, mem_other k id xs n)

unlink_other : (k id : ℕ) (l : Loop) → (k == id) ≡ false → is_linked k (unlink id l) ≡ is_linked k l
unfolding unlink remove_from_list
unlink_other k id l n = ground (arith, n, mem_other k id l.timers n, mem_other k id l.pending n)

-- A message that is not in the queue is unlinked.
pub unlink_absent :
    (id : ℕ) (l : Loop) (q : List Msg)
    → in_queue id q ≡ false
    → all_linked l q ≡ true
    → all_linked (unlink id l) q ≡ true
unfolding in_queue all_linked
unlink_absent id l [] n a = refl
unlink_absent id l (m ∷ q) n a =
    let other : (m.id == id) ≡ false = ground (arith, n) in
    ground (
      arith,
      n,
      a,
      unlink_other m.id id l other,
      unlink_absent id l q (ground (arith, n)) (ground (arith, a)),
    )

-- Taken out of the queue, and unlinked.
pub erase_linked :
    (id n : ℕ) (l : Loop) (q : List Msg)
    → IsDistinct n q
    → all_linked l q ≡ true
    → all_linked (unlink id l) (erase_msg id q) ≡ true
unfolding erase_msg all_linked
erase_linked id n l [] d a = refl
erase_linked id n l (m ∷ q) d a = elim (Bool-cases (m.id == id)) [
  | inl here ↦
      let same : m.id ≡ id = ground (arith, here) in
      rw here (unlink_absent id l q (rw same at d.1) (ground (arith, a)))
  | inr other ↦ rw other (
      ground
        (arith, a, unlink_other m.id id l other, erase_linked id n l q d.2 (ground (arith, a))))
]

-- Without unlinking, and with more in the loop.
pub erase_kept :
    (id : ℕ) (l : Loop) (q : List Msg)
    → all_linked l q ≡ true
    → all_linked l (erase_msg id q) ≡ true
unfolding erase_msg all_linked
erase_kept id l [] a = refl
erase_kept id l (m ∷ q) a = ground (arith, a, erase_kept id l q)

pub erase_msg-IsDistinct :
    (id n : ℕ) (q : List Msg) → IsDistinct n q → IsDistinct n (erase_msg id q)
unfolding erase_msg in_queue
erase_msg-IsDistinct id n [] d = tt
erase_msg-IsDistinct id n (m ∷ q) d = elim (Bool-cases (m.id == id)) [
  | inl here ↦ rw here (d.2)
  | inr other ↦ rw other (d.0, absent_kept m.id id q d.1, erase_msg-IsDistinct id n q d.2)
]
  where
    absent_kept :
        (k id : ℕ) (q : List Msg) → in_queue k q ≡ false → in_queue k (erase_msg id q) ≡ false
    absent_kept k id [] h = refl
    absent_kept k id (x ∷ q) h = ground (arith, h, absent_kept k id q)

-- What is needed of a handler for its messages to stay linked as some are taken out.
pub record IsTracked (h : Handler) : Type 0 where
  pub distinct : IsDistinct h.fresh h.msg_queue
  pub linked : all_linked h.loop h.msg_queue ≡ true

pub remove_from_list-IsTracked :
    (id : ℕ) (h : Handler) → IsTracked h → IsTracked (Defs.remove_from_list id h)
unfolding Defs.remove_from_list remove_from_queue
remove_from_list-IsTracked id h t = elim (Bool-cases (in_queue id h.msg_queue)) [
  | inl here ↦ rw here (record {
    distinct = erase_msg-IsDistinct id h.fresh h.msg_queue t.distinct;
    linked = erase_linked id h.fresh h.loop h.msg_queue t.distinct t.linked;
  })
  | inr absent ↦ rw absent (record {
    distinct = t.distinct;
    linked = unlink_absent id h.loop h.msg_queue absent t.linked;
  })
]

remove_ids-IsTracked :
    (ms : List Msg) (what : ℕ) (h : Handler) → IsTracked h → IsTracked (remove_ids ms what h)
unfolding remove_ids
remove_ids-IsTracked [] what h t = t
remove_ids-IsTracked (m ∷ ms) what h t = elim (Bool-cases (m.what == what)) [
  | inl kind ↦
      rw (kind, remove_ids)
        (remove_ids-IsTracked ms what (remove_message m.id h) (remove_from_list-IsTracked m.id h t))
  | inr other ↦ rw (other, remove_ids) (remove_ids-IsTracked ms what h t)
]

pub remove_message_id-IsTracked :
    (what : ℕ) (h : Handler) → IsTracked h → IsTracked (remove_message_id what h)
unfolding remove_message_id
remove_message_id-IsTracked what h t =
    remove_ids-IsTracked _ what _ (remove_ids-IsTracked h.msg_queue what h t)

-- With more in the loop.
pub more_linked :
    (l l' : Loop) (q : List Msg)
    → ((k : ℕ) → is_linked k l ≡ true → is_linked k l' ≡ true)
    → all_linked l q ≡ true
    → all_linked l' q ≡ true
unfolding all_linked
more_linked l l' [] g a = refl
more_linked l l' (m ∷ q) g a =
    ground (arith, g m.id (ground (arith, a)), more_linked l l' q g (ground (arith, a)), a)

pub taken_loop : (id : ℕ) (h : Handler) → (Defs.remove_from_list id h).loop ≡ unlink id h.loop
unfolding Defs.remove_from_list remove_from_queue
taken_loop id h = elim (Bool-cases (in_queue id h.msg_queue)) [
  | inl here ↦ rw here refl
  | inr absent ↦ rw absent refl
]
