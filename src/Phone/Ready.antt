-- ===== src/Phone/Ready.antt =====
-- upil_sm.c: the messages that the states queue. Their text fits the buffers it is copied to, and a
-- transition names a state.
use upil.Common.{
  ℕ, ◌+◌, ◌<◌, ◌≡◌, refl, ◌∙◌, inl, inr, Bool, true, false, ◌&&◌, Option, none, some, List, [], ◌∷◌,
  ◌++◌, Bool-cases, arith, ltb, ◌==◌, if◌then◌else◌, length,
}
use upil.Common.Memory.{Bytes}
use upil.Codes.Evt
use upil.Handler.Defs
use upil.Handler.Defs.{
  Msg, Handler, erase_msg, remove_from_queue, remove_message, remove_ids, remove_message_id, obtain,
  obtain_message, stored, send_message_delay, sm_send_message_delay, process_defers,
  process_defer_msg,
}
use upil.Handler.Linked.{IsTracked}
use upil.StateMachine.Defs.{Fsm, int_of}
use upil.Phone.Keeps.{fits}

-- The message of a transition carries the identifier of a state of the table.
unfoldable pub names_state : Msg → Bool
names_state msg =
    if msg.what == Evt.sm_transition
    then elim (int_of msg.payload) [ none ↦ false | some id ↦ ltb id 7 ]
    else true

-- What a message must be for its processing to return, HANDLED.
abbrev pub is_valid : Msg → Bool
is_valid msg = fits msg && names_state msg

-- What is sent makes such a message.
unfoldable pub is_sendable : ℕ → Option Bytes → Bool
is_sendable what data_in = is_valid (record { id = 0; what = what; payload = stored data_in })

-- Every message of a queue is valid.
unfoldable pub all_valid : List Msg → Bool
all_valid [] = true
all_valid (m ∷ q) = is_valid m && all_valid q

-- Every queued message is valid, and the number to dial fits its buffer.
pub record IsReady (fsm : Fsm) : Type 0 where
  pub queued : all_valid fsm.handler.msg_queue ≡ true
  pub short : length fsm.last_outgoing_num < 128

-- Besides, the messages are linked if those of the handler `h0` were.
pub record IsReadyFrom (h0 : Handler) (fsm : Fsm) : Type 0 where
  pub queued : all_valid fsm.handler.msg_queue ≡ true
  pub short : length fsm.last_outgoing_num < 128
  pub tracks : IsTracked h0 → IsTracked fsm.handler

-- Such a machine is ready.
pub IsReadyFrom-IsReady : (h0 : Handler) (fsm : Fsm) → IsReadyFrom h0 fsm → IsReady fsm
IsReadyFrom-IsReady h0 fsm r = record { queued = r.queued; short = r.short }

all_valid-append : (p q : List Msg) → all_valid (p ++ q) ≡ (all_valid p && all_valid q)
unfolding all_valid
all_valid-append [] q = refl
all_valid-append (m ∷ p) q = ground (arith, all_valid-append p q)

pub all_valid_middle :
    (p : List Msg) (m : Msg) (q : List Msg) → all_valid (p ++ (m ∷ q)) ≡ true → is_valid m ≡ true
unfolding all_valid
all_valid_middle [] m q v = ground (arith, v)
all_valid_middle (x ∷ p) m q v = all_valid_middle p m q (ground (arith, v))

-- Taking messages out leaves valid ones.
abbrev Stays : Handler → Handler → Type 0
Stays h h' = all_valid h.msg_queue ≡ true → all_valid h'.msg_queue ≡ true

erase_msg_valid : (k : ℕ) (q : List Msg) → all_valid q ≡ true → all_valid (erase_msg k q) ≡ true
unfolding all_valid erase_msg
erase_msg_valid k [] v = refl
erase_msg_valid k (m ∷ q) v = ground (arith, v, erase_msg_valid k q)

remove_from_queue_valid : (k : ℕ) (h : Handler) → Stays h (remove_from_queue k h)
unfolding remove_from_queue
remove_from_queue_valid k h v = ground (arith, v, erase_msg_valid k h.msg_queue v)

pub remove_from_list_valid : (k : ℕ) (h : Handler) → Stays h (Defs.remove_from_list k h)
unfolding Defs.remove_from_list
remove_from_list_valid k h v = remove_from_queue_valid k _ v

remove_ids_valid : (ms : List Msg) (what : ℕ) (h : Handler) → Stays h (remove_ids ms what h)
unfolding remove_ids
remove_ids_valid [] what h v = v
remove_ids_valid (m ∷ ms) what h v = elim (Bool-cases (m.what == what)) [
  | inl kind ↦
      rw (kind, remove_ids)
        (remove_ids_valid ms what (remove_message m.id h) (remove_from_list_valid m.id h v))
  | inr other ↦ rw (other, remove_ids) (remove_ids_valid ms what h v)
]

pub remove_message_id_valid : (what : ℕ) (h : Handler) → Stays h (remove_message_id what h)
unfolding remove_message_id
remove_message_id_valid what h v = remove_ids_valid _ what _ (remove_ids_valid h.msg_queue what h v)

process_defers_valid : (ms : List Msg) (h : Handler) → Stays h (process_defers ms h)
unfolding process_defers send_message_delay
process_defers_valid [] h v = v
process_defers_valid (m ∷ ms) h v =
    process_defers_valid ms (send_message_delay m 0 (remove_from_queue m.id h))
      (remove_from_queue_valid m.id h v)

pub process_defer_msg_valid : (h : Handler) → Stays h (process_defer_msg h)
unfolding process_defer_msg
process_defer_msg_valid h v = process_defers_valid h.defer_msg_queue h v

-- The address of a message does not matter.
is_valid_anywhere :
    (id what : ℕ) (payload : Option Bytes)
    → is_valid (record { id = id; what = what; payload = payload })
      ≡ is_valid (record { id = 0; what = what; payload = payload })
unfolding fits names_state
is_valid_anywhere id what payload = refl

pub sent_valid :
    (what : ℕ) (data_in : Option Bytes) (msec : ℕ) (h : Handler)
    → is_sendable what data_in ≡ true
    → Stays h (sm_send_message_delay what data_in msec h).1
unfolding sm_send_message_delay obtain_message obtain send_message_delay is_sendable
sent_valid what data_in msec h s v =
    let m : Msg = record { id = h.fresh; what = what; payload = stored data_in } in
    let added : all_valid (h.msg_queue ++ (m ∷ [])) ≡ true =
      all_valid-append h.msg_queue (m ∷ [])
      ∙ unfold all_valid in ground (arith, s, v, is_valid_anywhere h.fresh what (stored data_in)) in
    ground (
      arith,
      v,
      added,
      remove_from_list_valid h.fresh
          (record h {
            msg_queue = h.msg_queue ++ (m ∷ []);
            msg_count = h.msg_count + 1;
            fresh = h.fresh + 1;
          })
          added,
    )
