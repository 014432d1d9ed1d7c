-- ===== src/Handler/Defs.antt =====
-- state_machine/handler.c: the messages of a handler. A message is named by its address, which its
-- event `ev` shares; `malloc` gives the address `fresh`, which was never in use. A message is
-- linked if it stands in one of the two queues.
use upil.Common.{
  ℕ, ◌+◌, ◌-◌, Bool, true, false, ◌&&◌, ◌||◌, Option, none, some, List, [], ◌∷◌, ◌++◌, ltb, ◌==◌,
  if◌then◌else◌,
}
use upil.Common.Memory.{Bytes}
use upil.Loop.Time.{Timeval, of_msec}
use upil.Loop.Defs
use upil.Loop.Defs.{Loop, mem, event_set, timer_add}

abbrev pub max_msg_queue_size : ℕ
max_msg_queue_size = 32

-- `payload` is `none` for a null `data`; two zero bytes stand behind its `data_size` bytes.
pub record Msg : Type 0 where
  pub id : ℕ
  pub what : ℕ
  pub payload : Option Bytes

-- `clock n` is the reading of the n-th call of `getNow`, and `grants id` tells whether `malloc`
-- gives memory for the data of message `id`.
pub record Handler : Type 0 where
  pub msg_queue : List Msg
  pub defer_msg_queue : List Msg
  pub msg_count : ℕ
  pub loop : Loop
  pub fresh : ℕ
  pub clock : ℕ → Timeval
  pub ticks : ℕ
  pub grants : ℕ → Bool

unfoldable pub in_queue : ℕ → List Msg → Bool
in_queue id [] = false
in_queue id (m ∷ q) = m.id == id || in_queue id q

unfoldable pub erase_msg : ℕ → List Msg → List Msg
erase_msg id [] = []
erase_msg id (m ∷ q) = let rest = erase_msg id q in if m.id == id then q else m ∷ rest

-- `removeFromQueue`: a message in no queue is left alone.
unfoldable pub remove_from_queue : ℕ → Handler → Handler
remove_from_queue id h =
    if in_queue id h.msg_queue
    then record h { msg_queue = erase_msg id h.msg_queue }
    else record h { defer_msg_queue = erase_msg id h.defer_msg_queue }

-- `msg->ev.next!=NULL && msg->ev.prev!=NULL`: the event is taken off its list.
unfoldable pub unlink : ℕ → Loop → Loop
unlink id l =
    if mem id l.timers || mem id l.pending
    then elim (Defs.remove_from_list id l) [ none ↦ l | some l' ↦ l' ]
    else l

-- `remove_from_list`
unfoldable pub remove_from_list : ℕ → Handler → Handler
remove_from_list id h =
    let q = remove_from_queue id (record h { loop = unlink id h.loop }) in
    record q { msg_count = q.msg_count - 1 }

-- `remove_message`; the memory is not used again.
abbrev pub remove_message : ℕ → Handler → Handler
remove_message = remove_from_list

-- `obtain`, with the fields that `obtain_message` sets at once.
unfoldable pub obtain : ℕ → Option Bytes → Handler → Option (Msg × Handler)
obtain what payload h =
    let msg : Msg = record { id = h.fresh; what = what; payload = payload } in
    if ltb (h.msg_count + 1) max_msg_queue_size
    then some (
      msg,
      record h {
        msg_queue = h.msg_queue ++ (msg ∷ []);
        msg_count = h.msg_count + 1;
        fresh = h.fresh + 1;
      },
    )
    else none

-- `data_size > 0`
unfoldable pub stored : Option Bytes → Option Bytes
stored none = none
stored (some []) = none
stored (some (b ∷ bs)) = some (b ∷ bs)

abbrev pub is_some : Option Bytes → Bool
is_some none = false
is_some (some bs) = true

-- `obtain_message` on a handler that is not null: the message, if there is one.
unfoldable pub obtain_message : ℕ → Option Bytes → Handler → Option Msg × Handler
obtain_message what data_in h = elim (obtain what (stored data_in) h) [
  | none ↦ (none, h)
  | some (msg, h') ↦
      if is_some msg.payload && (if h.grants msg.id then false else true)
      then (none, remove_message msg.id h')
      else (some msg, h')
]

-- `send_message_delay`
unfoldable pub send_message_delay : Msg → ℕ → Handler → Handler
send_message_delay msg msec h = record h {
  loop =
      timer_add (h.clock h.ticks) msg.id (some (of_msec msec)) (event_set msg.id none false h.loop);
  ticks = h.ticks + 1;
}

-- `defer_message`
unfoldable pub defer_message : Msg → Handler → Handler
defer_message msg h =
    let h' = remove_from_queue msg.id h in
    record h' { defer_msg_queue = h'.defer_msg_queue ++ (msg ∷ []) }

-- `process_defer_msg`: the loop over the deferred messages, by those left.
unfoldable pub process_defers : List Msg → Handler → Handler
process_defers [] h = h
process_defers (m ∷ ms) h = process_defers ms (send_message_delay m 0 (remove_from_queue m.id h))

unfoldable pub process_defer_msg : Handler → Handler
process_defer_msg h = process_defers h.defer_msg_queue h

-- The loop of `remove_message_id` over a queue, by the messages left in it.
unfoldable pub remove_ids : List Msg → ℕ → Handler → Handler
remove_ids [] what h = h
remove_ids (m ∷ ms) what h =
    remove_ids ms what (if m.what == what then remove_message m.id h else h)

-- `sm_remove_message_id`: both queues.
unfoldable pub remove_message_id : ℕ → Handler → Handler
remove_message_id what h =
    let h' = remove_ids h.msg_queue what h in remove_ids h'.defer_msg_queue what h'

-- `start_handler`, when the event loop has started.
unfoldable pub start_handler : Loop → Handler → Handler
start_handler l h = record h { msg_queue = []; defer_msg_queue = []; msg_count = 0; loop = l }

-- `sm_send_message_delay` of state_machine.c; the result is true for 0.
unfoldable pub sm_send_message_delay : ℕ → Option Bytes → ℕ → Handler → Bool × Handler
sm_send_message_delay what data_in msec h =
    let (sent, h') = obtain_message what data_in h in
    elim sent [ none ↦ (false, h') | some msg ↦ (true, send_message_delay msg msec h') ]
