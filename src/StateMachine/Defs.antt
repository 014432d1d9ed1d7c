-- ===== src/StateMachine/Defs.antt =====
-- state_machine/state_machine.c: a machine with a handler, its table of states, and the messages
-- that it processes. `none` is an access through a null pointer or outside a buffer.
use upil.Common.{
  ℕ, ◌+◌, ◌*◌, ◌-◌, ◌/◌, ◌%◌, Bool, true, false, ◌&&◌, Option, none, some, List, [], ◌∷◌, ltb, leb,
  ◌==◌, if◌then◌else◌,
}
use upil.Common.Memory.{Bytes, ◌>>=◌}
use upil.Codes.Ctl
use upil.Codes.Evt
use upil.Handler.Defs
use upil.Handler.Defs.{Msg, Handler, sm_send_message_delay, process_defer_msg}

-- What the states of a call do besides sending messages: commands for the device, notices for the
-- monitor, and calls of the audio module, whose other code is not part of this library.
pub data Effect : Type 0 where
  command : ℕ → Option Bytes → Effect
  notice : ℕ → Option Bytes → Effect
  audio_start audio_stop audio_play_file audio_record_file : Effect

-- `FSM`, with the variable `s_ring_count` of upil_sm.c. `cur_state` is the identifier of the
-- state that the pointer leads to, `none` for NULL. `effects` is the record of what was done.
pub record Fsm : Type 0 where
  pub handler : Handler
  pub cur_state : Option ℕ
  pub last_incoming_num : Bytes
  pub last_outgoing_num : Bytes
  pub ring_count : ℕ
  pub effects : List Effect

-- A function that changes the machine.
abbrev pub Action : Type 0
Action = Fsm → Option Fsm

infixl 5 ◌>>◌
abbrev pub ◌>>◌ : Action → Action → Action
◌>>◌ a b fsm = a fsm >>= b

-- `FSM_STATE`; `none` for a function that is NULL. `process_func` also returns HANDLED or not.
pub record FsmState : Type 0 where
  pub id : ℕ
  pub enter_func : Option Action
  pub exit_func : Option Action
  pub process_func : Option (Msg → Fsm → Option (Bool × Fsm))

-- An `int` as its four bytes, the low one first, and back.
unfoldable pub int_bytes : ℕ → Bytes
int_bytes n = n % 256 ∷ n / 256 % 256 ∷ n / 65536 % 256 ∷ n / 16777216 % 256 ∷ []

unfoldable pub int_of : Option Bytes → Option ℕ
int_of (some (a ∷ b ∷ c ∷ d ∷ _)) = some (a + b * 256 + c * 65536 + d * 16777216)
int_of _ = none

unfoldable pub get_state : List FsmState → ℕ → Option FsmState
get_state [] id = none
get_state (s ∷ table) id = let rest = get_state table id in if s.id == id then some s else rest

abbrev pub run_func : Option Action → Action
run_func none fsm = some fsm
run_func (some f) fsm = f fsm

-- `fsm->cur_state`, if it is not NULL.
unfoldable pub cur_of : List FsmState → Fsm → Option FsmState
cur_of table fsm = fsm.cur_state >>= get_state table

abbrev pub exit_of : Option FsmState → Option Action
exit_of none = none
exit_of (some s) = s.exit_func

-- `fsm->cur_state && fsm->cur_state->id == id`
unfoldable pub is_current : ℕ → Fsm → Bool
is_current id fsm = elim fsm.cur_state [ none ↦ false | some cur ↦ cur == id ]

-- `transition_to`; the result is true for HANDLED.
unfoldable pub transition_to : List FsmState → ℕ → Fsm → Option (Bool × Fsm)
transition_to table id fsm =
    if is_current id fsm then some (true, fsm) else elim (get_state table id) [
      | none ↦ some (false, fsm)
      | some new ↦ do
        left ← run_func (exit_of (cur_of table fsm)) fsm
        entered ← run_func new.enter_func (record left { cur_state = some id })
        some (true, record entered { handler = process_defer_msg entered.handler })
    ]

-- `process_msg`
unfoldable pub process_msg : List FsmState → Msg → Fsm → Option (Bool × Fsm)
process_msg table msg fsm = elim (cur_of table fsm) [
  | none ↦ some (true, fsm)
  | some s ↦ elim s.process_func [ none ↦ some (true, fsm) | some f ↦ f msg fsm ]
]

-- `sm_process_message`; the result is true for 0.
unfoldable pub sm_process_message : List FsmState → Msg → Fsm → Option (Bool × Fsm)
sm_process_message table msg fsm =
    let taken = record fsm { handler = Defs.remove_from_list msg.id fsm.handler } in
    let moved = int_of msg.payload >>= λ id. transition_to table id taken in
    let processed = process_msg table msg taken in
    if msg.what == Evt.sm_transition then moved else processed

-- Sending from within a state; the results are not used there.
unfoldable pub send : ℕ → Option Bytes → ℕ → Action
send what data_in msec fsm =
    some (record fsm { handler = (sm_send_message_delay what data_in msec fsm.handler).1 })

-- `sm_transition_to`
abbrev pub sm_transition_to : ℕ → Action
sm_transition_to id = send Evt.sm_transition (some (int_bytes id)) 0

-- `sm_remove_message_id`
unfoldable pub sm_remove_message_id : ℕ → Action
sm_remove_message_id what fsm =
    some (record fsm { handler = Defs.remove_message_id what fsm.handler })

-- `sm_set_init_state`
abbrev pub sm_set_init_state : List FsmState → ℕ → Fsm → Option (Bool × Fsm)
sm_set_init_state = transition_to

-- `msg2str`: the place in which table it reads, `none` for the word "unknown".
pub data Place : Type 0 where
  ctl_str event_str : ℕ → Place

unfoldable pub msg2str : ℕ → Option Place
msg2str msg =
    if leb Ctl.begin msg && ltb msg Ctl.max
    then some (ctl_str (msg - Ctl.begin))
    else if leb Evt.begin msg && ltb msg Evt.max
    then some (event_str (msg - Evt.begin))
    else none
