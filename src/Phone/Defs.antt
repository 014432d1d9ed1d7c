-- ===== src/Phone/Defs.antt =====
-- upil_sm.c: the timers, what the states share, and `default_process`.
-- What `tpp_send_cmd` and `sendto_monitor` return is not used in the states, so both are recorded as
-- effects; a `tpp_send_cmd` that leaves its buffers is `none`. Every `process_func` returns HANDLED.
use upil.Common.{ℕ, Bool, true, Option, none, some, [], ◌∷◌, ◌++◌, ltb, ◌==◌, if◌then◌else◌, length}
use upil.Common.Memory.{Bytes, ◌>>=◌}
use upil.Codes.Ctl
use upil.Codes.Evt
use upil.Codes.SmState
use upil.Handler.Defs.{Msg}
use upil.Tpp.Send.{tpp_send_cmd}
use upil.StateMachine.Defs.{Effect, command, notice, Fsm, Action, ◌>>◌, send, sm_transition_to}

abbrev pub usb_keep_alive_timer : ℕ
usb_keep_alive_timer = 5000

abbrev pub syncing_timeout : ℕ
syncing_timeout = 2000

abbrev pub dial_delay : ℕ
dial_delay = 1000

abbrev pub dialing_timeout : ℕ
dialing_timeout = 6000

abbrev pub ring_timeout : ℕ
ring_timeout = 8000

abbrev pub record_start_timeout : ℕ
record_start_timeout = 24000

unfoldable pub emit : Effect → Action
emit e fsm = some (record fsm { effects = fsm.effects ++ (e ∷ []) })

abbrev pub send_cmd_noparam : ℕ → Action
send_cmd_noparam req = emit (command req none)

-- `msg->data`, of `msg->data_size` bytes.
abbrev pub data_of : Option Bytes → Bytes
data_of none = []
data_of (some bs) = bs

-- `tpp_send_cmd(msg->what, msg->data, msg->data_size)`. What `write` takes does not change the buffers,
-- and neither does the time, except for the request that sets it.
unfoldable pub send_cmd : Msg → Action
send_cmd msg fsm = tpp_send_cmd (λ i. true) [] msg.what (data_of msg.payload) >>= λ sent.
    emit (command msg.what msg.payload) fsm

abbrev pub sendto_monitor : ℕ → Option Bytes → Action
sendto_monitor what payload = emit (notice what payload)

abbrev pub skip : Action
skip = some

-- `sprintf(num, "%s", data)`: the characters up to a zero byte, of which 127 at most fit.
unfoldable pub text_of : Bytes → Bytes
text_of [] = []
text_of (b ∷ bs) = let rest = text_of bs in if b == 0 then [] else b ∷ rest

unfoldable pub sprintf_num : Option Bytes → Option Bytes
sprintf_num none = none
sprintf_num (some bs) = if ltb (length (text_of bs)) 128 then some (text_of bs) else none

unfoldable pub set_incoming : Msg → Action
set_incoming msg fsm =
    sprintf_num msg.payload >>= λ num. some (record fsm { last_incoming_num = num })

-- A number is taken over only if the message carries one.
unfoldable pub set_outgoing : Msg → Action
set_outgoing msg fsm = elim msg.payload [
  | none ↦ some (record fsm { last_outgoing_num = [] })
  | some bs ↦ sprintf_num (some bs) >>= λ num. some (record fsm { last_outgoing_num = num })
]

-- `fsm->cur_state->id==UPIL_SM_OFFLINE`
abbrev pub is_offline : Fsm → Option Bool
is_offline fsm = fsm.cur_state >>= λ id. some (id == SmState.offline)

-- In any state but offline.
unfoldable pub process_online : Msg → Action
process_online msg =
    if msg.what == Ctl.usb_on
    then (do send_cmd_noparam Ctl.usb_on; send Ctl.usb_on none usb_keep_alive_timer)
    else if msg.what == Evt.usb_detach
    then sm_transition_to SmState.offline
    else skip

unfoldable pub default_process : Msg → Action
unfolding process_online
default_process msg fsm =
    is_offline fsm >>= λ offline. if offline then some fsm else process_online msg fsm
