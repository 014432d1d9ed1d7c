-- ===== src/Phone/Calls.antt =====
-- upil_sm.c: what is sure of a call in each of its states.
use upil.Common.{
  ℕ, zero, suc, ◌<◌, ◌≡◌, refl, ap, ◌∙◌, true, false, ◌||◌, none, some, [], ◌∷◌, ◌++◌, arith, ltb,
  ◌==◌,
}
use upil.Codes.Ctl
use upil.Codes.Evt
use upil.Codes.Notice
use upil.Codes.SmState
use upil.Handler.Defs.{Msg, Handler, sm_send_message_delay}
use upil.Handler.Queue.{IsSound}
use upil.Handler.Others.{remove_message_id-others, others}
use upil.StateMachine.Defs.{
  notice, command, Fsm, Action, send, int_bytes, int_of, get_state, is_current, transition_to,
  process_msg, sm_remove_message_id,
}
use upil.Phone.Defs.{emit, default_process, process_online}
use upil.Phone.Waiting.{
  offline_enter, offline_process, syncing_enter, syncing_process, idle_enter, idle_process,
}
use upil.Phone.Calling.{
  is_hook_off, dialing_enter, dialing_process, incoming_enter, incoming_process, conversation_enter,
  conversation_process, memo_enter, memo_process,
}
use upil.Phone.Table.{state, my_state_table}
use upil.Phone.Steps.{
  left_as_is, transition_entered, process_msg_in, process_defer_msg_none, cur_of-some,
}

-- The four bytes that a transition carries are read back as the identifier that was asked for.
pub int_of-int_bytes : (n : ℕ) → n < 4294967296 → int_of (some (int_bytes n)) ≡ some n
unfolding int_of int_bytes
int_of-int_bytes n h = ap some (omega (arith, h))

-- When the machine goes offline, no message is left that would poll the device; every other message
-- stays in its place, and the monitor is told.
pub offline_enter-others :
    (fsm : Fsm)
    → IsSound fsm.handler
    → is_current SmState.offline fsm ≡ false
    → (fsm' : Fsm) × (transition_to my_state_table SmState.offline fsm ≡ some (true, fsm'))
      × (fsm'.handler.msg_queue ≡ others Ctl.usb_on fsm.handler.msg_queue)
      × (fsm'.cur_state ≡ some SmState.offline)
      × (fsm'.effects ≡ fsm.effects ++ (notice Notice.offline none ∷ []))
unfolding my_state_table get_state offline_enter sm_remove_message_id emit
offline_enter-others fsm s away =
    let r = remove_message_id-others Ctl.usb_on fsm.handler s in
    (
      _,
      transition_entered my_state_table SmState.offline SmState.offline offline_enter
          offline_process fsm _ away (left_as_is fsm) refl refl,
      ap Handler.msg_queue (process_defer_msg_none _ r.1) ∙ r.0,
      refl,
      refl,
    )

pub in_state :
    (id : ℕ) (enter : Action) (process : Msg → Action) (msg : Msg) (fsm fsm' : Fsm)
    → fsm.cur_state ≡ some id
    → get_state my_state_table id ≡ some (state id enter process)
    → process msg fsm ≡ some fsm'
    → process_msg my_state_table msg fsm ≡ some (true, fsm')
in_state id enter process msg fsm fsm' e g p =
    process_msg_in my_state_table id enter process msg fsm fsm' (cur_of-some fsm id e ∙ g) p

-- Ending a call while it is being dialled: in that state, the notices of the device that the
-- telephone was hung up, and its busy tone, are HANDLED without any change of the machine.
pub dialing_process_ignores :
    (msg : Msg) (fsm : Fsm)
    → fsm.cur_state ≡ some SmState.dialing
    → is_hook_off msg.what || msg.what == Evt.busy_on ≡ true
    → process_msg my_state_table msg fsm ≡ some (true, fsm)
unfolding my_state_table get_state dialing_process default_process process_online
dialing_process_ignores msg fsm e h =
    in_state SmState.dialing dialing_enter dialing_process msg fsm fsm e refl (ground (arith, h, e))

-- A state other than offline, whose processing of one message is that of `default_process`.
defaulted :
    (id : ℕ) (msg : Msg) (fsm : Fsm)
    → fsm.cur_state ≡ some id
    → ltb 0 id ≡ true
    → ltb id 7 ≡ true
    → msg.what == Ctl.usb_on || msg.what == Evt.usb_detach ≡ true
    → (fsm' : Fsm) → default_process msg fsm ≡ some fsm'
    → process_msg my_state_table msg fsm ≡ some (true, fsm')
unfolding my_state_table get_state syncing_process idle_process dialing_process incoming_process
    conversation_process memo_process
defaulted zero msg fsm e lo hi w fsm' d = absurd (ground (arith, lo))
defaulted (suc zero) msg fsm e lo hi w fsm' d =
    in_state 1 syncing_enter syncing_process msg fsm fsm' e refl (ground (arith, w, d))
defaulted (suc (suc zero)) msg fsm e lo hi w fsm' d =
    in_state 2 idle_enter idle_process msg fsm fsm' e refl (ground (arith, w, d))
defaulted (suc (suc (suc zero))) msg fsm e lo hi w fsm' d =
    in_state 3 dialing_enter dialing_process msg fsm fsm' e refl (ground (arith, w, d))
defaulted (suc (suc (suc (suc zero)))) msg fsm e lo hi w fsm' d =
    in_state 4 incoming_enter incoming_process msg fsm fsm' e refl (ground (arith, w, d))
defaulted (suc (suc (suc (suc (suc zero))))) msg fsm e lo hi w fsm' d =
    in_state 5 conversation_enter conversation_process msg fsm fsm' e refl (ground (arith, w, d))
defaulted (suc (suc (suc (suc (suc (suc zero)))))) msg fsm e lo hi w fsm' d =
    in_state 6 memo_enter memo_process msg fsm fsm' e refl (ground (arith, w, d))
defaulted (suc (suc (suc (suc (suc (suc (suc n))))))) msg fsm e lo hi w fsm' d =
    absurd (ground (arith, hi))

-- In every state but offline, the poll timer polls the device and is set again, for five seconds.
pub process_msg_polls :
    (id : ℕ) (msg : Msg) (fsm : Fsm)
    → fsm.cur_state ≡ some id
    → ltb 0 id ≡ true
    → ltb id 7 ≡ true
    → msg.what ≡ Ctl.usb_on
    → process_msg my_state_table msg fsm
      ≡ some (
        true,
        record fsm {
          handler = (sm_send_message_delay Ctl.usb_on none 5000 fsm.handler).1;
          effects = fsm.effects ++ (command Ctl.usb_on none ∷ []);
        },
      )
unfolding default_process process_online emit send
process_msg_polls id msg fsm e lo hi w =
    let off : id == SmState.offline ≡ false = ground (arith, lo) in
    let poll : msg.what == Ctl.usb_on ≡ true = ground (arith, w) in
    defaulted id msg fsm e lo hi (ground (arith, w)) _ (rw (e, off, poll) refl)

-- In every state but offline, a device that is unplugged makes the machine ask for that state.
pub process_msg_unplugged :
    (id : ℕ) (msg : Msg) (fsm : Fsm)
    → fsm.cur_state ≡ some id
    → ltb 0 id ≡ true
    → ltb id 7 ≡ true
    → msg.what ≡ Evt.usb_detach
    → process_msg my_state_table msg fsm
      ≡ some (
        true,
        record fsm {
          handler =
              (sm_send_message_delay Evt.sm_transition
                (some (int_bytes SmState.offline))
                0
                fsm.handler).1;
        },
      )
unfolding default_process process_online send
process_msg_unplugged id msg fsm e lo hi w =
    let off : id == SmState.offline ≡ false = ground (arith, lo) in
    let other : msg.what == Ctl.usb_on ≡ false = ground (arith, w) in
    let unplugged : msg.what == Evt.usb_detach ≡ true = ground (arith, w) in
    defaulted id msg fsm e lo hi (ground (arith, w)) _ (rw (e, off, other, unplugged) refl)
