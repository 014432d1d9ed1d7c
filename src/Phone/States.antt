-- ===== src/Phone/States.antt =====
-- upil_sm.c: what entering a state, and processing a message in it, does to any machine.
use upil.Common.{◌≡◌, ap, true, false, none, arith, ◌==◌}
use upil.Common.Memory.{◌>>=◌}
use upil.Codes.Ctl
use upil.Codes.Evt
use upil.Codes.SmState
use upil.StateMachine.Defs.{Fsm, send}
use upil.Phone.Defs.{dialing_timeout}
use upil.Handler.Defs.{Msg}
use upil.Phone.Waiting.{
  offline_enter, offline_process, syncing_enter, syncing_process, idle_enter, idle_process,
}
use upil.Phone.Calling.{
  dialing_enter, dialing_process, incoming_enter, incoming_process, conversation_enter,
  conversation_process, memo_enter, memo_process,
}
use upil.Phone.Keeps.{
  Keeps, fits, overflows_in, Keeps-send_cmd, send_cmd_faults, Keeps-then, Keeps-if, Keeps-emit,
  Keeps-send, Keeps-remove, Keeps-incoming, Keeps-if_call, Keeps-outgoing, Keeps-forget, Keeps-ring,
  Keeps-default, Keeps-dial_later, steps,
}

pub offline_process-Keeps : (msg : Msg) → Keeps (offline_process msg)
unfolding offline_process
offline_process-Keeps msg = search (Keeps-if, Keeps-default, steps)

pub memo_process-Keeps : (msg : Msg) → Keeps (memo_process msg)
unfolding memo_process
memo_process-Keeps msg = search (Keeps-if, Keeps-default, steps) depth 12

pub syncing_process-Keeps : (msg : Msg) → Keeps (syncing_process msg)
unfolding syncing_process
syncing_process-Keeps msg = search (Keeps-if, Keeps-default, steps) depth 12

pub idle_process-Keeps : (msg : Msg) → fits msg ≡ true → Keeps (idle_process msg)
unfolding idle_process
idle_process-Keeps msg f = Keeps-if _ (Keeps-then (Keeps-outgoing msg f) (Keeps-emit _)) (
    Keeps-if _ (Keeps-send _ _ _) (
      Keeps-if_call _ (λ call. Keeps-then (Keeps-incoming msg f call) (search (steps)))
        (search (Keeps-if, Keeps-default, Keeps-ring))))

pub dialing_process-Keeps :
    (msg : Msg) → overflows_in SmState.dialing msg ≡ false → Keeps (dialing_process msg)
unfolding dialing_process overflows_in
dialing_process-Keeps msg fit =
    Keeps-if_call (msg.what == Ctl.ask_dtmf_tx)
      (λ number. Keeps-then (Keeps-send_cmd msg (ground (arith, fit, number))) (Keeps-send _ _ _))
      (search (Keeps-if, Keeps-default, steps) depth 12)

-- A number that does not fit.
pub dialing_process_faults :
    (msg : Msg) (fsm : Fsm)
    → overflows_in SmState.dialing msg ≡ true
    → dialing_process msg fsm ≡ none
unfolding dialing_process overflows_in
dialing_process_faults msg fsm over =
    let number : msg.what == Ctl.ask_dtmf_tx ≡ true = ground (arith, over) in
    rw number (
      ap (λ m. m >>= send Evt.dial_end_check none dialing_timeout)
        (send_cmd_faults msg fsm (ground (arith, over))))

pub incoming_process-Keeps : (msg : Msg) → fits msg ≡ true → Keeps (incoming_process msg)
unfolding incoming_process
incoming_process-Keeps msg f = Keeps-if _ (Keeps-emit _) (
    Keeps-if _ (Keeps-send _ _ _) (
      Keeps-if _ (Keeps-then (Keeps-emit _) (Keeps-then (Keeps-remove _) (Keeps-send _ _ _))) (
        Keeps-if_call _ (λ call. Keeps-then (Keeps-incoming msg f call) (Keeps-emit _))
          (search (Keeps-if, Keeps-default, steps)))))

pub conversation_process-Keeps : (msg : Msg) → Keeps (conversation_process msg)
unfolding conversation_process
conversation_process-Keeps msg = search (Keeps-if, Keeps-default, steps) depth 12

pub offline_enter-Keeps : Keeps offline_enter
unfolding offline_enter
offline_enter-Keeps = search (steps) depth 12

pub syncing_enter-Keeps : Keeps syncing_enter
unfolding syncing_enter
syncing_enter-Keeps = search (steps) depth 16

pub idle_enter-Keeps : Keeps idle_enter
unfolding idle_enter
idle_enter-Keeps = search (Keeps-forget, steps) depth 12

pub dialing_enter-Keeps : Keeps dialing_enter
unfolding dialing_enter
dialing_enter-Keeps = search (Keeps-dial_later, steps) depth 12

pub incoming_enter-Keeps : Keeps incoming_enter
unfolding incoming_enter
incoming_enter-Keeps = search (steps) depth 12

pub conversation_enter-Keeps : Keeps conversation_enter
unfolding conversation_enter
conversation_enter-Keeps = search (steps) depth 12

pub memo_enter-Keeps : Keeps memo_enter
unfolding memo_enter
memo_enter-Keeps = search (steps) depth 12
