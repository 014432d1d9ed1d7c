-- ===== src/Tests/Clients.antt =====
-- upil_command.c, upil_monitor.c and a whole dialling of upil_sm.c at the number 12.
use upil.Common.{
  ℕ, ◌+◌, ◌≡◌, refl, true, none, some, [], ◌∷◌, ◌++◌, arith, if◌then◌else◌, leb, length,
}
use upil.Common.Memory.{Bytes}
use upil.Codes.Ctl
use upil.Codes.Evt
use upil.Codes.Notice
use upil.Codes.SmState
use upil.Handler.Defs.{Msg, sm_send_message_delay}
use upil.Handler.Queue.{IsSound}
use upil.StateMachine.Defs.{command, notice, audio_start, Fsm, transition_to, process_msg}
use upil.Phone.Table.{my_state_table}
use upil.Phone.Dialled.{process_msg-tpp_send_cmd}
use upil.Tpp.Dial.{dial_codes}
use upil.Phone.Dialling.{numbered, dialing_enter-idle_process}
use upil.Control.Commands.{ctrl_dial, process_command}
use upil.Control.Replies.{IsServed, process_command-IsServed}
use upil.Tests.Events.{handler, handler-IsSound}

abbrev number : Bytes
number = b'1' ∷ b'2' ∷ []

abbrev phone : Fsm
phone = record {
  handler = handler;
  cur_state = some SmState.idle;
  last_incoming_num = [];
  last_outgoing_num = [];
  ring_count = 0;
  effects = [];
}

abbrev off_hook : Msg
off_hook = record { id = 5; what = Ctl.handfree_on; payload = some number }

dialing_enter-idle_process_example :
    let f1 = numbered number phone in
    let sent = sm_send_message_delay Ctl.ask_dtmf_tx (some number) 1000 handler in
    (process_msg my_state_table off_hook phone ≡ some (true, f1))
    × ((f2 : Fsm) × (transition_to my_state_table SmState.dialing f1 ≡ some (true, f2))
        × (f2.handler ≡ sent.1)
        × IsSound f2.handler
        × (f2.effects ≡ (f1.effects ++ (notice Notice.dialing none ∷ [])) ++ (audio_start ∷ [])))
dialing_enter-idle_process_example =
    dialing_enter-idle_process off_hook b'1' (b'2' ∷ []) phone handler-IsSound refl refl refl
      (omega arith, (omega arith, tt)) (omega arith)

process_msg-tpp_send_cmd_example :
    let phone' = record phone { cur_state = some SmState.dialing } in
    process_msg my_state_table
      (record { id = 6; what = Ctl.ask_dtmf_tx; payload = some number })
      phone'
    ≡ (if leb (length (dial_codes number)) 56
        then some (
          true,
          record phone' {
            handler = (sm_send_message_delay Evt.dial_end_check none 6000 phone'.handler).1;
            effects = phone'.effects ++ (command Ctl.ask_dtmf_tx (some number) ∷ []);
          },
        )
        else none)
process_msg-tpp_send_cmd_example =
    process_msg-tpp_send_cmd 6 number (record phone { cur_state = some SmState.dialing }) refl
      (omega arith, (omega arith, tt)) (omega arith)

-- Digits as `asprintf` would make them of a number below ten.
abbrev digit : ℕ → Bytes
digit n = (b'0' + n) ∷ []

process_command-IsServed_example :
    IsServed phone (process_command digit (ctrl_dial ++ number) phone)
process_command-IsServed_example =
    process_command-IsServed digit (ctrl_dial ++ number) phone handler-IsSound

abbrev state_idle : Bytes
state_idle = b'T' ∷ b'A' ∷ b'T' ∷ b'E' ∷ b' ' ∷ b'I' ∷ b'D' ∷ b'L' ∷ b'E' ∷ []
