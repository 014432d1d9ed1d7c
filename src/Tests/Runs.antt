-- ===== src/Tests/Runs.antt =====
-- A telephone that was started, and a message that it was sent: upil_sm.c and its surroundings.
use upil.Common.{List, ◌+◌, ◌≡◌, refl, true, none, some, [], ◌∷◌, arith}
use upil.Common.Memory.{Bytes, same_text}
use upil.Client.Terminal.{Shown, exit_word, help_word, command_loop}
use upil.Client.Typed.{telephone, command_loop-typed}
use upil.Codes.Evt
use upil.Codes.Notice
use upil.Codes.SmState
use upil.Handler.Defs.{
  Msg, start_handler, remove_message_id, remove_ids, process_defer_msg, process_defers,
}
use upil.StateMachine.Defs.{
  Fsm, notice, transition_to, is_current, get_state, cur_of, sm_remove_message_id,
}
use upil.Phone.Defs.{emit, text_of}
use upil.Phone.Table.{my_state_table, state}
use upil.Phone.Waiting.{offline_enter}
use upil.Phone.Reached.{Reachable, started}
use upil.Phone.Live.{Live}
use upil.Control.Commands.{upil_sm_send_msg, ctrl_hangup}
use upil.Tests.Events.{loop, handler}
use upil.Tests.Start.{machine}
use upil.Tpp.EvtCode

-- Started, with nothing queued.
abbrev pub begun_phone : Fsm
begun_phone = record machine {
  handler = record handler { msg_queue = []; msg_count = 0 };
  cur_state = some SmState.offline;
  effects = notice Notice.offline none ∷ [];
}

pub begun_phone-Reachable : Reachable begun_phone
unfolding transition_to is_current get_state cur_of my_state_table state offline_enter
    sm_remove_message_id remove_message_id remove_ids emit process_defer_msg process_defers
    start_handler
begun_phone-Reachable = started loop machine begun_phone true (omega arith) refl

-- A ring, as it is queued.
abbrev ring : Msg
ring = record { id = 2; what = Evt.ring; payload = none }

abbrev rung_phone : Fsm
rung_phone = (upil_sm_send_msg Evt.ring none begun_phone).1

-- A PDU that tells of a ring.
abbrev ring_pdu : Bytes
ring_pdu = 0xff ∷ 1 ∷ EvtCode.evt_ring ∷ []

-- A terminal's lines: help, a command with an empty line behind it, and the end.
abbrev terminal_lines : List Bytes
terminal_lines = help_word ∷ ctrl_hangup ∷ [] ∷ exit_word ∷ ctrl_hangup ∷ []

command_loop-typed_example :
    (shown' : List Shown) × (fsm' : Fsm) × (command_loop
        (telephone (λ n. (b'0' + n) ∷ []) (λ f. f))
        terminal_lines
        (begun_phone, [])
        []
      ≡ some (shown', (fsm', ctrl_hangup ∷ [])))
    × Reachable fsm'
unfolding same_text text_of
command_loop-typed_example =
    command_loop-typed (λ n. (b'0' + n) ∷ []) (λ f. f) terminal_lines begun_phone [] [] (λ f r. r)
      refl begun_phone-Reachable
