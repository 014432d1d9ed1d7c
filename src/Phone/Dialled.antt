-- ===== src/Phone/Dialled.antt =====
-- upil_sm.c: the number to dial in the dialling state, down to the buffers of tp_protocol.c.
use upil.Common.{
  ℕ, List, Bool, ◌+◌, ◌*◌, ◌≤◌, ◌<◌, ◌≡◌, refl, ◌∙◌, inl, inr, none, some, true, Bool-cases, [],
  ◌∷◌, ◌++◌, length, arith, leb, ◌==◌, if◌then◌else◌,
}
use upil.Common.Memory.{Bytes}
use upil.Codes.Ctl
use upil.Codes.Evt
use upil.Codes.SmState
use upil.Tpp.CmdCode
use upil.Tpp.Defs.{Status, success, failure, zeros, buf_bytes, line_bytes, max_event_data}
use upil.Tpp.Send.{tp_pdu, make_cmd, tpp_send_cmd}
use upil.Tpp.Reassembly.{length-zeros}
use upil.Tpp.RoundTrip.{make_cmd-Made}
use upil.Tpp.Dial.{dial_codes}
use upil.Tpp.Sending.{
  NoZero, accepted_before, lines_from, write_lines-accepted_before, tpp_send_cmd-dial,
}
use upil.Handler.Defs.{Msg, sm_send_message_delay}
use upil.StateMachine.Defs.{command, Fsm, send, get_state, process_msg}
use upil.Phone.Defs.{emit, send_cmd}
use upil.Phone.Calling.{dialing_enter, dialing_process}
use upil.Phone.Table.{my_state_table}
use upil.Phone.Steps.{cur_of-some, process_msg_in, process_msg_in_faults}

-- A command of at most 57 parameter bytes is made, and its lines lie in the reply buffer.
cmd_lines :
    (id : ℕ) (param : Bytes)
    → length param ≤ 57
    → (made : Bytes × ℕ) × (make_cmd (zeros buf_bytes) id param ≡ some made)
      × ((0 + made.1) * line_bytes ≤ length made.0)
unfolding make_cmd tp_pdu
cmd_lines id param small =
    let m = make_cmd-Made (zeros buf_bytes) id param (length-zeros buf_bytes) small in
    let fits : leb (3 + length param) buf_bytes ≡ true = ground arith in
    (
      (m.out, 0 + m.n),
      rw fits m.runs,
      omega (arith, m.count, m.same_length, length-zeros buf_bytes),
    )

dial_sent :
    (accepts : ℕ → Bool) (now number : Bytes)
    → NoZero number
    → length number < max_event_data
    → leb (length (dial_codes number)) 56 ≡ true
    → (sent : List Bytes × Status) × (tpp_send_cmd accepts now Ctl.ask_dtmf_tx number ≡ some sent)
dial_sent accepts now number h short few =
    let (made, done, inside) =
      cmd_lines CmdCode.ask_dtmf_tx (0x64 ∷ dial_codes number) (ground (arith, few)) in
    let taken = accepted_before accepts made.1 0 in
    (
      (lines_from taken 0 made.0, if taken == made.1 then success else failure),
      tpp_send_cmd-dial accepts now number h short
          ∙ rw (few, done) (write_lines-accepted_before accepts made.1 0 made.0 inside),
    )

-- When the number to dial, of less than 512 characters, is processed in the dialling state: if at most
-- 56 of them have a code, it goes to the device as the message's command, and the message that ends
-- the dialling is sent with six seconds of delay; if there are more, a buffer is left.
pub process_msg-tpp_send_cmd :
    (id : ℕ) (number : Bytes) (fsm : Fsm)
    → fsm.cur_state ≡ some SmState.dialing
    → NoZero number
    → length number < max_event_data
    → process_msg my_state_table
        (record { id = id; what = Ctl.ask_dtmf_tx; payload = some number })
        fsm
      ≡ (if leb (length (dial_codes number)) 56
          then some (
            true,
            record fsm {
              handler = (sm_send_message_delay Evt.dial_end_check none 6000 fsm.handler).1;
              effects = fsm.effects ++ (command Ctl.ask_dtmf_tx (some number) ∷ []);
            },
          )
          else none)
unfolding my_state_table get_state dialing_process send_cmd emit send
process_msg-tpp_send_cmd id number fsm dialing h short =
    let msg : Msg = record { id = id; what = Ctl.ask_dtmf_tx; payload = some number } in
    let here = cur_of-some fsm SmState.dialing dialing in
    elim (Bool-cases (leb (length (dial_codes number)) 56)) [
      | inl few ↦
          let (sent, done) = dial_sent (λ i. true) [] number h short few in
          rw few (
            process_msg_in my_state_table SmState.dialing dialing_enter dialing_process msg fsm _
              here (rw done refl))
      | inr many ↦
          let over : tpp_send_cmd (λ i. true) [] Ctl.ask_dtmf_tx number ≡ none =
            tpp_send_cmd-dial (λ i. true) [] number h short ∙ rw many refl in
          rw many (
            process_msg_in_faults my_state_table SmState.dialing dialing_enter dialing_process msg
              fsm here (rw over refl))
    ]
