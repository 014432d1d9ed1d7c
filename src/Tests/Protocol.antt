-- ===== src/Tests/Protocol.antt =====
-- tp_protocol.c at concrete frames, commands and numbers.
use upil.Common.{
  ◌+◌, ◌/◌, ◌≡◌, refl, none, some, [], ◌∷◌, ◌++◌, true, length, arith, leb, ltb, if◌then◌else◌,
}
use upil.Common.Memory.{Bytes, ◌>>=◌, read_n, write_n}
use upil.Codes.Ctl
use upil.Codes.Evt
use upil.Tpp.EvtCode
use upil.Tpp.CmdCode
use upil.Tpp.Defs.{TppEvt, success, Receiver, zeros, buf_bytes}
use upil.Tpp.Receive.{
  fsk_to_string, event_of, tppdu2event, check_tppdu, hidpdu2event, judged, settled, is_ack,
  recv_frame, recv_loop, tpp_recv_event_cb, is_end,
}
use upil.Tpp.Send.{make_cmd, make_dial_param, write_lines, tpp_send_cmd}
use upil.Tpp.Reassembly.{empty, taking}
use upil.Tpp.RoundTrip.{recv_loop-make_cmd}
use upil.Tpp.Safety.{IsReady, empty-IsReady, tpp_recv_event_cb-IsReady, recv_frame-is_ack_later}
use upil.Tpp.CallerId.{nibbles, digits_before, in_ascii, fsk_to_string-digits_before}
use upil.Tpp.Dial.{dial_codes, make_dial_param_lem}
use upil.Tpp.Events.{IsSound, tppdu2event-IsSound}
use upil.Tpp.Sending.{tpp_send_cmd-dial}

-- The number 12*.
abbrev number : Bytes
number = b'1' ∷ b'2' ∷ b'*' ∷ []

-- Bytes that fill more than one line.
abbrev serial : Bytes
serial = 1 ∷ 2 ∷ 3 ∷ 4 ∷ 5 ∷ 6 ∷ 7 ∷ 8 ∷ []

abbrev serial_evt : TppEvt
serial_evt = record { id = Evt.msg_serial; data_size = 8; payload = serial }

abbrev waiting : Receiver
waiting = record { assembly = empty 80; acks = 0; sent = [] }

recv_loop-make_cmd_example :
    (lines : Bytes) × (make_cmd (zeros 80) EvtCode.msg_sn serial
      ≡ some (lines, (length serial + 8) / 6))
    × (length lines ≡ buf_bytes)
    × (recv_loop ((length serial + 8) / 6) lines 0 (taking [] buf_bytes 0 [])
        ≡ some (taking [] buf_bytes 0 ([] ++ (serial_evt ∷ []))))
unfolding zeros tppdu2event event_of read_n
recv_loop-make_cmd_example =
    recv_loop-make_cmd (zeros 80) EvtCode.msg_sn serial 0 [] serial_evt refl (omega arith) refl

-- A frame with the bytes 1, 2 and 3.
abbrev frame : Bytes
frame = 3 ∷ 3 ∷ 0xff ∷ 2 ∷ 0x11 ∷ 5 ∷ 6 ∷ 7 ∷ []

abbrev after_frame : Receiver
after_frame = record {
  assembly = record { buf = 0xff ∷ 2 ∷ 0x11 ∷ zeros 77; offset = 3 };
  acks = 0;
  sent = [];
}

tpp_recv_event_cb-IsReady_example : IsReady after_frame.assembly
unfolding zeros tpp_recv_event_cb recv_loop recv_frame is_ack hidpdu2event judged check_tppdu
    settled read_n write_n
tpp_recv_event_cb-IsReady_example =
    tpp_recv_event_cb-IsReady (some 8) frame waiting after_frame success empty-IsReady refl

-- Two confirmations in one read.
abbrev two_acks : Bytes
two_acks =
    3 ∷ 0x80 ∷ 0xff ∷ 3 ∷ 0x11 ∷ 0x64 ∷ 8 ∷ 7 ∷ 3 ∷ 0x80 ∷ 0xff ∷ 3 ∷ 0x11 ∷ 0x64 ∷ 8 ∷ 7 ∷ []

recv_frame-is_ack_later_example : recv_frame two_acks 8 waiting ≡ none
unfolding zeros is_ack
recv_frame-is_ack_later_example = recv_frame-is_ack_later two_acks 8 waiting refl (omega arith) refl

fsk_to_string-digits_before_example :
    fsk_to_string (0x13 ∷ 0x8f ∷ [])
    ≡ (digits_before (nibbles (0x13 ∷ 0x8f ∷ [])) >>= λ ds. some (in_ascii ds))
fsk_to_string-digits_before_example = fsk_to_string-digits_before (0x13 ∷ 0x8f ∷ [])

-- The caller's number 138 is read out of its nibbles.
fsk_to_string_138 : fsk_to_string (0x13 ∷ 0x8f ∷ []) ≡ some (b'1' ∷ b'3' ∷ b'8' ∷ [])
unfolding fsk_to_string is_end
fsk_to_string_138 = refl

make_dial_param_example :
    make_dial_param 0x64 number
    ≡ (if ltb (length (dial_codes number)) buf_bytes then some (0x64 ∷ dial_codes number) else none)
make_dial_param_example = make_dial_param_lem 0x64 number

-- A telephone event with its PDU in the buffer.
abbrev ringing : Bytes
ringing = 0xff ∷ 1 ∷ EvtCode.evt_ring ∷ zeros 77

tppdu2event-IsSound_example : IsSound (tppdu2event ringing)
unfolding zeros
tppdu2event-IsSound_example =
    tppdu2event-IsSound ringing refl (omega arith) (omega arith) (omega arith)

tpp_send_cmd-dial_example : tpp_send_cmd (λ i. true) [] Ctl.ask_dtmf_tx number ≡ (
    (if leb (length (dial_codes number)) 56
      then make_cmd (zeros buf_bytes) CmdCode.ask_dtmf_tx (0x64 ∷ dial_codes number)
      else none)
    >>= λ made. write_lines (λ i. true) made.1 0 made.0)
tpp_send_cmd-dial_example =
    tpp_send_cmd-dial (λ i. true) [] number (omega arith, (omega arith, (omega arith, tt)))
      (omega arith)
