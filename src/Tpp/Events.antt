-- ===== src/Tpp/Events.antt =====
-- The events that `tppdu2event` makes.
use upil.Common.{
  ℕ, ◌+◌, ◌%◌, ◌≤◌, ◌≡◌, ◌≢◌, Option, none, some, length, drop, get_or, length-take, length-drop,
  arith,
}
use upil.Common.Memory.{Bytes, read_n}
use upil.Codes.Evt
use upil.Tpp.Defs.{TppEvt, buf_bytes}
use upil.Tpp.EvtCode
use upil.Tpp.Receive.{with_param, event_of, tppdu2event}

-- The code made an event, with as many bytes of data as it says, 77 at most.
abbrev pub IsSound : Option TppEvt → Type 0
IsSound none = ⊥
IsSound (some e) = (length e.payload ≡ e.data_size) × (e.data_size ≤ 77)

with_param-IsSound :
    (pdu : Bytes) (id n : ℕ) → length pdu ≡ buf_bytes → n ≤ 77 → IsSound (with_param pdu id n)
unfolding read_n
with_param-IsSound pdu id n h k = ground (arith, length-take n (drop 3 pdu), length-drop 3 pdu)

-- On a PDU of the buffer's 80 bytes that has a command byte and is no caller identification, no
-- byte outside the buffer is read, and the event has as many bytes of data as it says, 77 at most.
pub tppdu2event-IsSound :
    (pdu : Bytes)
    → length pdu ≡ buf_bytes
    → 1 ≤ get_or pdu 1 0
    → get_or pdu 1 0 ≤ 78
    → get_or pdu 2 0 ≢ EvtCode.evt_fsk_rx
    → IsSound (tppdu2event pdu)
unfolding tppdu2event event_of
tppdu2event-IsSound pdu h a b c = ground (
  arith,
  with_param-IsSound pdu Evt.phone_state 1 h,
  with_param-IsSound pdu Evt.redial 1 h,
  with_param-IsSound pdu Evt.key_down 1 h,
  with_param-IsSound pdu Evt.paral_dtmf 1 h,
  with_param-IsSound pdu Evt.sec_dtmf_rx ((get_or pdu 1 0 + 255) % 256) h,
  with_param-IsSound pdu Evt.dialed_tx 1 h,
  with_param-IsSound pdu Evt.msg_hw_type 1 h,
  with_param-IsSound pdu Evt.msg_serial 8 h,
  with_param-IsSound pdu Evt.msg_vendor 8 h,
  with_param-IsSound pdu Evt.msg_vendor 1 h,
)
