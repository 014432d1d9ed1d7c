-- ===== src/Tpp/Receive.antt =====
-- tp_protocol.c, from the device: `check_tppdu`, `fsk_to_string`, `tppdu2event`, `hidpdu2event`
-- and `tpp_recv_event_cb`. `none` is an access outside a buffer.
use upil.Common.{
  ℕ, zero, suc, ◌+◌, ◌/◌, ◌%◌, Bool, not, ◌&&◌, ◌||◌, Option, none, some, [], ◌∷◌, ◌++◌, length,
  get_or, drop, set, ltb, leb, ◌==◌, if◌then◌else◌,
}
use upil.Common.Memory.{Bytes, ◌>>=◌, read_n, write_n}
use upil.Codes.Evt
use upil.Tpp.Defs.{
  TppEvt, Verdict, bad, partial, complete, Status, success, failure, Assembly, Receiver, zeros,
  tp_flag, hid_flag, line_bytes,
}
use upil.Tpp.EvtCode

unfoldable pub check_tppdu : Bytes → ℕ → Verdict
check_tppdu pdu tp_size =
    if leb tp_size 0
    then partial
    else if not (get_or pdu 0 0 == tp_flag)
    then bad
    else if ltb tp_size 2
    then partial
    else if get_or pdu 1 0 + 2 == tp_size
    then complete
    else if ltb tp_size (get_or pdu 1 0 + 2)
    then partial
    else bad

-- `n == 0x0F || n > 9`: the nibble ends the number.
unfoldable pub is_end : ℕ → Bool
is_end n = n == 15 || ltb 9 n

-- The loop of `fsk_to_string` over the bytes from `cid` to the end of the buffer.
unfoldable pub fsk_to_string : Bytes → Option Bytes
unfolding is_end
fsk_to_string [] = none
fsk_to_string (b ∷ bs) =
    let rest = fsk_to_string bs in
    let hi = b / 16 % 16 in
    let lo = b % 16 in
    if is_end hi
    then some []
    else if is_end lo
    then some ((b'0' + hi) ∷ [])
    else (rest >>= λ ds. some ((b'0' + hi) ∷ (b'0' + lo) ∷ ds))

-- `event->id = id` with no data, and with the first `n` bytes of `param`.
abbrev pub bare : ℕ → Option TppEvt
bare id = some (record { id = id; data_size = 0; payload = [] })

abbrev pub with_param : Bytes → ℕ → ℕ → Option TppEvt
with_param pdu id n = do ps ← read_n pdu 3 n; some (record { id = id; data_size = n; payload = ps })

-- `cmd` is one of two codes, or of four.
abbrev either : ℕ → ℕ → ℕ → Bool
either c a b = c == a || c == b

abbrev among : ℕ → ℕ → ℕ → ℕ → ℕ → Bool
among c a b d e = either c a b || either c d e

-- the case TPP_EVT_FSK_RX: `param` starts at byte 3 and its field `cid` at byte 6 of that
abbrev pub caller_id : Bytes → Option TppEvt
caller_id pdu = do
  ds ← fsk_to_string (drop 9 pdu)
  some (record { id = Evt.call_id; data_size = length ds % 256; payload = ds })

-- The switch of `tppdu2event`, on the code `cmd`.
unfoldable pub event_of : ℕ → Bytes → Option TppEvt
event_of cmd pdu =
    if among cmd EvtCode.evt_hook_on EvtCode.evt_hks_on EvtCode.evt_parallel_on
      EvtCode.evt_voip_phone_hook_on
    then bare Evt.hfree_hook_on
    else if among cmd EvtCode.evt_hook_off EvtCode.evt_hks_off EvtCode.evt_parallel_off
        EvtCode.evt_voip_phone_hook_off
    then bare Evt.hfree_hook_off
    else if cmd == EvtCode.evt_busy_on
    then bare Evt.busy_on
    else if cmd == EvtCode.evt_history_finished
    then bare Evt.history_finished
    else if cmd == EvtCode.msg_dtmf_tx_finished
    then bare Evt.dial_end
    else if cmd == EvtCode.msg_phone_state
    then with_param pdu Evt.phone_state 1
    else if cmd == EvtCode.evt_redial_on
    then with_param pdu Evt.redial 1
    else if cmd == EvtCode.evt_key_down
    then with_param pdu Evt.key_down 1
    else if cmd == EvtCode.evt_parallel_dtmf_rx
    then with_param pdu Evt.paral_dtmf 1
    else if either cmd EvtCode.evt_icm_dtmf_rx EvtCode.evt_dtmf_rx
    then with_param pdu Evt.sec_dtmf_rx ((get_or pdu 1 0 + 255) % 256)
    else if cmd == EvtCode.evt_dialed_tx
    then with_param pdu Evt.dialed_tx 1
    else if cmd == EvtCode.msg_hardware_inf
    then with_param pdu Evt.msg_hw_type 1
    else if cmd == EvtCode.msg_sn
    then with_param pdu Evt.msg_serial 8
    else if cmd == EvtCode.msg_manufacturer_inf
    then with_param pdu Evt.msg_vendor 8
    else if cmd == EvtCode.msg_version
    then with_param pdu Evt.msg_vendor 1
    else if cmd == EvtCode.evt_ring
    then bare Evt.ring
    else if cmd == EvtCode.evt_fsk_rx
    then caller_id pdu
    else bare Evt.unknown

unfoldable pub tppdu2event : Bytes → Option TppEvt
tppdu2event pdu = event_of (get_or pdu 2 0) pdu

-- What follows `check_tppdu` in `hidpdu2event`; the caller always passes an event to fill.
unfoldable pub judged : Verdict → Assembly → Option (Verdict × Assembly × Option TppEvt)
judged complete a = do e ← tppdu2event a.buf; some (complete, a, some e)
judged v a = some (v, a, none)

-- `frame` is the receive buffer from the frame's first byte on; `a` is `reply` with `*tp_index`.
unfoldable pub hidpdu2event : Bytes → Assembly → Option (Verdict × Assembly × Option TppEvt)
unfolding judged
hidpdu2event frame a =
    let size = get_or frame 1 0 in
    if get_or frame 0 0 == hid_flag
    then (do
      chunk ← read_n frame 2 size
      buf ← write_n a.buf a.offset chunk
      let a' = record a { buf = buf; offset = a.offset + size }
      if ltb 0 size then judged (check_tppdu buf a'.offset) a' else some (partial, a', none))
    else some (bad, a, none)

-- `memset(s_pdu_buf, 0, s_pdu_offset); s_pdu_offset = 0;`
unfoldable pub cleared : Assembly → Option Assembly
cleared a = do buf ← write_n a.buf 0 (zeros a.offset); some (record a { buf = buf; offset = 0 })

-- `pbuf[0]==0x03 && (pbuf[1]&0x80)==0x80`: the device confirms a command.
unfoldable pub is_ack : Bytes → Bool
is_ack frame = get_or frame 0 0 == 0x03 && get_or frame 1 0 / 128 % 2 == 1

-- `if (ret) { … }` of the loop: an event is sent, and the assembly starts again.
unfoldable pub settled : Verdict × Assembly × Option TppEvt → Receiver → Option Receiver
settled (partial, a, e) r = some (record r { assembly = a })
settled (bad, a, e) r = do a' ← cleared a; some (record r { assembly = a' })
settled (complete, a, none) r = do a' ← cleared a; some (record r { assembly = a' })
settled (complete, a, some e) r = do
  a' ← cleared a
  some (record r { assembly = a'; sent = r.sent ++ (e ∷ []) })

-- One frame, at `pos` in `buf`: a confirmation wakes the sender and masks `buf[1]`.
unfoldable pub recv_frame : Bytes → ℕ → Receiver → Option (Bytes × Receiver)
recv_frame buf pos r =
    if is_ack (drop pos buf)
    then (do
      a ← cleared r.assembly
      let buf' = set buf 1 (get_or buf 1 0 % 64)
      v ← hidpdu2event (drop pos buf') a
      r' ← settled v (record r { assembly = a; acks = r.acks + 1 })
      some (buf', r'))
    else (do v ← hidpdu2event (drop pos buf) r.assembly; r' ← settled v r; some (buf, r'))

-- `while (r_bytes >= HIDPDU_LINE_BYTES)`, by the number of rounds, `r_bytes / 8`.
unfoldable pub recv_loop : ℕ → Bytes → ℕ → Receiver → Option Receiver
recv_loop zero buf pos r = some r
recv_loop (suc n) buf pos r =
    recv_frame buf pos r >>= λ (buf', r'). recv_loop n buf' (pos + line_bytes) r'

-- `got` is what `read` returned, `none` for a negative value; `buf` is the buffer it filled.
unfoldable pub tpp_recv_event_cb : Option ℕ → Bytes → Receiver → Option (Status × Receiver)
tpp_recv_event_cb none buf r = some (failure, r)
tpp_recv_event_cb (some r_bytes) buf r = do
  r' ← recv_loop (r_bytes / line_bytes) buf 0 r
  some (success, r')
