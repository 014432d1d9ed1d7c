-- ===== src/Tpp/Send.antt =====
-- tp_protocol.c, to the device: `make_cmd`, `make_dial_param`, `request2pdu` and `tpp_send_cmd`.
-- `none` is an access outside a buffer.
use upil.Common.{
  ℕ, zero, suc, ◌+◌, ◌-◌, ◌*◌, ◌%◌, Bool, ◌&&◌, Option, none, some, List, [], ◌∷◌, ◌++◌, length,
  take, drop, ltb, leb, ◌==◌, if◌then◌else◌, min,
}
use upil.Common.Memory.{Bytes, ◌>>=◌, read_n, write_n}
use upil.Codes.Ctl
use upil.Tpp.CmdCode
use upil.Tpp.Defs.{
  Status, success, failure, zeros, tp_flag, line_bytes, chunk_bytes, buf_bytes, max_event_data,
}

-- One HID line: `TPP_HIDPDU_INIT`, then the size and the bytes of a piece of the PDU.
unfoldable pub hid_line : Bytes → Bytes
hid_line chunk = 0x03 ∷ length chunk ∷ (chunk ++ drop (length chunk) (2 ∷ 3 ∷ 4 ∷ 5 ∷ 6 ∷ 7 ∷ []))

-- The TP PDU in the local `pdu`, of `buf_bytes` bytes; `cmd_size` and `cmd` are bytes.
unfoldable pub tp_pdu : ℕ → Bytes → Option Bytes
tp_pdu id param =
    if leb (3 + length param) buf_bytes
    then some (tp_flag ∷ (1 + length param) % 256 ∷ id % 256 ∷ param)
    else none

-- `while (tppdu_size>0)`: `left` is what `data` and `tppdu_size` have yet to send, `off` is
-- `reply` as an offset. Every round sends a byte, so `length left` rounds are enough.
unfoldable pub make_lines : ℕ → Bytes → ℕ → Bytes → ℕ → Option (Bytes × ℕ)
make_lines fuel reply off [] line = some (reply, line)
make_lines zero reply off (b ∷ left) line = none
make_lines (suc fuel) reply off (b ∷ left) line =
    let len = min chunk_bytes (length (b ∷ left)) in
    write_n reply off (hid_line (take len (b ∷ left))) >>= λ reply'.
    make_lines fuel reply' (off + line_bytes) (drop len (b ∷ left)) (line + 1)

-- The new contents of `reply` and the number of lines; `param_s` is `length param`.
unfoldable pub make_cmd : Bytes → ℕ → Bytes → Option (Bytes × ℕ)
make_cmd reply id param = do pdu ← tp_pdu id param; make_lines (length pdu) reply 0 pdu 0

-- The code of one character of a number to dial.
unfoldable pub dial_code : ℕ → Option ℕ
dial_code c =
    if c == b'*'
    then some 0x0a
    else if c == b'#'
    then some 0x0b
    else if c == b'P'
    then some 0x0c
    else if c == b'B'
    then some 0x0d
    else if c == b'C'
    then some 0x0e
    else if leb b'0' c && leb c b'9'
    then some (c - b'0')
    else none

-- `reply[result++] = x`: `out` is what `reply`, of `buf_bytes` bytes, holds up to `result`.
unfoldable pub put : Bytes → ℕ → Option Bytes
put out x = if ltb (length out) buf_bytes then some (out ++ (x ∷ [])) else none

-- `while (number[i])`: a character with no code is passed over.
unfoldable pub dial_loop : Bytes → Bytes → Option Bytes
dial_loop out [] = some out
dial_loop out (c ∷ number) = elim (dial_code c) [
  | none ↦ dial_loop out number
  | some x ↦ put out x >>= λ out'. dial_loop out' number
]

-- The bytes of `reply` up to `result`, which is the value returned.
unfoldable pub make_dial_param : ℕ → Bytes → Option Bytes
make_dial_param speed number = do out ← put [] speed; dial_loop out number

-- A C string: the bytes up to the first zero.
unfoldable pub c_string : Bytes → Option Bytes
c_string [] = none
c_string (b ∷ bs) =
    let rest = c_string bs in if b == 0 then some [] else (rest >>= λ s. some (b ∷ s))

-- `TPP_CMD_ONEBYTE`
unfoldable pub one_byte : Bytes → ℕ → Option (Bytes × ℕ)
one_byte reply cmd = do
  reply' ← write_n reply 0 (0x03 ∷ 0x03 ∷ 0xff ∷ 0x01 ∷ cmd ∷ 0x05 ∷ 0x06 ∷ 0x07 ∷ [])
  some (reply', 1)

pub record TppReq : Type 0 where
  pub id : ℕ
  pub data_size : ℕ
  pub payload : Bytes

-- The requests that are sent as one fixed line, with their command.
unfoldable pub plain_cmd : ℕ → Option ℕ
plain_cmd id =
    if id == Ctl.usb_on
    then some CmdCode.ctl_usb_run
    else if id == Ctl.handfree_on
    then some CmdCode.ctl_pchook_on
    else if id == Ctl.handfree_off
    then some CmdCode.ctl_pchook_off
    else if id == Ctl.ask_hardware_inf
    then some CmdCode.ask_hardware_inf
    else if id == Ctl.ask_phone_state
    then some CmdCode.ask_phone_state
    else if id == Ctl.ask_read_sn
    then some CmdCode.ask_read_sn
    else if id == Ctl.ask_get_version
    then some CmdCode.ask_get_version
    else if id == Ctl.ask_record_up
    then some CmdCode.ask_record
    else if id == Ctl.ringer_off
    then some CmdCode.ctl_ringer_off
    else if id == Ctl.record_line_play_on
    then some CmdCode.ctl_record_line_play_on
    else if id == Ctl.record_line_play_off
    then some CmdCode.ctl_record_line_play_off
    else if id == Ctl.ask_busy_tone
    then some CmdCode.ctl_busy_tone
    else none

-- The case UPIL_CTL_SET_TIME; `now` is what `localtime` gives, as the six bytes of `data`.
unfoldable pub set_time : Bytes → Bytes → TppReq → Option (Bytes × ℕ)
set_time now reply r =
    if r.data_size == 0
    then make_cmd reply CmdCode.ctl_set_time now
    else (read_n r.payload 0 r.data_size >>= make_cmd reply CmdCode.ctl_set_time)

-- The case UPIL_ASK_DTMF_TX.
unfoldable pub dtmf_tx : Bytes → TppReq → Option (Bytes × ℕ)
dtmf_tx reply r = do
  number ← c_string r.payload
  param ← make_dial_param 0x64 number
  if ltb 0 (length param) then make_cmd reply CmdCode.ask_dtmf_tx param else some (reply, 0)

unfoldable pub request2pdu : Bytes → Bytes → TppReq → Option (Bytes × ℕ)
unfolding plain_cmd set_time dtmf_tx
request2pdu now reply r = elim (plain_cmd r.id) [
  | some cmd ↦ one_byte reply cmd
  | none ↦
      if r.id == Ctl.set_time
      then set_time now reply r
      else if r.id == Ctl.ask_dtmf_tx
      then dtmf_tx reply r
      else some (reply, 0)
]

-- `for (;i<line;i++)`, by the lines left. `accepts i` tells whether `write` takes the whole of
-- line `i`; the wait for the confirmation is left out. Result: the lines written, and the status.
unfoldable pub write_lines : (ℕ → Bool) → ℕ → ℕ → Bytes → Option (List Bytes × Status)
write_lines accepts zero i reply = some ([], success)
write_lines accepts (suc n) i reply = read_n reply (i * line_bytes) line_bytes >>= λ line.
    if accepts i
    then (write_lines accepts n (i + 1) reply >>= λ (ls, st). some (line ∷ ls, st))
    else some ([], failure)

-- `payload` is `data`, of `data_size` bytes.
unfoldable pub tpp_send_cmd : (ℕ → Bool) → Bytes → ℕ → Bytes → Option (List Bytes × Status)
tpp_send_cmd accepts now req payload = do
  field ← write_n (zeros max_event_data) 0 payload
  let r : TppReq = record { id = req % 256; data_size = length payload % 256; payload = field }
  made ← request2pdu now (zeros buf_bytes) r
  write_lines accepts made.1 0 made.0
