-- ===== src/Tpp/Defs.antt =====
-- tp_protocol.c: the layout of the HID frames and the telephone PDUs, and the events made of them.
use upil.Common.{ℕ, List, [], ◌∷◌}
use upil.Common.Memory.{Bytes}

-- `HIDPDU_LINE_BYTES`, `TPPDU_LINE_BYTES`, and the size of `s_pdu_buf` and of the reply buffers,
-- `HIDPDU_LINE_BYTES * HIDPUD_LINE_MAX`.
abbrev pub line_bytes : ℕ
line_bytes = 8

abbrev pub chunk_bytes : ℕ
chunk_bytes = 6

abbrev pub buf_bytes : ℕ
buf_bytes = 80

abbrev pub max_event_data : ℕ
max_event_data = 512

abbrev pub tp_flag : ℕ
tp_flag = 0xff

abbrev pub hid_flag : ℕ
hid_flag = 0x03

-- `TPPReq_t`, `TPPEvt_t`: `payload` holds the bytes of the field `data` that are in use.
pub record TppEvt : Type 0 where
  pub id : ℕ
  pub data_size : ℕ
  pub payload : Bytes

-- The int results -1, 0 and 1 of `check_tppdu` and `hidpdu2event`.
pub data Verdict : Type 0 where
  bad partial complete : Verdict

-- The int results 0 and -1 of the functions that succeed or fail.
pub data Status : Type 0 where
  success failure : Status

-- `s_pdu_buf` and `s_pdu_offset`.
pub record Assembly : Type 0 where
  pub buf : Bytes
  pub offset : ℕ

-- `n` zero bytes, as `memset` leaves them. Not an `abbrev`: the buffers are long.
unfoldable pub zeros : ℕ → Bytes
zeros ℕ.zero = []
zeros (ℕ.suc n) = 0 ∷ zeros n

-- The state of the receiving side: the PDU under assembly, the number of times that
-- `s_cmd_completed_cond` was broadcast, and the events sent to the state machine.
pub record Receiver : Type 0 where
  pub assembly : Assembly
  pub acks : ℕ
  pub sent : List TppEvt
