-- ===== src/Debug/Defs.antt =====
-- upil_debug.c, with the macro `ENTER_LEAVE_LOG` of include/upil_debug.h. `none` is a write outside a
-- buffer. What the system's log makes of a line is not part of this library.
use upil.Common.{
  ℕ, zero, suc, ◌+◌, ◌-◌, ◌*◌, ◌/◌, ◌%◌, Option, none, some, [], ◌∷◌, ◌++◌, ltb, leb, ◌==◌,
  if◌then◌else◌, length,
}
use upil.Common.Memory.{Bytes, ◌>>=◌}

abbrev pub max_msg_size : ℕ
max_msg_size = 1024

-- `MSG_EXCESSIVE`, …, `MSG_ERROR` are 0 to 5; the levels of the system's log.
pub data LogLevel : Type 0 where
  log_error log_warn log_info log_debug : LogLevel

-- `upil_printf`: at what level a line is logged, `none` if it is not, the level being below
-- `upil_debug_level`.
unfoldable pub upil_printf : ℕ → ℕ → Option LogLevel
upil_printf upil_debug_level level =
    if leb upil_debug_level level
    then some (
        if level == 5
        then log_error
        else if level == 4
        then log_warn
        else if level == 3
        then log_info
        else log_debug)
    else none

-- `%02X`: a digit, and the two digits of a byte.
unfoldable pub hex_digit : ℕ → ℕ
hex_digit n = if ltb n 10 then b'0' + n else b'A' + n - 10

unfoldable pub hex_byte : ℕ → Bytes
unfolding hex_digit
hex_byte b = hex_digit (b / 16 % 16) ∷ hex_digit (b % 16) ∷ b' ' ∷ []

-- `strcat(line, text)`, with the zero byte behind it in `line[MAX_MSG_SIZE]`.
unfoldable pub strcat : Bytes → Bytes → Option Bytes
strcat line text =
    if ltb (length line + length text) max_msg_size then some (line ++ text) else none

-- The loop of `upil_hexdump` over the bytes left.
unfoldable pub dump_bytes : Bytes → Bytes → Option Bytes
dump_bytes [] line = some line
dump_bytes (b ∷ bs) line = strcat line (hex_byte b) >>= dump_bytes bs

-- `upil_hexdump`: the line that is logged; `data` is empty for NULL.
unfoldable pub upil_hexdump : Bytes → Bytes → Option Bytes
upil_hexdump title [] = do
  line ← strcat [] (title ++ (b' ' ∷ []))
  strcat line (b' ' ∷ b'[' ∷ b'N' ∷ b'U' ∷ b'L' ∷ b'L' ∷ b']' ∷ 10 ∷ [])
upil_hexdump title (b ∷ bs) = do
  line ← strcat [] (title ++ (b' ' ∷ []))
  dumped ← dump_bytes (b ∷ bs) line
  strcat dumped (10 ∷ [])

-- `space_enter`: two spaces for each level of `g_dbg_count` and a zero byte, in 64 bytes.
unfoldable pub indented : ℕ → Option ℕ
indented g_dbg_count = if ltb (g_dbg_count * 2) 64 then some g_dbg_count else none

-- `ENTER_LOG` and `LEAVE_LOG`: `g_dbg_count` afterwards.
unfoldable pub enter_log : ℕ → Option ℕ
unfolding indented
enter_log g_dbg_count = indented g_dbg_count >>= λ n. some (n + 1)

unfoldable pub leave_log : ℕ → Option ℕ
unfolding indented
leave_log g_dbg_count = indented (g_dbg_count - 1)

-- A blank AT command: `processCommandBuffer` of upil_ril.c leaves without LEAVE_LOG.
unfoldable pub blank_logged : ℕ → Option ℕ
unfolding enter_log leave_log
blank_logged g_dbg_count = do
  callback ← enter_log g_dbg_count
  buffer ← enter_log callback
  leave_log buffer

-- So many of them, one after the other.
unfoldable pub blanks_logged : ℕ → ℕ → Option ℕ
unfolding blank_logged
blanks_logged zero g_dbg_count = some g_dbg_count
blanks_logged (suc k) g_dbg_count = blank_logged g_dbg_count >>= blanks_logged k
