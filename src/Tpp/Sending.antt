-- ===== src/Tpp/Sending.antt =====
-- What `tpp_send_cmd` writes: the lines in order up to the first that is refused, the fixed lines
-- of plain requests, and the numbers that it can dial.
use upil.Common.{
  ℕ, zero, suc, ◌+◌, ◌-◌, ◌*◌, ◌/◌, ◌%◌, ◌≤◌, ◌<◌, ◌≡◌, ◌≢◌, refl, ap, ◌∙◌, inl, inr, none, some,
  Option-cases, Bool, false, List, [], ◌∷◌, ◌++◌, append_assoc, length, take, drop, length-append,
  length-take, length-drop, Bool-cases, arith, leb, tests, ◌==◌, if◌then◌else◌, min,
}
use upil.Common.Memory.{Bytes, ◌>>=◌, read_n, write_n}
use upil.Common.Buffers.{write_n-append, write_n_overflow}
use upil.Codes.Ctl
use upil.Tpp.CmdCode
use upil.Tpp.Defs.{success, failure, zeros, tp_flag, buf_bytes, line_bytes, max_event_data}
use upil.Tpp.Framing.{length-hid_line}
use upil.Tpp.Reassembly.{length-zeros, drop-zeros}
use upil.Tpp.Dial.{dial_codes, make_dial_param_lem}
use upil.Tpp.Send.{
  hid_line, tp_pdu, make_lines, make_cmd, c_string, TppReq, plain_cmd, dtmf_tx, one_byte,
  request2pdu, write_lines, tpp_send_cmd,
}

line_read :
    (i : ℕ) (reply : Bytes)
    → i * line_bytes + line_bytes ≤ length reply
    → read_n reply (i * line_bytes) line_bytes
      ≡ some (take line_bytes (drop (i * line_bytes) reply))
unfolding read_n
line_read i reply h = ground arith

le_of_leb : (a b : ℕ) → leb a b ≡ false → b < a
le_of_leb a b h = ground arith

-- How many of the `n` lines from line `i` on are accepted before the first that is not.
abbrev pub accepted_before : (ℕ → Bool) → ℕ → ℕ → ℕ
accepted_before accepts zero i = 0
accepted_before accepts (suc n) i =
    let rest = accepted_before accepts n (i + 1) in if accepts i then suc rest else 0

-- The `k` lines of the reply buffer from line `i` on.
abbrev pub lines_from : ℕ → ℕ → Bytes → List Bytes
lines_from zero i reply = []
lines_from (suc k) i reply =
    take line_bytes (drop (i * line_bytes) reply) ∷ lines_from k (i + 1) reply

pub write_lines-accepted_before :
    (accepts : ℕ → Bool) (n i : ℕ) (reply : Bytes)
    → (i + n) * line_bytes ≤ length reply
    → write_lines accepts n i reply
      ≡ some (
        lines_from (accepted_before accepts n i) i reply,
        if accepted_before accepts n i == n then success else failure,
      )
unfolding write_lines
write_lines-accepted_before accepts zero i reply h = refl
write_lines-accepted_before accepts (suc n) i reply h = elim (Bool-cases (accepts i)) [
  | inl ok ↦
      rw (line_read i reply (omega arith), ok)
        (rw (write_lines-accepted_before accepts n (i + 1) reply (omega arith)) (ground arith))
  | inr refused ↦ rw (line_read i reply (omega arith), refused) (ground arith)
]

make_lines_overflow :
    (fuel : ℕ) (pre suf left : Bytes) (k : ℕ)
    → length suf < 8 * ((length left + 5) / 6)
    → make_lines fuel (pre ++ suf) (length pre) left k ≡ none
unfolding make_lines
make_lines_overflow fuel pre suf [] k h = absurd (omega arith)
make_lines_overflow zero pre suf (b ∷ left) k h = refl
make_lines_overflow (suc fuel) pre suf (b ∷ left) k h =
    let len : ℕ = min 6 (length (b ∷ left)) in
    let l : Bytes = hid_line (take len (b ∷ left)) in
    let eight : length l ≡ 8 =
      length-hid_line (take len (b ∷ left)) (omega (arith, length-take len (b ∷ left))) in
    elim (Bool-cases (leb 8 (length suf))) [
      | inr tight ↦ rw (
          write_n_overflow (pre ++ suf) (length pre) l
            (omega (arith, le_of_leb 8 (length suf) tight, length-append pre suf, eight)))
      | inl room ↦
          rw
            (
              write_n-append pre suf l (omega (tests, room, eight)),
              eight,
              ← append_assoc pre l (drop 8 suf),
            )
            (ap (λ j. make_lines fuel ((pre ++ l) ++ drop 8 suf) j (drop len (b ∷ left)) (k + 1))
                (omega (arith, length-append pre l, eight))
              ∙ make_lines_overflow fuel (pre ++ l) (drop 8 suf) (drop len (b ∷ left)) (k + 1)
                  (omega (tests, length-drop len (b ∷ left), length-drop 8 suf)))
    ]

-- More than 57 parameter bytes do not fit into the ten lines of a reply buffer.
make_cmd_overflow :
    (reply : Bytes) (id : ℕ) (param : Bytes)
    → length reply ≡ buf_bytes
    → 57 < length param
    → make_cmd reply id param ≡ none
unfolding make_cmd tp_pdu
make_cmd_overflow reply id param h big = elim (Bool-cases (leb (3 + length param) buf_bytes)) [
  | inr over ↦ rw over
  | inl fits ↦ rw fits (make_lines_overflow _ [] reply _ 0 (omega arith))
]

-- A string with no zero byte in it.
abbrev pub NoZero : Bytes → Type 0
NoZero [] = Unit
NoZero (b ∷ bs) = (0 < b) × NoZero bs

c_string-append : (s rest : Bytes) → NoZero s → c_string (s ++ (0 ∷ rest)) ≡ some s
unfolding c_string
c_string-append [] rest h = refl
c_string-append (b ∷ s) rest h = ground (arith, c_string-append s rest h.1)

-- The field `data` of a request whose data leaves room for a zero byte, read as a string.
c_string_field :
    (number : Bytes)
    → NoZero number
    → length number < max_event_data
    → (field : Bytes) × (write_n (zeros max_event_data) 0 number ≡ some field)
      × (c_string field ≡ some number)
unfolding zeros
c_string_field number h short = (
  number ++ (0 ∷ zeros (511 - length number)),
  write_n-append [] (zeros max_event_data) number (omega (arith, length-zeros 512))
      ∙ rw (drop-zeros (length number) 512)
          (let e : 512 - length number ≡ suc (511 - length number) = omega arith in rw e),
  c_string-append number (zeros (511 - length number)) h,
)

dtmf_tx-dial :
    (r : TppReq) (number : Bytes)
    → c_string r.payload ≡ some number
    → dtmf_tx (zeros buf_bytes) r ≡ (
        if leb (length (dial_codes number)) 56
        then make_cmd (zeros buf_bytes) CmdCode.ask_dtmf_tx (0x64 ∷ dial_codes number)
        else none)
unfolding dtmf_tx
dtmf_tx-dial r number e =
    rw (e, make_dial_param_lem 0x64 number)
      (ground (
        arith,
        make_cmd_overflow (zeros buf_bytes) CmdCode.ask_dtmf_tx (0x64 ∷ dial_codes number)
            (length-zeros buf_bytes),
      ))

-- Dialling a number of less than 512 characters: with at most 56 of them that have a code, the
-- lines written are those of the command for dialling, with the speed and the codes; with more, a
-- write leaves the buffers of `make_dial_param`, `make_cmd` or `tpp_send_cmd`.
pub tpp_send_cmd-dial :
    (accepts : ℕ → Bool) (now number : Bytes)
    → NoZero number
    → length number < max_event_data
    → tpp_send_cmd accepts now Ctl.ask_dtmf_tx number ≡ (
        (if leb (length (dial_codes number)) 56
          then make_cmd (zeros buf_bytes) CmdCode.ask_dtmf_tx (0x64 ∷ dial_codes number)
          else none)
        >>= λ made. write_lines accepts made.1 0 made.0)
unfolding tpp_send_cmd request2pdu
tpp_send_cmd-dial accepts now number h short =
    let (field, written, text) = c_string_field number h short in
    rw (
      written,
      dtmf_tx-dial
          (record { id = Ctl.ask_dtmf_tx; data_size = length number % 256; payload = field }) number
          text,
    )

field_fits :
    (payload : Bytes)
    → length payload ≤ max_event_data
    → (field : Bytes) × (write_n (zeros max_event_data) 0 payload ≡ some field)
field_fits payload fits = (
  payload ++ drop (length payload) (zeros max_event_data),
  write_n-append [] (zeros max_event_data) payload (omega (arith, length-zeros 512)),
)

one_byte_lem :
    (cmd : ℕ)
    → one_byte (zeros buf_bytes) cmd
      ≡ some (3 ∷ 3 ∷ 255 ∷ 1 ∷ cmd ∷ 5 ∷ 6 ∷ 7 ∷ drop 8 (zeros buf_bytes), 1)
unfolding one_byte
one_byte_lem cmd = rw (
    write_n-append [] (zeros buf_bytes) (3 ∷ 3 ∷ 255 ∷ 1 ∷ cmd ∷ 5 ∷ 6 ∷ 7 ∷ [])
      (omega (arith, length-zeros buf_bytes)))

-- A request with data of at most 512 bytes: one with a fixed line sends that line alone, which is
-- the line of a PDU with its command and no parameters, and fails exactly if the line is refused;
-- one that has no case in `request2pdu` sends nothing and succeeds.
pub tpp_send_cmd-plain_cmd :
    (accepts : ℕ → Bool) (now payload : Bytes) (req : ℕ)
    → length payload ≤ max_event_data
    → req % 256 ≢ Ctl.set_time
    → req % 256 ≢ Ctl.ask_dtmf_tx
    → tpp_send_cmd accepts now req payload
      ≡ some (elim (plain_cmd (req % 256)) [
        | some cmd ↦
            if accepts 0 then (hid_line (tp_flag ∷ 1 ∷ cmd ∷ []) ∷ [], success) else ([], failure)
        | none ↦ ([], success)
      ])
unfolding tpp_send_cmd request2pdu write_lines hid_line read_n
tpp_send_cmd-plain_cmd accepts now payload req fits a b =
    let (field, written) = field_fits payload fits in
    elim (Option-cases (plain_cmd (req % 256))) [
      | inl e ↦ rw (written, e) (ground arith)
      | inr (cmd, e) ↦ ground (arith, written, one_byte_lem cmd)
    ]
