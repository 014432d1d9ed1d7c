-- ===== src/Debug/Dump.antt =====
-- upil_debug.c: `upil_hexdump` and its buffer.
use upil.Common.{
  ℕ, ◌+◌, ◌*◌, ◌<◌, ◌≡◌, refl, ◌∙◌, true, false, none, some, [], ◌∷◌, ◌++◌, ltb, if◌then◌else◌,
  arith, inl, inr, Bool-cases, length, length-append, append_assoc, append-nil,
}
use upil.Common.Memory.{Bytes}
use upil.Debug.Defs.{max_msg_size, hex_byte, strcat, dump_bytes, upil_hexdump}

-- The bytes, each as two digits and a space.
abbrev pub hex_text : Bytes → Bytes
hex_text [] = []
hex_text (b ∷ bs) = hex_byte b ++ hex_text bs

length-hex_text : (bs : Bytes) → length (hex_text bs) ≡ 3 * length bs
unfolding hex_byte
length-hex_text [] = omega arith
length-hex_text (b ∷ bs) = omega (arith, length-hex_text bs)

dump_bytes_lem :
    (bs line : Bytes)
    → length line < max_msg_size
    → dump_bytes bs line ≡ (
        if ltb (length line + 3 * length bs) max_msg_size then some (line ++ hex_text bs) else none)
unfolding dump_bytes strcat
dump_bytes_lem [] line h = ground (arith, append-nil line)
dump_bytes_lem (b ∷ bs) line h = elim (Bool-cases (ltb (length line + 3) max_msg_size)) [
  | inl fits ↦
      let longer = length-append line (hex_byte b) in
      let three : length (hex_byte b) ≡ 3 = unfold hex_byte in refl in
      let next = dump_bytes_lem bs (line ++ hex_byte b) (ground (arith, longer, three, fits)) in
      rw (three, fits)
        (next ∙ ground (arith, longer, three, append_assoc line (hex_byte b) (hex_text bs)))
  | inr full ↦
      let three : length (hex_byte b) ≡ 3 = unfold hex_byte in refl in
      rw (three, full) (ground (arith, full))
]

-- A dump of at least one byte is the title, a space, each byte as two digits and a space, and the end
-- of the line, if all of it is below 1024 characters; otherwise it is written beyond its buffer.
pub upil_hexdump_lem :
    (title : Bytes) (b : ℕ) (bs : Bytes)
    → upil_hexdump title (b ∷ bs) ≡ (
        if ltb (length title + 3 * length (b ∷ bs) + 2) max_msg_size
        then some (((title ++ (b' ' ∷ [])) ++ hex_text (b ∷ bs)) ++ (10 ∷ []))
        else none)
unfolding upil_hexdump strcat
upil_hexdump_lem title b bs =
    let line : Bytes = title ++ (b' ' ∷ []) in
    let longer : length line ≡ length title + 1 = length-append title (b' ' ∷ []) in
    let whole = length-append line (hex_text (b ∷ bs)) in
    let digits = length-hex_text (b ∷ bs) in
    elim (Bool-cases (ltb (length title + 1) max_msg_size)) [
      | inl fits ↦
          let dumped = dump_bytes_lem (b ∷ bs) line (ground (arith, longer, fits)) in
          let here : ltb (0 + length line) max_msg_size ≡ true = ground (arith, longer, fits) in
          rw here (ground (arith, dumped, longer, whole, digits))
      | inr full ↦
          let here : ltb (0 + length line) max_msg_size ≡ false = ground (arith, longer, full) in
          rw here (ground (arith, full))
    ]
