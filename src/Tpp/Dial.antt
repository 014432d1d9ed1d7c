-- ===== src/Tpp/Dial.antt =====
-- What `make_dial_param` makes of a number, and when it stays inside its buffer.
use upil.Common.{
  ℕ, ◌+◌, ◌≤◌, ◌<◌, ◌≡◌, inl, inr, none, some, Option-cases, List, [], ◌∷◌, ◌++◌, append_assoc,
  append-nil, length, length-append, arith, ltb, if◌then◌else◌,
}
use upil.Common.Memory.{Bytes}
use upil.Tpp.Defs.{buf_bytes}
use upil.Tpp.Send.{dial_code, put, dial_loop, make_dial_param}

-- The codes of the characters of a number that have one, in order.
abbrev pub dial_codes : Bytes → List ℕ
dial_codes [] = []
dial_codes (c ∷ number) = elim (dial_code c) [
  | none ↦ dial_codes number
  | some x ↦ x ∷ dial_codes number
]

dial_loop-fits :
    (out number : Bytes)
    → length out + length (dial_codes number) ≤ buf_bytes
    → dial_loop out number ≡ some (out ++ dial_codes number)
unfolding dial_loop put
dial_loop-fits out [] h = rw append-nil
dial_loop-fits out (c ∷ number) h = elim (Option-cases (dial_code c)) [
  | inl e ↦ ground (arith, dial_loop-fits out number)
  | inr (x, e) ↦ ground (
    arith,
    dial_loop-fits (out ++ (x ∷ [])) number,
    length-append out (x ∷ []),
    append_assoc out (x ∷ []) (dial_codes number),
  )
]

dial_loop_overflow :
    (out number : Bytes)
    → length out ≤ buf_bytes
    → buf_bytes < length out + length (dial_codes number)
    → dial_loop out number ≡ none
unfolding dial_loop put
dial_loop_overflow out [] h k = absurd (omega arith)
dial_loop_overflow out (c ∷ number) h k = elim (Option-cases (dial_code c)) [
  | inl e ↦ ground (arith, dial_loop_overflow out number)
  | inr (x, e) ↦
      ground (arith, dial_loop_overflow (out ++ (x ∷ [])) number, length-append out (x ∷ []))
]

-- `make_dial_param` gives the speed byte and then the codes of the characters that have one, in
-- order, if these are 79 at most; with 80 or more of them it writes outside its 80-byte buffer.
pub make_dial_param_lem :
    (speed : ℕ) (number : Bytes)
    → make_dial_param speed number ≡ (
        if ltb (length (dial_codes number)) buf_bytes
        then some (speed ∷ dial_codes number)
        else none)
unfolding make_dial_param put
make_dial_param_lem speed number =
    ground (arith, dial_loop-fits (speed ∷ []) number, dial_loop_overflow (speed ∷ []) number)

-- `dial_code` gives two characters the same code only if they are equal, and no code above 14.
pub dial_code_injective :
    (a b x : ℕ) → dial_code a ≡ some x → dial_code b ≡ some x → (a ≡ b) × (x ≤ 14)
unfolding dial_code
dial_code_injective a b x p q = ground arith
