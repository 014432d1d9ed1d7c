-- ===== src/Tpp/CallerId.antt =====
-- `fsk_to_string` against a description of the number by its nibbles.
use upil.Common.{
  ℕ, ◌+◌, ◌/◌, ◌%◌, ◌≡◌, refl, Option, none, some, List, [], ◌∷◌, map, arith, ltb, if◌then◌else◌,
}
use upil.Common.Memory.{Bytes, ◌>>=◌}
use upil.Tpp.Receive.{fsk_to_string}

-- The nibbles of a byte string, the high one of each byte first.
abbrev pub nibbles : Bytes → List ℕ
nibbles [] = []
nibbles (b ∷ bs) = b / 16 % 16 ∷ b % 16 ∷ nibbles bs

-- The decimal digits in front of the first nibble that is none; `none` if there is no such nibble.
abbrev pub digits_before : List ℕ → Option (List ℕ)
digits_before [] = none
digits_before (n ∷ ns) =
    let rest = digits_before ns in if ltb 9 n then some [] else (rest >>= λ ds. some (n ∷ ds))

abbrev pub in_ascii : List ℕ → List ℕ
in_ascii = map (λ d. b'0' + d)

-- `fsk_to_string` gives, in ASCII, the decimal digits in front of the first nibble above 9, and it
-- reads beyond the end of its bytes exactly when there is no such nibble.
pub fsk_to_string-digits_before :
    (bs : Bytes) → fsk_to_string bs ≡ (digits_before (nibbles bs) >>= λ ds. some (in_ascii ds))
unfolding fsk_to_string
fsk_to_string-digits_before [] = refl
fsk_to_string-digits_before (b ∷ bs) = ground (arith, fsk_to_string-digits_before bs)
