-- ===== src/Tests/Decimal.antt =====
-- A decimal printing of numbers as bytes, and its reading.
use upil.Common.{
  ℕ, zero, suc, ◌+◌, ◌-◌, ◌*◌, ◌/◌, ◌%◌, ◌≤◌, ◌<◌, ◌≡◌, refl, inl, inr, [], ◌∷◌, ◌++◌, ltb,
  if◌then◌else◌, length, length-append, arith, Bool-cases,
}
use native.Mathlib.Nat.{div-add-mod'}
use upil.Common.Memory.{Bytes}
use upil.Tpp.Sending.{NoZero}
use upil.Client.Served.{IsDecimal}

-- The digits, at most as many as there is fuel.
unfoldable pub digits : ℕ → ℕ → Bytes
digits zero n = []
digits (suc f) n =
    let rest = digits f (n / 10) in
    if ltb n 10 then (b'0' + n) ∷ [] else rest ++ ((b'0' + n % 10) ∷ [])

abbrev pub decimal : ℕ → Bytes
decimal = digits 10

unfoldable pub value_from : ℕ → Bytes → ℕ
value_from acc [] = acc
value_from acc (c ∷ cs) = value_from (acc * 10 + (c - b'0')) cs

abbrev pub value : Bytes → ℕ
value = value_from 0

-- The numbers of so many digits.
abbrev tens : ℕ → ℕ
tens zero = 1
tens (suc f) = 10 * tens f

value_from-append :
    (acc : ℕ) (cs : Bytes) (c : ℕ)
    → value_from acc (cs ++ (c ∷ [])) ≡ value_from acc cs * 10 + (c - b'0')
unfolding value_from
value_from-append acc [] c = refl
value_from-append acc (b ∷ cs) c = value_from-append (acc * 10 + (b - b'0')) cs c

NoZero-append : (cs : Bytes) (c : ℕ) → NoZero cs → 0 < c → NoZero (cs ++ (c ∷ []))
NoZero-append [] c h p = (p, tt)
NoZero-append (b ∷ cs) c h p = (h.0, NoZero-append cs c h.1 p)

digits-NoZero : (f n : ℕ) → NoZero (digits f n)
unfolding digits
digits-NoZero zero n = tt
digits-NoZero (suc f) n = elim (Bool-cases (ltb n 10)) [
  | inl one ↦ rw one (omega arith, tt)
  | inr more ↦
      rw more (NoZero-append (digits f (n / 10)) _ (digits-NoZero f (n / 10)) (omega arith))
]

length-digits : (f n : ℕ) → length (digits f n) ≤ f
unfolding digits
length-digits zero n = omega arith
length-digits (suc f) n = elim (Bool-cases (ltb n 10)) [
  | inl one ↦ rw one (omega arith)
  | inr more ↦ rw more (
      let last : length ((b'0' + n % 10) ∷ []) ≡ 1 = refl in
      omega (
        arith,
        length-digits f (n / 10),
        last,
        length-append (digits f (n / 10)) ((b'0' + n % 10) ∷ []),
      ))
]

digits-some : (f n : ℕ) → 1 ≤ length (digits (suc f) n)
unfolding digits
digits-some f n = elim (Bool-cases (ltb n 10)) [
  | inl one ↦ rw one (omega arith)
  | inr more ↦ rw more (
      let last : length ((b'0' + n % 10) ∷ []) ≡ 1 = refl in
      omega (arith, last, length-append (digits f (n / 10)) ((b'0' + n % 10) ∷ [])))
]

value-digits : (f n : ℕ) → n < tens f → value (digits f n) ≡ n
unfolding digits value_from
value-digits zero n h = omega (arith, h)
value-digits (suc f) n h = elim (Bool-cases (ltb n 10)) [
  | inl one ↦ rw one (omega arith)
  | inr more ↦
      let split = div-add-mod' n 10 in
      let less : n / 10 < tens f = omega (arith, h) in
      rw (more, value_from-append 0 (digits f (n / 10)) (b'0' + n % 10))
        (rw (value-digits f (n / 10) less) (omega (arith)))
]

pub decimal-IsDecimal : IsDecimal decimal value
decimal-IsDecimal = record {
  no_zero = λ n h. digits-NoZero 10 n;
  not_empty = λ n h. digits-some 9 n;
  short = λ n h. length-digits 10 n;
  read_back = λ n h. value-digits 10 n (omega (arith, h));
}
