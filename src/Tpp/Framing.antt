-- ===== src/Tpp/Framing.antt =====
-- The lines that `make_cmd` writes, seen as a cutting of the PDU into pieces.
use upil.Common.{
  ℕ, zero, suc, ◌+◌, ◌*◌, ◌/◌, ◌≤◌, ◌<◌, ◌≡◌, refl, sym, ap, ◌∙◌, some, [], ◌∷◌, ◌++◌, append_assoc,
  length, take, drop, length-append, length-take, length-drop, take-append-drop, arith, min,
}
use upil.Common.Memory.{Bytes}
use upil.Common.Buffers.{write_n-append}
use upil.Tpp.Send.{hid_line, make_lines}

-- `out` starts with the `n` HID lines that carry `left`, six bytes at most to a line.
pub data Framed : Bytes → Bytes → ℕ → Type 0 where
  done : {out : Bytes} → Framed [] out 0
  line :
      {left out : Bytes} {n : ℕ} (c q o : Bytes)
      → left ≡ c ++ q
      → out ≡ hid_line c ++ o
      → 0 < length c
      → length c ≤ 6
      → Framed q o n
      → Framed left out (suc n)

pub length-hid_line : (c : Bytes) → length c ≤ 6 → length (hid_line c) ≡ 8
unfolding hid_line
length-hid_line c h = omega (
  arith,
  length-append {A = ℕ} c (drop (length c) (2 ∷ 3 ∷ 4 ∷ 5 ∷ 6 ∷ 7 ∷ [])),
  length-drop {A = ℕ} (length c) (2 ∷ 3 ∷ 4 ∷ 5 ∷ 6 ∷ 7 ∷ []),
)

-- The result of `make_lines` on a buffer that is full up to `pre`.
pub record Made (fuel : ℕ) (pre suf left : Bytes) (k : ℕ) : Type 0 where
  pub out : Bytes
  pub n : ℕ
  pub runs : make_lines fuel (pre ++ suf) (length pre) left k ≡ some (pre ++ out, k + n)
  pub framed : Framed left out n
  pub count : n ≡ (length left + 5) / 6
  pub same_length : length out ≡ length suf

make_lines_step :
    (fuel : ℕ) (pre suf : Bytes) (b : ℕ) (left : Bytes) (k : ℕ)
    → let len = min 6 (length (b ∷ left)) in
      let l = hid_line (take len (b ∷ left)) in
      length l ≡ 8
      → 8 ≤ length suf
      → Made fuel (pre ++ l) (drop 8 suf) (drop len (b ∷ left)) (k + 1)
      → Made (suc fuel) pre suf (b ∷ left) k
unfolding make_lines
make_lines_step fuel pre suf b left k h room m = record {
  out = l ++ m.out;
  n = suc m.n;
  runs =
      rw (write_n-append pre suf l (omega arith), h, ← append_assoc pre l (drop 8 suf))
        (ap (λ j. make_lines fuel ((pre ++ l) ++ drop 8 suf) j (drop len (b ∷ left)) (k + 1))
            (omega (arith, length-append pre l))
          ∙ m.runs
          ∙ rw (append_assoc pre l m.out) (ap (λ j. some (pre ++ (l ++ m.out), j)) (omega arith)));
  framed =
      line (take len (b ∷ left)) (drop len (b ∷ left)) m.out (sym (take-append-drop len (b ∷ left)))
        refl (omega (arith, length-take len (b ∷ left))) (omega (arith, length-take len (b ∷ left)))
        m.framed;
  count = omega (arith, m.count, length-drop len (b ∷ left));
  same_length = omega (arith, m.same_length, length-append l m.out, length-drop 8 suf);
}
  where
    len : ℕ
    len = min 6 (length (b ∷ left))

    l : Bytes
    l = hid_line (take len (b ∷ left))

-- With fuel for every byte and room for every line, all the lines are written.
pub make_lines-Made :
    (fuel : ℕ) (pre suf left : Bytes) (k : ℕ)
    → length left ≤ fuel
    → 8 * ((length left + 5) / 6) ≤ length suf
    → Made fuel pre suf left k
unfolding make_lines
make_lines-Made fuel pre suf [] k h room = record {
  out = suf;
  n = 0;
  runs = ap (λ j. some (pre ++ suf, j)) (omega arith);
  framed = done;
  count = omega arith;
  same_length = refl;
}
make_lines-Made zero pre suf (b ∷ left) k h room = absurd (omega arith)
make_lines-Made (suc fuel) pre suf (b ∷ left) k h room =
    let len : ℕ = min 6 (length (b ∷ left)) in
    make_lines_step fuel pre suf b left k
      (length-hid_line (take len (b ∷ left)) (omega (arith, length-take len (b ∷ left))))
      (omega arith)
      (make_lines-Made fuel (pre ++ hid_line (take len (b ∷ left))) (drop 8 suf)
        (drop len (b ∷ left)) (k + 1) (omega (arith, length-drop len (b ∷ left)))
        (omega (arith, length-drop len (b ∷ left), length-drop 8 suf)))
