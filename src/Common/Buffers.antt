-- ===== src/Common/Buffers.antt =====
-- Reading and writing a buffer that is split at the offset.
use Prim.Native.Nat.{ℕ, suc, ◌+◌, ◌≤◌, ◌<◌}
use mathlib.Core.Path.{◌≡◌, refl, ap, ◌∙◌}
use mathlib.Core.List.{List, [], ◌∷◌, ◌++◌}
use mathlib.Core.Option.{Option, none, some}
use native.Mathlib.Omega.{arith}
use upil.Common.Lists.{length, take, drop, length-append, length-take, length-drop}
use upil.Common.Memory.{Bytes, ◌>>=◌, read_n, write_n}

module _ {ℓ} {A : Type ℓ} where
  pub take-append : (pre suf : List A) → take (length pre) (pre ++ suf) ≡ pre
  take-append [] suf = refl
  take-append (x ∷ pre) suf = ap (◌∷◌ x) (take-append pre suf)

  pub drop-append : (pre suf : List A) → drop (length pre) (pre ++ suf) ≡ suf
  drop-append [] suf = refl
  drop-append (x ∷ pre) suf = drop-append pre suf

  pub drop-append_add : (pre suf : List A) (n : ℕ) → drop (length pre + n) (pre ++ suf) ≡ drop n suf
  drop-append_add [] suf n = ap (λ k. drop k suf) (omega arith)
  drop-append_add (x ∷ pre) suf n =
      let e : length (x ∷ pre) + n ≡ suc (length pre + n) = omega arith in
      ap (λ k. drop k (x ∷ (pre ++ suf))) e ∙ drop-append_add pre suf n

  pub take_all : (xs : List A) → take (length xs) xs ≡ xs
  take_all [] = refl
  take_all (x ∷ xs) = ap (◌∷◌ x) (take_all xs)

  pub drop_all : (xs : List A) → drop (length xs) xs ≡ []
  drop_all [] = refl
  drop_all (x ∷ xs) = drop_all xs

-- A write at the split replaces as many bytes of the second part.
pub write_n-append :
    (pre suf bytes : Bytes)
    → length bytes ≤ length suf
    → write_n (pre ++ suf) (length pre) bytes ≡ some (pre ++ (bytes ++ drop (length bytes) suf))
unfolding write_n
write_n-append pre suf bytes h =
    rw (take-append pre suf, drop-append_add pre suf (length bytes))
      (ground (arith, length-append pre suf))

-- A read just behind the split takes the first bytes of the second part.
pub read_n-append :
    (pre suf rest : Bytes) → read_n (pre ++ (suf ++ rest)) (length pre) (length suf) ≡ some suf
unfolding read_n
read_n-append pre suf rest =
    rw (drop-append pre (suf ++ rest), take-append suf rest)
      (ground (arith, length-append pre (suf ++ rest), length-append suf rest))

-- A write leaves the length of the buffer alone.
pub length-write_n :
    (mem : Bytes) (off : ℕ) (bytes : Bytes) {m : Bytes}
    → write_n mem off bytes ≡ some m
    → length m ≡ length mem
unfolding write_n
length-write_n mem off bytes h = ground (
  arith,
  length-append (take off mem) (bytes ++ drop (off + length bytes) mem),
  length-append bytes (drop (off + length bytes) mem),
  length-take off mem,
  length-drop (off + length bytes) mem,
)

-- A write that does not fit is refused.
pub write_n_overflow :
    (mem : Bytes) (off : ℕ) (bytes : Bytes)
    → length mem < off + length bytes
    → write_n mem off bytes ≡ none
unfolding write_n
write_n_overflow mem off bytes h = ground arith

pub write_n_fits :
    (mem : Bytes) (off : ℕ) (bytes : Bytes) {m : Bytes}
    → write_n mem off bytes ≡ some m
    → off + length bytes ≤ length mem
unfolding write_n
write_n_fits mem off bytes h = ground arith

-- Inversion of a chain that succeeds.
pub >>=-eq-some {ℓ κ} :
    {A : Type ℓ} {B : Type κ} (m : Option A) (f : A → Option B) {b : B}
    → (m >>= f) ≡ some b
    → (a : A) × (m ≡ some a) × (f a ≡ some b)
>>=-eq-some none f h = cc
>>=-eq-some (some a) f h = (a, refl, h)
