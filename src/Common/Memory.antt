-- ===== src/Common/Memory.antt =====
-- C buffers as lists of bytes. `none` stands for an access outside the buffer.
use Prim.Native.Nat.{ℕ, ◌+◌}
use mathlib.Core.Bool.{Bool, true, false, ◌&&◌}
use mathlib.Core.List.{List, [], ◌∷◌, ◌++◌}
use mathlib.Core.Option.{Option, none, some}
use upil.Common.Tests.{leb, ◌==◌, if◌then◌else◌}
use upil.Common.Lists.{length, take, drop}

abbrev pub Bytes : Type 0
Bytes = List ℕ

infixl 5 ◌>>=◌
abbrev pub ◌>>=◌ {ℓ κ} : {A : Type ℓ} {B : Type κ} → Option A → (A → Option B) → Option B
none >>= f = none
some a >>= f = f a

-- `memcpy(dst, mem + off, n)`: the bytes read, if all of them lie in `mem`.
unfoldable pub read_n : Bytes → ℕ → ℕ → Option Bytes
read_n mem off n = if leb (off + n) (length mem) then some (take n (drop off mem)) else none

-- `memcpy(mem + off, bytes, length bytes)`: the new contents, if all is written inside `mem`.
unfoldable pub write_n : Bytes → ℕ → Bytes → Option Bytes
write_n mem off bytes =
    if leb (off + length bytes) (length mem)
    then some (take off mem ++ (bytes ++ drop (off + length bytes) mem))
    else none

-- `!strcmp(a, b)`
unfoldable pub same_text : Bytes → Bytes → Bool
same_text [] [] = true
same_text [] (d ∷ ds) = false
same_text (c ∷ cs) [] = false
same_text (c ∷ cs) (d ∷ ds) = c == d && same_text cs ds
