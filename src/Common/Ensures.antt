-- ===== src/Common/Ensures.antt =====
-- Postconditions of code that may fault: `Ensures P m` says that a result of `m` satisfies `P`.
use mathlib.Core.Path.{◌≡◌, refl}
use mathlib.Core.Option.{Option, none, some}
use upil.Common.Memory.{◌>>=◌}

pub data Ensures {ℓ κ} {A : Type ℓ} (P : A → Type κ) : Option A → Type (ℓ ⊔ κ) where
  fault : Ensures P none
  returns : {a : A} → P a → Ensures P (some a)

module _ {ℓ κ} {A : Type ℓ} {P : A → Type κ} where
  -- To prove a postcondition, assume the result.
  pub Ensures-intro : (m : Option A) → ((a : A) → m ≡ some a → P a) → Ensures P m
  Ensures-intro none h = fault
  Ensures-intro (some a) h = returns (h a refl)

  pub of_ensures : {a : A} → Ensures P (some a) → P a
  of_ensures (returns p) = p

module _ {ℓ κ μ} {A : Type ℓ} {B : Type κ} {Q : B → Type μ} where
  pub Ensures-bind :
      (m : Option A) (f : A → Option B)
      → ((a : A) → m ≡ some a → Ensures Q (f a))
      → Ensures Q (m >>= f)
  Ensures-bind none f h = fault
  Ensures-bind (some a) f h = h a refl

-- A chain faults if what follows its first step does.
pub bind_fault {ℓ κ} :
    {A : Type ℓ} {B : Type κ} (m : Option A) (f : A → Option B)
    → ((a : A) → m ≡ some a → f a ≡ none)
    → (m >>= f) ≡ none
bind_fault none f h = refl
bind_fault (some a) f h = h a refl
