-- ===== src/Control/Sent.antt =====
-- upil_monitor.c: the texts that a monitor is sent for what a telephone does.
use upil.Common.{
  ℕ, ◌+◌, ◌≡◌, refl, ap, inl, inr, Bool, true, false, not, ◌&&◌, ◌||◌, Option, none, some, List, [],
  ◌∷◌, ◌++◌, length, ltb, ◌==◌, if◌then◌else◌, arith, Bool-cases,
}
use upil.Common.Memory.{Bytes, ◌>>=◌}
use upil.Common.Ensures.{Ensures, fault, returns}
use upil.Codes.Evt
use upil.StateMachine.Defs.{Effect, notice}
use upil.Phone.Defs.{text_of}
use upil.Control.Monitor.{monitor_text, cid_text}

-- A text is sent, unless the event is one that no monitor is told of.
abbrev pub sent_first : Bytes → List Bytes → List Bytes
sent_first [] texts = texts
sent_first (c ∷ t) texts = (c ∷ t) ∷ texts

-- What `sendto_monitor` sends, in the order of the calls; `none` if one writes outside its buffer.
unfoldable pub texts_sent : List Effect → Option (List Bytes)
texts_sent [] = some []
texts_sent (e ∷ es) =
    let rest = texts_sent es in
    elim e [
      | notice what payload ↦
          monitor_text what payload >>= λ t. rest >>= λ ts. some (sent_first t ts)
      | _ ↦ rest
    ]

-- The number of a caller that the monitor is told of fits the buffer.
abbrev pub fits_notice : Effect → Bool
fits_notice (notice what (some bs)) = not (what == Evt.call_id) || ltb (length (text_of bs) + 4) 512
fits_notice (notice what none) = not (what == Evt.call_id)
fits_notice e = true

abbrev pub all_fit : List Effect → Bool
all_fit [] = true
all_fit (e ∷ es) = fits_notice e && all_fit es

text_of-end : (bs : Bytes) → text_of (text_of bs ++ (0 ∷ [])) ≡ text_of bs
unfolding text_of
text_of-end [] = refl
text_of-end (b ∷ bs) = elim (Bool-cases (b == 0)) [
  | inl z ↦ rw z refl
  | inr n ↦ rw n (rw n (ap (◌∷◌ b) (text_of-end bs)))
]

-- A text without a zero byte.
abbrev pub IsClean : Bytes → Type 0
IsClean t = text_of (t ++ (0 ∷ [])) ≡ t

IsClean-if :
    (b : Bool) {m n : Option Bytes}
    → Ensures IsClean m
    → Ensures IsClean n
    → Ensures IsClean (if b then m else n)
IsClean-if true p q = p
IsClean-if false p q = q

cid_text-IsClean : (payload : Option Bytes) → Ensures IsClean (cid_text payload)
unfolding cid_text text_of
cid_text-IsClean none = fault
cid_text-IsClean (some bs) =
    IsClean-if (ltb (length (text_of bs) + 4) 512)
      (returns (ap (λ t. (b'C' ∷ b'I' ∷ b'D' ∷ b' ' ∷ []) ++ t) (text_of-end bs))) fault

pub monitor_text-IsClean :
    (what : ℕ) (payload : Option Bytes) → Ensures IsClean (monitor_text what payload)
unfolding monitor_text text_of
monitor_text-IsClean what payload = search (IsClean-if, cid_text-IsClean, returns) depth 24

-- There is a text.
pub record IsFormed (m : Option Bytes) : Type 0 where
  pub text : Bytes
  pub same : m ≡ some text

formed : (t : Bytes) → IsFormed (some t)
formed t = record { text = t; same = refl }

IsFormed-if :
    (b : Bool) {m n : Option Bytes} → IsFormed m → IsFormed n → IsFormed (if b then m else n)
IsFormed-if true p q = p
IsFormed-if false p q = q

IsFormed-else :
    (m : Option Bytes) {n : Option Bytes} → IsFormed n → IsFormed (if false then m else n)
IsFormed-else m p = p

cid_text-IsFormed :
    (what : ℕ) (payload : Option Bytes)
    → what == Evt.call_id ≡ true
    → fits_notice (notice what payload) ≡ true
    → IsFormed (cid_text payload)
unfolding cid_text
cid_text-IsFormed what none w h = absurd (ground (arith, w, h))
cid_text-IsFormed what (some bs) w h =
    let short : ltb (length (text_of bs) + 4) 512 ≡ true = ground (arith, w, h) in
    rw short (formed _)

pub monitor_text-IsFormed :
    (what : ℕ) (payload : Option Bytes)
    → fits_notice (notice what payload) ≡ true
    → IsFormed (monitor_text what payload)
unfolding monitor_text
monitor_text-IsFormed what payload h = elim (Bool-cases (what == Evt.call_id)) [
  | inl w ↦
      let same : monitor_text what payload ≡ cid_text payload = ground (arith, w) in
      rw same (cid_text-IsFormed what payload w h)
  | inr other ↦ rw other (search (formed, IsFormed-else, IsFormed-if) depth 24 fits 20000)
]
