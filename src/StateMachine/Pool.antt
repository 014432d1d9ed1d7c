-- ===== src/StateMachine/Pool.antt =====
-- state_machine/state_machine.c: the pool that machines are taken from. It has 64 places there, and
-- any number here.
use upil.Common.{
  ℕ, suc, ◌+◌, ◌-◌, ◌≤◌, ◌<◌, ◌≡◌, refl, inl, inr, Bool, true, false, Option, none, some, List, [],
  ◌∷◌, map, set, length, length-set, ltb, if◌then◌else◌, arith, Option-cases, Bool-cases,
}
use upil.Loop.Defs.{Loop}
use upil.Handler.Defs.{start_handler}
use upil.StateMachine.Defs.{Fsm}

-- A place of `s_sm_pool`; `in_use` tells that `table` is not NULL.
pub record Slot : Type 0 where
  pub in_use : Bool
  pub fsm : Fsm

-- `sm_init_pool`
unfoldable pub sm_init_pool : List Slot → List Slot
sm_init_pool = map (λ s. record { in_use = false; fsm = record s.fsm { cur_state = none } })

-- `get_idle_fsm`, from place `i` on: the first place that is free, and what stands there.
unfoldable pub get_idle_fsm : ℕ → List Slot → Option (ℕ × Fsm)
get_idle_fsm i [] = none
get_idle_fsm i (s ∷ pool) =
    let rest = get_idle_fsm (i + 1) pool in if s.in_use then rest else some (i, s.fsm)

-- A machine whose handler has started with the loop `l`.
abbrev pub prepared : Loop → Fsm → Fsm
prepared l fsm = record fsm { handler = start_handler l fsm.handler; cur_state = none }

-- `sm_obtain_fsm`: the place of the machine, and the pool. `started` is the loop, if its thread
-- could be made.
unfoldable pub sm_obtain_fsm : Option Loop → List Slot → Option ℕ × List Slot
sm_obtain_fsm started pool = elim (get_idle_fsm 0 pool) [
  | none ↦ (none, pool)
  | some (i, fsm) ↦ elim started [
    | none ↦ (none, pool)
    | some l ↦ (some i, set pool i (record { in_use = true; fsm = prepared l fsm }))
  ]
]

-- How many places are in use.
abbrev pub used : List Slot → ℕ
used [] = 0
used (s ∷ pool) = let rest = used pool in if s.in_use then suc rest else rest

abbrev pub is_some {ℓ} : {A : Type ℓ} → Option A → Bool
is_some none = false
is_some (some a) = true

used_le : (pool : List Slot) → used pool ≤ length pool
used_le [] = omega arith
used_le (s ∷ pool) = ground (arith, used_le pool)

pub get_idle_fsm-none :
    (i : ℕ) (pool : List Slot) → get_idle_fsm i pool ≡ none → used pool ≡ length pool
unfolding get_idle_fsm
get_idle_fsm-none i [] e = refl
get_idle_fsm-none i (s ∷ pool) e = ground (arith, get_idle_fsm-none (i + 1) pool)

pub used-set :
    (i j : ℕ) (pool : List Slot) (fsm new : Fsm)
    → get_idle_fsm i pool ≡ some (j, fsm)
    → (i ≤ j)
      × (used (set pool (j - i) (record { in_use = true; fsm = new })) ≡ used pool + 1)
      × (used pool < length pool)
      × (j - i < length pool)
unfolding get_idle_fsm
used-set i j [] fsm new e = absurd (ground (arith, e))
used-set i j (s ∷ pool) fsm new e = elim (Bool-cases s.in_use) [
  | inl busy ↦
      let (after, one_more, room, within) = used-set (i + 1) j pool fsm new (rw busy at e) in
      let back : j - i ≡ suc (j - (i + 1)) = omega (arith, after) in
      (
        omega (arith, after),
        rw back (rw busy (omega (arith, one_more))),
        rw busy (omega (arith, room)),
        omega (arith, back, within),
      )
  | inr free ↦
      let here : ◌≡◌ {A = Option (ℕ × Fsm)} (some (i, s.fsm)) (some (j, fsm)) = rw free at e in
      let same : i ≡ j = cc here in
      let nought : j - i ≡ 0 = omega (arith, same) in
      (
        omega (arith, same),
        rw nought (rw free (omega arith)),
        rw free (omega (arith, used_le pool)),
        omega (arith, nought),
      )
]

obtained_none :
    (l : Loop) (pool : List Slot)
    → get_idle_fsm 0 pool ≡ none
    → sm_obtain_fsm (some l) pool ≡ (none, pool)
unfolding sm_obtain_fsm
obtained_none l pool e = rw (e, sm_obtain_fsm) refl

pub obtained :
    (l : Loop) (pool : List Slot) (i : ℕ) (fsm : Fsm)
    → get_idle_fsm 0 pool ≡ some (i, fsm)
    → sm_obtain_fsm (some l) pool
      ≡ (some i, set pool i (record { in_use = true; fsm = prepared l fsm }))
unfolding sm_obtain_fsm
obtained l pool i fsm e = rw (e, sm_obtain_fsm) refl

-- With its thread started, a machine is taken from the pool exactly if a place is free; then one
-- more is in use, and otherwise as many as before. The pool keeps its size.
pub sm_obtain_fsm-used :
    (l : Loop) (pool : List Slot)
    → let r = sm_obtain_fsm (some l) pool in
      let free = ltb (used pool) (length pool) in
      (is_some r.0 ≡ free)
      × (used r.1 ≡ (if free then used pool + 1 else used pool))
      × (length r.1 ≡ length pool)
sm_obtain_fsm-used l pool = elim (Option-cases (get_idle_fsm 0 pool)) [
  | inl e ↦
      let full : ltb (used pool) (length pool) ≡ false =
        ground (arith, get_idle_fsm-none 0 pool e) in
      rw (obtained_none l pool e, full) (refl, refl, refl)
  | inr ((i, fsm), e) ↦
      let (after, one_more, room, within) = used-set 0 i pool fsm (prepared l fsm) e in
      let free : ltb (used pool) (length pool) ≡ true = ground (arith, room) in
      let place : i - 0 ≡ i = omega arith in
      rw (obtained l pool i fsm e, free) (refl, rw place at one_more, length-set pool i _)
]
