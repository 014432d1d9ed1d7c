-- ===== src/Loop/Fire.antt =====
-- `firePending` calls the events of the pending list in order; a callback that takes the event
-- behind its own off the list breaks it.
use upil.Common.{ℕ, suc, ◌≡◌, refl, ap, Bool, true, false, none, some, List, [], ◌∷◌, arith, length}
use upil.Loop.Defs.{Loop, mem, remove_from_list, next_of, first, fire_on, fire_from, fire_pending}

-- The events `evs` called one after the other, each taken off the pending list first.
abbrev pub fired : (ℕ → Loop → Loop × Bool) → List ℕ → Loop → Loop
fired func [] l = l
fired func (ev ∷ evs) l = fired func evs (func ev (record l { pending = evs })).0

-- A callback leaves the pending list alone, puts nothing of it among the timers, and does not
-- return a negative value.
pub record IsTame (func : ℕ → Loop → Loop × Bool) : Type 0 where
  pub same_pending : (ev : ℕ) (l : Loop) → (func ev l).0.pending ≡ l.pending
  pub apart :
      (ev : ℕ) (l : Loop)
      → ((k : ℕ) → mem k l.pending ≡ true → mem k l.timers ≡ false)
      → ((k : ℕ) → mem k l.pending ≡ true → mem k (func ev l).0.timers ≡ false)
  pub goes_on : (ev : ℕ) (l : Loop) → (func ev l).1 ≡ false

pub take_first :
    (ev : ℕ) (evs : List ℕ) (l : Loop)
    → l.pending ≡ ev ∷ evs
    → mem ev l.timers ≡ false
    → remove_from_list ev l ≡ some (record l { pending = evs })
unfolding remove_from_list
take_first ev evs l e h = rw h (ground (arith, e))

pub next_of-first : (ev : ℕ) (evs : List ℕ) → next_of ev (ev ∷ evs) ≡ first evs
unfolding next_of
next_of-first ev [] = refl
next_of-first ev (y ∷ evs) = ground arith

fire_from-fired :
    (func : ℕ → Loop → Loop × Bool) (evs : List ℕ) (l : Loop)
    → IsTame func
    → l.pending ≡ evs
    → ((k : ℕ) → mem k l.pending ≡ true → mem k l.timers ≡ false)
    → fire_from (length evs) func (first evs) l ≡ some (fired func evs l, false)
unfolding fire_on
fire_from-fired func [] l t e apart = refl
fire_from-fired func (ev ∷ evs) l t e apart =
    let here : mem ev l.pending ≡ true = rw e (unfold mem in ground arith) in
    let l1 : Loop = record l { pending = evs } in
    let apart1 = λ (k : ℕ) (m : mem k evs ≡ true). apart k (rw e (unfold mem in ground arith)) in
    rw (take_first ev evs l e (apart ev here), t.goes_on ev l1, e, next_of-first ev evs)
      (fire_from-fired func evs (func ev l1).0 t (t.same_pending ev l1)
        (λ k m. t.apart ev l1 apart1 k (rw (t.same_pending ev l1) at m)))

fired_none :
    (func : ℕ → Loop → Loop × Bool) (evs : List ℕ) (l : Loop)
    → IsTame func
    → l.pending ≡ evs
    → (fired func evs l).pending ≡ []
fired_none func [] l t e = e
fired_none func (ev ∷ evs) l t e =
    fired_none func evs (func ev (record l { pending = evs })).0 t
      (t.same_pending ev (record l { pending = evs }))

-- With callbacks that leave the pending list alone, put none of its events among the timers, and
-- return no negative value, and with no pending event among the timers, `firePending` ends in as
-- many rounds as there are pending events: it has called each in order, and none is left.
pub fire_pending-fired :
    (func : ℕ → Loop → Loop × Bool) (l : Loop)
    → IsTame func
    → ((k : ℕ) → mem k l.pending ≡ true → mem k l.timers ≡ false)
    → (fire_pending (length l.pending) func l ≡ some (fired func l.pending l, false))
      × ((fired func l.pending l).pending ≡ [])
unfolding fire_pending
fire_pending-fired func l t apart =
    (fire_from-fired func l.pending l t refl apart, fired_none func l.pending l t refl)

-- If the callback of the first pending event takes the second one off the pending list and leaves
-- it in no list, `firePending` goes on with that event and reads its null links.
pub fire_pending_unlinked :
    (fuel : ℕ) (func : ℕ → Loop → Loop × Bool) (l : Loop) (a b : ℕ) (rest : List ℕ)
    → let l1 = record l { pending = b ∷ rest } in
      l.pending ≡ a ∷ b ∷ rest
      → mem a l.timers ≡ false
      → (func a l1).1 ≡ false
      → mem b (func a l1).0.timers ≡ false
      → mem b (func a l1).0.pending ≡ false
      → fire_pending (suc (suc fuel)) func l ≡ none
unfolding fire_pending
fire_pending_unlinked fuel func l a b rest e apart goes_on off_timers off_pending =
    let first_off = take_first a (b ∷ rest) l e apart in
    let second : remove_from_list b (func a (record l { pending = b ∷ rest })).0 ≡ none =
      unfold remove_from_list in rw (off_timers, off_pending) in
    rw (ap first e) (
      unfold fire_on in
      rw (first_off, goes_on, ap (next_of a) e, next_of-first a (b ∷ rest)) (rw second))
