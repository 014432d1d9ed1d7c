-- ===== src/Loop/Timers.antt =====
-- The timers of the loop stay in the order of their ends, and those that have ended fire in it.
use upil.Common.{
  ℕ, ◌+◌, ◌-◌, ◌≤◌, ◌≡◌, refl, ap, ◌∙◌, inl, inr, Bool, false, not, none, some, List, [], ◌∷◌, ◌++◌,
  Bool-cases, arith, ◌==◌, if◌then◌else◌,
}
use upil.Loop.Time.{
  Timeval, timeradd, timer_lt, timersub, zero_time, usecs, IsNormal, timeradd-usecs, timer_lt→lt,
  timer_lt→le, timersub-usecs,
}
use upil.Loop.Defs.{
  UpilEvent, Loop, update, mem, expire, process_timeouts, calc_next_timeout, insert_timer,
  timer_add,
}

abbrev pub All {ℓ} : (ℕ → Type ℓ) → List ℕ → Type ℓ
All P [] = Unit
All P (x ∷ xs) = P x × All P xs

-- The end of a timer, in microseconds.
abbrev pub ends : (ℕ → UpilEvent) → ℕ → ℕ
ends events ev = usecs (events ev).timeout

-- Every timer has a normal time, and none ends before one in front of it.
abbrev pub IsOrdered : (ℕ → UpilEvent) → List ℕ → Type 0
IsOrdered events [] = Unit
IsOrdered events (x ∷ xs) =
    IsNormal (events x).timeout × All (λ y. ends events x ≤ ends events y) xs × IsOrdered events xs

All-le_trans :
    (f : ℕ → ℕ) (a b : ℕ) (xs : List ℕ) → a ≤ b → All (λ y. b ≤ f y) xs → All (λ y. a ≤ f y) xs
All-le_trans f a b [] h k = tt
All-le_trans f a b (x ∷ xs) h k = (omega arith, All-le_trans f a b xs h k.1)

All-insert :
    (events : ℕ → UpilEvent) (f : ℕ → ℕ) (a ev : ℕ) (t : Timeval) (xs : List ℕ)
    → a ≤ f ev
    → All (λ y. a ≤ f y) xs
    → All (λ y. a ≤ f y) (insert_timer events ev t xs)
unfolding insert_timer
All-insert events f a ev t [] h k = (h, tt)
All-insert events f a ev t (x ∷ xs) h k = elim (Bool-cases (timer_lt (events x).timeout t)) [
  | inl before ↦ rw before (k.0, All-insert events f a ev t xs h k.1)
  | inr behind ↦ rw behind (h, k)
]

insert_timer-IsOrdered :
    (events : ℕ → UpilEvent) (ev : ℕ) (t : Timeval) (xs : List ℕ)
    → IsNormal t
    → (events ev).timeout ≡ t
    → IsOrdered events xs
    → IsOrdered events (insert_timer events ev t xs)
unfolding insert_timer
insert_timer-IsOrdered events ev t [] n e o = (rw e n, tt, tt)
insert_timer-IsOrdered events ev t (x ∷ xs) n e o =
    elim (Bool-cases (timer_lt (events x).timeout t)) [
      | inl before ↦ rw before (
        o.0,
        All-insert events (ends events) (ends events x) ev t xs
            (rw e (omega (arith, timer_lt→lt (events x).timeout t o.0 n before))) o.1,
        insert_timer-IsOrdered events ev t xs n e o.2,
      )
      | inr behind ↦
          let le : ends events ev ≤ ends events x =
            rw e (timer_lt→le (events x).timeout t o.0 n behind) in
          rw behind
            (rw e n, (le, All-le_trans (ends events) (ends events ev) (ends events x) xs le o.1), o)
    ]

-- A change of an event that is not in a list.
All-update :
    (events : ℕ → UpilEvent) (ev a : ℕ) (e : UpilEvent) (xs : List ℕ)
    → mem ev xs ≡ false
    → All (λ y. a ≤ ends events y) xs
    → All (λ y. a ≤ ends (update events ev e) y) xs
unfolding mem
All-update events ev a e [] h k = tt
All-update events ev a e (x ∷ xs) h k =
    (ground arith, All-update events ev a e xs (ground arith) k.1)

update-IsOrdered :
    (events : ℕ → UpilEvent) (ev : ℕ) (e : UpilEvent) (xs : List ℕ)
    → mem ev xs ≡ false
    → IsOrdered events xs
    → IsOrdered (update events ev e) xs
unfolding mem
update-IsOrdered events ev e [] h o = tt
update-IsOrdered events ev e (x ∷ xs) h o =
    let same : (x == ev) ≡ false = ground arith in
    rw same (
      o.0,
      All-update events ev (ends events x) e xs (ground arith) o.1,
      update-IsOrdered events ev e xs (ground arith) o.2,
    )

-- An event that is in no timer list is put into it behind the timers that end before it, so that
-- the list stays in order; it ends `tv` after `now`.
pub timer_add-IsOrdered :
    (l : Loop) (ev : ℕ) (now tv : Timeval)
    → IsNormal now
    → IsNormal tv
    → mem ev l.timers ≡ false
    → IsOrdered l.events l.timers
    → let l' = timer_add now ev (some tv) l in
      IsOrdered l'.events l'.timers × (ends l'.events ev ≡ usecs now + usecs tv)
unfolding timer_add
timer_add-IsOrdered l ev now tv n n' h o =
    let t = timeradd now tv in
    let e : UpilEvent = record (l.events ev) { fd = none; timeout = t } in
    let sum = timeradd-usecs now tv n n' in
    let self : update l.events ev e ev ≡ e = ground arith in
    (
      insert_timer-IsOrdered (update l.events ev e) ev t l.timers sum.1
          (ap (λ (x : UpilEvent). x.timeout) self) (update-IsOrdered l.events ev e l.timers h o),
      ap (λ (x : UpilEvent). usecs x.timeout) self ∙ sum.0,
    )

-- The elements that pass a test.
abbrev pub keep : (ℕ → Bool) → List ℕ → List ℕ
keep p [] = []
keep p (x ∷ xs) = let rest = keep p xs in if p x then x ∷ rest else rest

-- `timercmp(&now, &tev->timeout, >)`
abbrev pub has_ended : (ℕ → UpilEvent) → Timeval → ℕ → Bool
has_ended events now ev = timer_lt (events ev).timeout now

none_ended :
    (events : ℕ → UpilEvent) (now : Timeval) (xs : List ℕ)
    → IsNormal now
    → IsOrdered events xs
    → All (λ y. usecs now ≤ ends events y) xs
    → (keep (has_ended events now) xs ≡ []) × (keep (λ y. not (has_ended events now y)) xs ≡ xs)
none_ended events now [] n o h = (refl, refl)
none_ended events now (x ∷ xs) n o h = elim (Bool-cases (has_ended events now x)) [
  | inl ended ↦ absurd (omega (arith, timer_lt→lt (events x).timeout now o.0 n ended))
  | inr lasts ↦
      let rest = none_ended events now xs n o.2 h.1 in
      (rw lasts rest.0, rw lasts (ap (◌∷◌ x) rest.1))
]

expire-keep :
    (events : ℕ → UpilEvent) (now : Timeval) (xs : List ℕ)
    → IsNormal now
    → IsOrdered events xs
    → expire events now xs
      ≡ (keep (λ y. not (has_ended events now y)) xs, keep (has_ended events now) xs)
unfolding expire
expire-keep events now [] n o = refl
expire-keep events now (x ∷ xs) n o = elim (Bool-cases (has_ended events now x)) [
  | inl ended ↦ rw (ended, expire-keep events now xs n o.2)
  | inr lasts ↦
      let le = timer_lt→le (events x).timeout now o.0 n lasts in
      let rest =
        none_ended events now xs n o.2
          (All-le_trans (ends events) (usecs now) (ends events x) xs le o.1) in
      rw (lasts, rest.0, rest.1)
]

-- With the timers in order, `processTimeouts` moves exactly those that have ended, in their order,
-- to the end of the pending list, and leaves the others as they are.
pub process_timeouts-keep :
    (l : Loop) (now : Timeval)
    → IsNormal now
    → IsOrdered l.events l.timers
    → process_timeouts now l ≡ record l {
      timers = keep (λ y. not (has_ended l.events now y)) l.timers;
      pending = l.pending ++ keep (has_ended l.events now) l.timers;
    }
unfolding process_timeouts
process_timeouts-keep l now n o =
    ap (λ (r : List ℕ × List ℕ). record l { timers = r.0; pending = l.pending ++ r.1 })
      (expire-keep l.events now l.timers n o)

left_over : Timeval → Timeval → Timeval
left_over now t = if timer_lt now t then timersub t now else zero_time

left_over-usecs :
    (now t : Timeval)
    → IsNormal now
    → IsNormal t
    → IsNormal (left_over now t) × (usecs (left_over now t) ≡ usecs t - usecs now)
unfolding left_over
left_over-usecs now t n n' = elim (Bool-cases (timer_lt now t)) [
  | inl later ↦
      let le = timer_lt→lt now t n n' later in
      let difference = timersub-usecs t now n' n (omega arith) in
      rw later (difference.1, omega (arith, difference.0))
  | inr ended ↦ rw ended (omega arith, omega (arith, timer_lt→le now t n n' ended))
]

-- With the timers in order and `ev` the first, `calcNextTimeout` gives the time left to its end,
-- which is 0 if that has passed, and no timer ends before `ev`.
pub calc_next_timeout_first :
    (l : Loop) (now : Timeval) (ev : ℕ) (rest : List ℕ)
    → IsNormal now
    → l.timers ≡ ev ∷ rest
    → IsOrdered l.events l.timers
    → (tv : Timeval) × (calc_next_timeout now l ≡ some tv)
      × IsNormal tv
      × (usecs tv ≡ ends l.events ev - usecs now)
      × All (λ y. ends l.events ev ≤ ends l.events y) rest
unfolding calc_next_timeout left_over
calc_next_timeout_first l now ev rest n e o =
    let first = rw e at o in
    let left = left_over-usecs now (l.events ev).timeout n first.0 in
    (left_over now (l.events ev).timeout, rw (e, calc_next_timeout), left.0, left.1, first.1)
