-- ===== src/Loop/Deadlines.antt =====
-- upil_event/upil_event.c: the timer list as a table of deadlines, which forgets the order.
use upil.Common.{
  ℕ, ◌+◌, ◌≡◌, refl, ap, ◌∙◌, sym, inl, inr, Bool, true, false, not, ◌&&◌, ◌||◌, Option, none, some,
  List, [], ◌∷◌, Bool-cases, arith, ltb, ◌==◌, if◌then◌else◌,
}
use upil.Loop.Time.{Timeval, timeradd, usecs, IsNormal, timer_lt, timer_lt→lt, timer_lt→le}
use upil.Loop.Defs.{
  UpilEvent, Loop, mem, erase, process_timeouts, insert_timer, timer_add, timer_del,
  remove_from_list,
}
use upil.Loop.Timers.{
  All, ends, IsOrdered, keep, has_ended, timer_add-IsOrdered, process_timeouts-keep,
}

-- When each timer ends, in microseconds; `none` for an event that is no timer.
abbrev pub Deadlines : Type 0
Deadlines = ℕ → Option ℕ

abbrev pub set_deadline : ℕ → ℕ → Deadlines → Deadlines
set_deadline ev t d n = if n == ev then some t else d n

abbrev pub clear_deadline : ℕ → Deadlines → Deadlines
clear_deadline ev d n = if n == ev then none else d n

-- Those that have passed at time `t` are cleared.
abbrev pub clear_passed : ℕ → Deadlines → Deadlines
clear_passed t d n = elim (d n) [ none ↦ none | some e ↦ if ltb e t then none else some e ]

abbrev pub deadline : (ℕ → UpilEvent) → List ℕ → Deadlines
deadline events timers ev = if mem ev timers then some (ends events ev) else none

-- No event stands twice in the list.
abbrev pub IsOnce : List ℕ → Type 0
IsOnce [] = Unit
IsOnce (x ∷ xs) = (mem x xs ≡ false) × IsOnce xs

-- The loop's timers are those of the table, in the order of their ends.
pub record Implements (l : Loop) (d : Deadlines) : Type 0 where
  pub ordered : IsOrdered l.events l.timers
  pub once : IsOnce l.timers
  pub agrees : (ev : ℕ) → deadline l.events l.timers ev ≡ d ev

pub mem_insert :
    (events : ℕ → UpilEvent) (k ev : ℕ) (t : Timeval) (xs : List ℕ)
    → mem k (insert_timer events ev t xs) ≡ (ev == k || mem k xs)
unfolding mem insert_timer
mem_insert events k ev t [] = refl
mem_insert events k ev t (x ∷ xs) = ground (arith, mem_insert events k ev t xs)

insert-IsOnce :
    (events : ℕ → UpilEvent) (ev : ℕ) (t : Timeval) (xs : List ℕ)
    → mem ev xs ≡ false
    → IsOnce xs
    → IsOnce (insert_timer events ev t xs)
unfolding mem insert_timer
insert-IsOnce events ev t [] n o = (refl, tt)
insert-IsOnce events ev t (x ∷ xs) n o = elim (Bool-cases (timer_lt (events x).timeout t)) [
  | inl before ↦ rw before (
    ground (arith, mem_insert events x ev t xs, n, o.0),
    insert-IsOnce events ev t xs (ground (arith, n)) o.1,
  )
  | inr behind ↦ rw behind (n, o)
]

pub mem-keep : (p : ℕ → Bool) (k : ℕ) (xs : List ℕ) → mem k (keep p xs) ≡ (mem k xs && p k)
unfolding mem
mem-keep p k [] = refl
mem-keep p k (x ∷ xs) = ground (arith, mem-keep p k xs)

keep-IsOnce : (p : ℕ → Bool) (xs : List ℕ) → IsOnce xs → IsOnce (keep p xs)
keep-IsOnce p [] o = tt
keep-IsOnce p (x ∷ xs) o = elim (Bool-cases (p x)) [
  | inl stays ↦ rw stays (mem-keep p x xs ∙ ground (arith, o.0), keep-IsOnce p xs o.1)
  | inr goes ↦ rw goes (keep-IsOnce p xs o.1)
]

All-keep : (P : ℕ → Type 0) (p : ℕ → Bool) (xs : List ℕ) → All P xs → All P (keep p xs)
All-keep P p [] h = tt
All-keep P p (x ∷ xs) h = elim (Bool-cases (p x)) [
  | inl stays ↦ rw stays (h.0, All-keep P p xs h.1)
  | inr goes ↦ rw goes (All-keep P p xs h.1)
]

keep-IsOrdered :
    (events : ℕ → UpilEvent) (p : ℕ → Bool) (xs : List ℕ)
    → IsOrdered events xs
    → IsOrdered events (keep p xs)
keep-IsOrdered events p [] o = tt
keep-IsOrdered events p (x ∷ xs) o = elim (Bool-cases (p x)) [
  | inl stays ↦ rw stays (o.0, All-keep _ p xs o.1, keep-IsOrdered events p xs o.2)
  | inr goes ↦ rw goes (keep-IsOrdered events p xs o.2)
]

keep_all : (g : ℕ) (xs : List ℕ) → mem g xs ≡ false → keep (λ k. not (k == g)) xs ≡ xs
unfolding mem
keep_all g [] h = refl
keep_all g (x ∷ xs) h = ground (arith, h, keep_all g xs)

-- Taking a timer out of a list that holds it once.
erase-keep : (g : ℕ) (xs : List ℕ) → IsOnce xs → erase g xs ≡ keep (λ k. not (k == g)) xs
unfolding erase mem
erase-keep g [] o = refl
erase-keep g (x ∷ xs) o = elim (Bool-cases (x == g)) [
  | inl here ↦
      rw here (let same : x ≡ g = ground (arith, here) in sym (keep_all g xs (rw same at o.0)))
  | inr other ↦ rw other (ap (◌∷◌ x) (erase-keep g xs o.1))
]

IsNormal-at :
    (events : ℕ → UpilEvent) (k : ℕ) (xs : List ℕ)
    → IsOrdered events xs
    → mem k xs ≡ true
    → IsNormal (events k).timeout
unfolding mem
IsNormal-at events k [] o m = absurd (ground (arith, m))
IsNormal-at events k (x ∷ xs) o m = elim (Bool-cases (x == k)) [
  | inl here ↦ let same : x ≡ k = ground (arith, here) in rw same at o.0
  | inr other ↦ IsNormal-at events k xs o.2 (ground (arith, m, other))
]

has_ended_lem :
    (events : ℕ → UpilEvent) (now : Timeval) (k : ℕ)
    → IsNormal now
    → IsNormal (events k).timeout
    → has_ended events now k ≡ ltb (ends events k) (usecs now)
has_ended_lem events now k n n' = elim (Bool-cases (has_ended events now k)) [
  | inl e ↦ ground (arith, e, timer_lt→lt (events k).timeout now n' n e)
  | inr e ↦ ground (arith, e, timer_lt→le (events k).timeout now n' n e)
]

deadline_in :
    (l : Loop) (d : Deadlines) (k t : ℕ) → Implements l d → d k ≡ some t → mem k l.timers ≡ true
deadline_in l d k t i e = ground (arith, i.agrees k, e)

deadline_out :
    (l : Loop) (d : Deadlines) (k : ℕ) → Implements l d → d k ≡ none → mem k l.timers ≡ false
deadline_out l d k i e = ground (arith, i.agrees k, e)

-- The deadlines after `upil_timer_add`.
added_deadline :
    (l : Loop) (d : Deadlines) (ev : ℕ) (now tv : Timeval) (k : ℕ)
    → deadline l.events l.timers k ≡ d k
    → let l' = timer_add now ev (some tv) l in
      ends l'.events ev ≡ usecs now + usecs tv
      → deadline l'.events l'.timers k ≡ set_deadline ev (usecs now + usecs tv) d k
unfolding timer_add
added_deadline l d ev now tv k same end =
    rw (mem_insert _ k ev (timeradd now tv) l.timers) (elim (Bool-cases (k == ev)) [
      | inl here ↦ ground (arith, here, end)
      | inr other ↦ ground (arith, other, same)
    ])

timer_add-Implements :
    (l : Loop) (d : Deadlines) (ev : ℕ) (now tv : Timeval)
    → IsNormal now
    → IsNormal tv
    → Implements l d
    → d ev ≡ none
    → Implements (timer_add now ev (some tv) l) (set_deadline ev (usecs now + usecs tv) d)
timer_add-Implements l d ev now tv n n' i e =
    let out = deadline_out l d ev i e in
    let added = timer_add-IsOrdered l ev now tv n n' out i.ordered in
    record {
      ordered = added.0;
      once = unfold timer_add in insert-IsOnce _ ev _ l.timers out i.once;
      agrees = λ k. added_deadline l d ev now tv k (i.agrees k) added.1;
    }

erased :
    (l : Loop) (ev : ℕ)
    → mem ev l.timers ≡ true
    → timer_del ev l ≡ some (record l { timers = erase ev l.timers })
unfolding remove_from_list
erased l ev m = rw m refl

timer_del-Implements :
    (l : Loop) (d : Deadlines) (ev t : ℕ)
    → Implements l d
    → d ev ≡ some t
    → (l' : Loop) × (timer_del ev l ≡ some l') × Implements l' (clear_deadline ev d)
timer_del-Implements l d ev t i e =
    let others = erase-keep ev l.timers i.once in
    (
      record l { timers = erase ev l.timers },
      erased l ev (deadline_in l d ev t i e),
      record {
        ordered = rw others (keep-IsOrdered l.events _ l.timers i.ordered);
        once = rw others (keep-IsOnce _ l.timers i.once);
        agrees =
            λ k. rw (others, mem-keep (λ k. not (k == ev)) k l.timers) (ground (arith, i.agrees k));
      },
    )

process_timeouts-Implements :
    (l : Loop) (d : Deadlines) (now : Timeval)
    → IsNormal now
    → Implements l d
    → Implements (process_timeouts now l) (clear_passed (usecs now) d)
process_timeouts-Implements l d now n i =
    let stays = λ (k : ℕ). not (has_ended l.events now k) in
    rw (process_timeouts-keep l now n i.ordered) (record {
      ordered = keep-IsOrdered l.events stays l.timers i.ordered;
      once = keep-IsOnce stays l.timers i.once;
      agrees = λ k. rw (mem-keep stays k l.timers) (elim (Bool-cases (mem k l.timers)) [
        | inl m ↦ ground (
          arith,
          m,
          i.agrees k,
          has_ended_lem l.events now k n (IsNormal-at l.events k l.timers i.ordered m),
        )
        | inr m ↦ ground (arith, m, i.agrees k)
      ]);
    })

-- The timer list implements a table of deadlines. With no deadline set for `ev`, adding a timer for
-- it sets the deadline `tv` after `now`; deleting a timer that has a deadline is done without a
-- fault and clears it; and the pass over the timers clears the deadlines that have passed. No other
-- deadline changes.
pub timers-Implements :
    (l : Loop) (d : Deadlines) (ev gone t : ℕ) (now tv : Timeval)
    → IsNormal now
    → IsNormal tv
    → Implements l d
    → d ev ≡ none
    → d gone ≡ some t
    → Implements (timer_add now ev (some tv) l) (set_deadline ev (usecs now + usecs tv) d)
      × ((l' : Loop) × (timer_del gone l ≡ some l') × Implements l' (clear_deadline gone d))
      × Implements (process_timeouts now l) (clear_passed (usecs now) d)
timers-Implements l d ev gone t now tv n n' i e e' = (
  timer_add-Implements l d ev now tv n n' i e,
  timer_del-Implements l d gone t i e',
  process_timeouts-Implements l d now n i,
)
