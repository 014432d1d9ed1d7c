-- ===== src/Tests/Loops.antt =====
-- upil_event/: the loop with two timers and a watched descriptor of Tests/Events.
use upil.Common.{
  ℕ, ◌+◌, ◌≡◌, refl, true, false, none, some, [], ◌∷◌, arith, length, ◌==◌, if◌then◌else◌, get_or,
  zero, suc,
}
use upil.Loop.Time.{timer_lt, zero_time, usecs}
use upil.Loop.Defs.{Loop, mem, timer_add, timer_del, process_timeouts}
use upil.Loop.Deadlines.{
  Deadlines, set_deadline, clear_deadline, clear_passed, Implements, timers-Implements,
}
use upil.Loop.Fire.{fired}
use upil.Loop.Thread.{Round, found, gathered, event_round, process_wakeup}
use upil.Loop.Rounds.{IsApart, event_round-fired}
use upil.Loop.Wakeup.{process_wakeup_empties}
use upil.Tests.Events.{loop, loop-IsOrdered, half_past_one, idle_func, idle_func-IsTame}

-- Event 1 ends after one second, event 2 after two.
abbrev ends_of : Deadlines
ends_of n = if n == 1 then some 1000000 else if n == 2 then some 2000000 else none

loop-Implements : Implements loop ends_of
unfolding mem
loop-Implements = record {
  ordered = loop-IsOrdered;
  once = (refl, (refl, tt));
  agrees = λ ev. ground arith;
}

timers-Implements_example :
    Implements
      (timer_add zero_time 4 (some half_past_one) loop)
      (set_deadline 4 (usecs zero_time + usecs half_past_one) ends_of)
    × ((l' : Loop) × (timer_del 2 loop ≡ some l') × Implements l' (clear_deadline 2 ends_of))
    × Implements (process_timeouts zero_time loop) (clear_passed (usecs zero_time) ends_of)
unfolding mem
timers-Implements_example =
    timers-Implements loop ends_of 4 2 2000000 zero_time half_past_one (omega arith) (omega arith)
      loop-Implements refl refl

-- A wait that ends at half past one, with the descriptor 5 ready.
abbrev half_wait : Round
half_wait = record {
  before = zero_time;
  select = λ nfds read_fds tv. found 1 (λ fd. fd == 5);
  after = half_past_one;
}

loop-IsApart : IsApart loop
unfolding mem
loop-IsApart = record {
  pending_apart = λ k m. ground (arith, m);
  watched_apart = λ i k e. only_third i k e;
}
  where
    only_third :
        (i k : ℕ) → get_or (some 3 ∷ none ∷ []) i none ≡ some k → mem k (1 ∷ 2 ∷ []) ≡ false
    only_third zero k e = ground (arith, e)
    only_third (suc zero) k e = absurd (ground (arith, e))
    only_third (suc (suc i)) k e = absurd (ground (arith, e))

event_round-fired_example :
    let l1 = gathered half_past_one (λ fd. fd == 5) 1 loop in
    (event_round (length l1.pending) idle_func half_wait loop
      ≡ some (fired idle_func l1.pending l1, false))
    × (mem 1 l1.pending ≡ true)
    × (mem 1 l1.timers ≡ false)
    × ((fired idle_func l1.pending l1).pending ≡ [])
unfolding mem timer_lt
event_round-fired_example =
    event_round-fired idle_func half_wait loop 1 1 (λ fd. fd == 5) refl (omega arith) loop-IsOrdered
      loop-IsApart idle_func-IsTame refl refl

process_wakeup_empties_example : process_wakeup 43 (true ∷ false ∷ true ∷ []) 40 ≡ some 0
process_wakeup_empties_example =
    process_wakeup_empties (true ∷ false ∷ true ∷ []) 40 43 (omega arith)
