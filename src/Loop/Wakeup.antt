-- ===== src/Loop/Wakeup.antt =====
-- upil_event/upil_event_wrapper.c: what wakes the loop up, and how the pipe is emptied.
use upil.Common.{
  ℕ, zero, suc, ◌+◌, ◌-◌, ◌<◌, ◌≡◌, refl, Bool, true, false, none, some, List, [], ◌∷◌, arith, ◌==◌,
  min, replicate, if◌then◌else◌,
}
use upil.Loop.Defs.{event_init, event_set, event_add, free_slot}
use upil.Loop.Thread.{
  Context, process_wakeup, trigger_ev_loop, event_add_wakeup, wrapped_set, event_thread,
}

-- How many reads of the list are interrupted.
abbrev pub interruptions : List Bool → ℕ
interruptions [] = 0
interruptions (t ∷ signals) = (if t then 1 else 0) + interruptions signals

-- However often it is interrupted, the callback of the pipe returns with the pipe empty: as many
-- rounds as there are bytes and interruptions are enough, and one more.
pub process_wakeup_empties :
    (signals : List Bool) (piped fuel : ℕ)
    → piped + interruptions signals < fuel
    → process_wakeup fuel signals piped ≡ some 0
unfolding process_wakeup
process_wakeup_empties signals piped zero h = elim h [ ]
process_wakeup_empties [] zero (suc fuel) h = refl
process_wakeup_empties [] (suc k) (suc fuel) h =
    process_wakeup_empties [] (suc k - min 16 (suc k)) fuel (omega arith)
process_wakeup_empties (true ∷ signals) piped (suc fuel) h =
    process_wakeup_empties signals piped fuel (omega arith)
process_wakeup_empties (false ∷ signals) zero (suc fuel) h = refl
process_wakeup_empties (false ∷ signals) (suc k) (suc fuel) h =
    process_wakeup_empties signals (suc k - min 16 (suc k)) fuel (omega arith)

-- Once the thread has its pipe, it comes to the loop, which watches the reading end, and nothing
-- else, for as long as it is not deleted; the pipe is empty, and no timer is set.
pub event_thread_watches :
    (r w : ℕ) (c : Context)
    → let (runs, c') = event_thread (some (r, w)) c in
      let l = c'.upile in
      (runs ≡ true)
      × (l.watch_table ≡ some c.wakeupfd_event ∷ replicate 15 none)
      × ((fd : ℕ) → l.read_fds fd ≡ (fd == r))
      × (l.nfds ≡ r + 1)
      × ((l.events c.wakeupfd_event).persist ≡ true)
      × (l.timers ≡ [])
      × (c'.piped ≡ 0)
unfolding event_thread event_add_wakeup trigger_ev_loop wrapped_set event_set event_add event_init
    free_slot
event_thread_watches r w c =
    (refl, refl, λ fd. ground arith, ground arith, ground arith, refl, refl)
