-- ===== src/Loop/Thread.antt =====
-- upil_event/upil_event.c, `upil_event_loop`, and upil_event_wrapper.c: the thread that runs the
-- loop, and the pipe that other threads wake it up with. The bytes in the pipe are counted.
use upil.Common.{
  ℕ, zero, suc, ◌+◌, ◌-◌, Bool, true, false, not, Option, none, some, List, [], ◌∷◌, ◌==◌,
  if◌then◌else◌, min,
}
use upil.Common.Memory.{◌>>=◌}
use upil.Loop.Time.{Timeval, of_msec}
use upil.Loop.Defs.{
  Loop, calc_next_timeout, process_timeouts, process_read_readies, fire_pending, event_init,
  event_set, event_add, event_del, timer_add, timer_del,
}

-- What `select` returns: an error, with or without EINTR in `errno`, or how many descriptors are
-- ready, and which.
pub data Selected : Type 0 where
  failed : Bool → Selected
  found : ℕ → (ℕ → Bool) → Selected

-- What one round of the loop gets from the system: the readings of `getNow` before and after the
-- wait, and `select` of `nfds`, the watched descriptors and the time to wait, `none` being NULL.
pub record Round : Type 0 where
  pub before : Timeval
  pub select : ℕ → (ℕ → Bool) → Option Timeval → Selected
  pub after : Timeval

-- The events that one round fires, in the loop as it is before the first of them.
unfoldable pub gathered : Timeval → (ℕ → Bool) → ℕ → Loop → Loop
gathered after ready n l = process_read_readies ready n (process_timeouts after l)

-- One round of `upil_event_loop`; the result is true if the loop is left. `fuel` is that of
-- `firePending`.
unfoldable pub event_round : ℕ → (ℕ → Loop → Loop × Bool) → Round → Loop → Option (Loop × Bool)
unfolding gathered
event_round fuel func r l = elim (r.select l.nfds l.read_fds (calc_next_timeout r.before l)) [
  | failed interrupted ↦ some (l, not interrupted)
  | found n ready ↦ fire_pending fuel func (gathered r.after ready n l)
]

-- `upil_event_loop` over the rounds given; the result is true if the loop was left.
unfoldable pub event_loop : ℕ → (ℕ → Loop → Loop × Bool) → List Round → Loop → Option (Loop × Bool)
event_loop fuel func [] l = some (l, false)
event_loop fuel func (r ∷ rs) l = event_round fuel func r l >>= λ (l', left).
    let rest = event_loop fuel func rs l' in if left then some (l', true) else rest

-- `uew_context`; `none` for a descriptor that is not set, and `piped` is what is in the pipe.
pub record Context : Type 0 where
  pub upile : Loop
  pub fd_wakeup_read : Option ℕ
  pub fd_wakeup_write : Option ℕ
  pub wakeupfd_event : ℕ
  pub piped : ℕ

-- The loop of `processWakeupCallback`, on fuel. `signals` tells of each `read` to come whether it is
-- interrupted, and none is once the list has ended. A `read` takes 16 bytes at most; of an empty
-- pipe it fails, with another error than EINTR.
unfoldable pub process_wakeup : ℕ → List Bool → ℕ → Option ℕ
process_wakeup zero signals piped = none
process_wakeup (suc fuel) (true ∷ signals) piped = process_wakeup fuel signals piped
process_wakeup (suc fuel) (false ∷ signals) zero = some zero
process_wakeup (suc fuel) (false ∷ signals) (suc k) =
    process_wakeup fuel signals (suc k - min 16 (suc k))
process_wakeup (suc fuel) [] zero = some zero
process_wakeup (suc fuel) [] (suc k) = process_wakeup fuel [] (suc k - min 16 (suc k))

-- `triggerEvLoop`: a byte for the loop, unless its own thread calls. An interrupted `write` is made
-- again, and `written` tells whether the last one succeeds.
unfoldable pub trigger_ev_loop : Bool → Bool → Context → Context
trigger_ev_loop own_thread written c =
    if own_thread then c else if written then record c { piped = c.piped + 1 } else c

-- `uew_event_add_wakeup`
unfoldable pub event_add_wakeup : Bool → Bool → ℕ → Context → Context
unfolding trigger_ev_loop
event_add_wakeup own_thread written ev c =
    trigger_ev_loop own_thread written (record c { upile = event_add ev c.upile })

-- `uew_timer_add_wakeup`, at the time `now`
unfoldable pub timer_add_wakeup : Bool → Bool → Timeval → ℕ → ℕ → Context → Context
unfolding trigger_ev_loop
timer_add_wakeup own_thread written now ev msec c =
    trigger_ev_loop own_thread written
      (record c { upile = timer_add now ev (some (of_msec msec)) c.upile })

-- `uew_event_del`; `none` if a timer is in no list.
unfoldable pub wrapped_del : ℕ → Bool → Context → Option Context
wrapped_del ev is_timer c =
    if is_timer
    then (timer_del ev c.upile >>= λ l. some (record c { upile = l }))
    else some (record c { upile = event_del ev c.upile })

-- `uew_event_set`
unfoldable pub wrapped_set : ℕ → Option ℕ → Bool → Context → Context
wrapped_set ev fd persist c = record c { upile = event_set ev fd persist c.upile }

-- `eventLoop`, up to the call of `upil_event_loop`, and whether it comes to that. `made` are the ends
-- of the pipe, `none` if `pipe` fails.
unfoldable pub event_thread : Option (ℕ × ℕ) → Context → Bool × Context
unfolding wrapped_set event_add_wakeup
event_thread made c =
    let blank = record c { upile = event_init c.upile } in
    elim made [
      | none ↦ (false, blank)
      | some (r, w) ↦
          let piped = record blank {
            fd_wakeup_read = some r;
            fd_wakeup_write = some w;
            piped = 0;
          } in
          (
            true,
            event_add_wakeup true true c.wakeupfd_event
                (wrapped_set c.wakeupfd_event (some r) true piped),
          )
    ]

-- `uew_startEventLoop`, `created` being what `pthread_create` returns, 0 or an error number; `none`
-- for a wait that nothing ends, since only the thread sets `s_started`. The result is true for 0.
unfoldable pub start_event_loop : ℕ → Option (ℕ × ℕ) → Context → Option (Bool × Context)
unfolding event_thread
start_event_loop created made c =
    if created == 0 then some (true, (event_thread made c).1) else none
