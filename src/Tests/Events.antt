-- ===== src/Tests/Events.antt =====
-- upil_event/upil_event.c and state_machine/handler.c at a loop with two timers and a watched
-- descriptor, and a handler with two messages.
use upil.Common.{
  ℕ, ◌≡◌, refl, Bool, none, some, [], ◌∷◌, ◌++◌, true, false, not, ◌&&◌, arith, ltb, ◌==◌,
  if◌then◌else◌,
}
use upil.Codes.Ctl
use upil.Codes.Evt
use upil.Loop.Time.{Timeval, timer_lt, timeradd, of_msec, zero_time}
use upil.Loop.Defs.{
  UpilEvent, Loop, mem, insert_timer, timer_add, process_timeouts, event_add, event_del,
  process_read_readies, fire_pending,
}
use upil.Loop.Timers.{IsOrdered, keep, has_ended, process_timeouts-keep}
use upil.Loop.Watch.{IsCovered, watch-IsCovered}
use upil.Loop.Fire.{fired, IsTame, fire_pending-fired}
use upil.Handler.Defs.{
  Msg, Handler, in_queue, stored, max_msg_queue_size, sm_send_message_delay, remove_message_id,
}
use upil.Handler.Queue.{IsSound, new_msg, is_granted, sm_send_message_delay_lem}
use upil.Handler.Others.{others, remove_message_id-others}

-- Event 1 ends after one second, event 2 after two; event 3 watches descriptor 5.
abbrev pub events : ℕ → UpilEvent
events n =
    if n == 3
    then record { fd = some 5; index = some 0; persist = true; timeout = zero_time }
    else record {
      fd = none;
      index = none;
      persist = false;
      timeout = record { tv_sec = n; tv_usec = 0 };
    }

abbrev pub loop : Loop
loop = record {
  events = events;
  read_fds = λ fd. fd == 5;
  nfds = 6;
  watch_table = some 3 ∷ none ∷ [];
  timers = 1 ∷ 2 ∷ [];
  pending = 3 ∷ [];
}

pub loop-IsOrdered : IsOrdered events (1 ∷ 2 ∷ [])
loop-IsOrdered = (omega arith, (omega arith, tt), (omega arith, tt, tt))

abbrev pub half_past_one : Timeval
half_past_one = record { tv_sec = 1; tv_usec = 500000 }

-- The new timer stands between those of events 1 and 2.
timer_add_between : (timer_add half_past_one 4 (some (of_msec 100)) loop).timers ≡ 1 ∷ 4 ∷ 2 ∷ []
unfolding timer_add insert_timer timer_lt timeradd of_msec
timer_add_between = refl

process_timeouts-keep_example : process_timeouts half_past_one loop ≡ record loop {
  timers = keep (λ y. not (has_ended events half_past_one y)) (1 ∷ 2 ∷ []);
  pending = (3 ∷ []) ++ keep (has_ended events half_past_one) (1 ∷ 2 ∷ []);
}
process_timeouts-keep_example =
    process_timeouts-keep loop half_past_one (omega arith) loop-IsOrdered

watch-IsCovered_example :
    IsCovered (event_add 3 loop)
    × IsCovered (event_del 3 loop)
    × IsCovered (process_read_readies (λ fd. fd == 5) 1 loop)
watch-IsCovered_example = watch-IsCovered (λ fd. fd == 5) 1 3 loop (omega arith, tt)

-- A callback that changes nothing.
abbrev pub idle_func : ℕ → Loop → Loop × Bool
idle_func ev l = (l, false)

pub idle_func-IsTame : IsTame idle_func
idle_func-IsTame = record {
  same_pending = λ ev l. refl;
  apart = λ ev l h. h;
  goes_on = λ ev l. refl;
}

fire_pending-fired_example :
    (fire_pending 1 idle_func loop ≡ some (fired idle_func (3 ∷ []) loop, false))
    × ((fired idle_func (3 ∷ []) loop).pending ≡ [])
unfolding mem
fire_pending-fired_example =
    fire_pending-fired idle_func loop idle_func-IsTame (λ k m. ground (arith, m))

abbrev pub poll : Msg
poll = record { id = 0; what = Ctl.usb_on; payload = none }

abbrev pub ringing : Msg
ringing = record { id = 1; what = Evt.ring; payload = none }

abbrev pub handler : Handler
handler = record {
  msg_queue = poll ∷ ringing ∷ [];
  defer_msg_queue = [];
  msg_count = 2;
  loop = loop;
  fresh = 2;
  clock = λ n. zero_time;
  ticks = 0;
  grants = λ id. true;
}

pub handler-IsSound : IsSound handler
unfolding in_queue
handler-IsSound = record {
  no_defers = refl;
  counted = refl;
  capped = omega arith;
  distinct = (omega arith, refl, (omega arith, refl, tt));
}

sm_send_message_delay_example :
    let r = sm_send_message_delay Evt.busy_on none 0 handler in
    let ok = ltb 3 max_msg_queue_size && is_granted handler (stored none) in
    (r.0 ≡ ok)
    × (r.1.msg_queue ≡ (
        if ok
        then (poll ∷ ringing ∷ []) ++ (new_msg handler Evt.busy_on none ∷ [])
        else poll ∷ ringing ∷ []))
    × (r.1.msg_count ≡ (if ok then 3 else 2))
    × IsSound r.1
sm_send_message_delay_example = sm_send_message_delay_lem handler Evt.busy_on none 0 handler-IsSound

remove_message_id-others_example :
    let h' = remove_message_id Ctl.usb_on handler in
    (h'.msg_queue ≡ others Ctl.usb_on (poll ∷ ringing ∷ [])) × IsSound h'
remove_message_id-others_example = remove_message_id-others Ctl.usb_on handler handler-IsSound
