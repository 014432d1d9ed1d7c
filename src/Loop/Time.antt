-- ===== src/Loop/Time.antt =====
-- upil_event/upil_event.c: the macros on `struct timeval`. Seconds and microseconds are counted
-- from the start of the clock, so they are not negative.
use upil.Common.{
  ℕ, ◌+◌, ◌-◌, ◌*◌, ◌/◌, ◌%◌, ◌≤◌, ◌<◌, ◌≡◌, Bool, true, false, arith, ltb, leb, ◌==◌,
  if◌then◌else◌,
}

pub record Timeval : Type 0 where
  pub tv_sec : ℕ
  pub tv_usec : ℕ

unfoldable pub timeradd : Timeval → Timeval → Timeval
timeradd a b =
    let sec = a.tv_sec + b.tv_sec in
    let usec = a.tv_usec + b.tv_usec in
    if leb 1000000 usec
    then record { tv_sec = sec + 1; tv_usec = usec - 1000000 }
    else record { tv_sec = sec; tv_usec = usec }

-- `timercmp(a, b, <)`; `timercmp(a, b, >)` is this with `a` and `b` exchanged
unfoldable pub timer_lt : Timeval → Timeval → Bool
timer_lt a b = if a.tv_sec == b.tv_sec then ltb a.tv_usec b.tv_usec else ltb a.tv_sec b.tv_sec

-- Used only where `b` is earlier than `a`, so that no difference of seconds is negative.
unfoldable pub timersub : Timeval → Timeval → Timeval
timersub a b =
    if ltb a.tv_usec b.tv_usec
    then record { tv_sec = a.tv_sec - b.tv_sec - 1; tv_usec = a.tv_usec + 1000000 - b.tv_usec }
    else record { tv_sec = a.tv_sec - b.tv_sec; tv_usec = a.tv_usec - b.tv_usec }

-- upil_event_wrapper.c, `uew_timer_add_wakeup`: a delay in milliseconds.
unfoldable pub of_msec : ℕ → Timeval
of_msec msec = record { tv_sec = msec / 1000; tv_usec = msec % 1000 * 1000 }

abbrev pub zero_time : Timeval
zero_time = record { tv_sec = 0; tv_usec = 0 }

-- A time in microseconds, and the form in which the clock gives it.
abbrev pub usecs : Timeval → ℕ
usecs t = t.tv_sec * 1000000 + t.tv_usec

abbrev pub IsNormal : Timeval → Type 0
IsNormal t = t.tv_usec < 1000000

pub timeradd-usecs :
    (a b : Timeval)
    → IsNormal a
    → IsNormal b
    → (usecs (timeradd a b) ≡ usecs a + usecs b) × IsNormal (timeradd a b)
unfolding timeradd
timeradd-usecs a b p q = ground arith

pub timer_lt→lt :
    (a b : Timeval) → IsNormal a → IsNormal b → timer_lt a b ≡ true → usecs a < usecs b
unfolding timer_lt
timer_lt→lt a b p q h = ground arith

pub timer_lt→le :
    (a b : Timeval) → IsNormal a → IsNormal b → timer_lt a b ≡ false → usecs b ≤ usecs a
unfolding timer_lt
timer_lt→le a b p q h = ground arith

pub timersub-usecs :
    (a b : Timeval)
    → IsNormal a
    → IsNormal b
    → usecs b ≤ usecs a
    → (usecs (timersub a b) + usecs b ≡ usecs a) × IsNormal (timersub a b)
unfolding timersub
timersub-usecs a b p q h = ground arith

-- A delay in milliseconds is turned into the same time, with its microseconds below a second.
pub of_msec-usecs : (m : ℕ) → (usecs (of_msec m) ≡ m * 1000) × IsNormal (of_msec m)
unfolding of_msec
of_msec-usecs m = omega arith
