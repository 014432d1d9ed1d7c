-- ===== src/Loop/Rounds.antt =====
-- upil_event/upil_event.c, `upil_event_loop`: what one round does for a timer that has ended.
use upil.Common.{
  ℕ, zero, suc, ◌+◌, ◌≡◌, refl, ap, ◌∙◌, inl, inr, Bool, true, false, not, ◌||◌, Option, none, some,
  List, [], ◌∷◌, ◌++◌, Bool-cases, Option-cases, arith, ◌==◌, if◌then◌else◌, set, get_or, length,
}
use upil.Loop.Time.{Timeval, IsNormal}
use upil.Loop.Defs.{
  Loop, mem, remove_watch, fd_of, process_ready, process_read_readies, process_timeouts,
  calc_next_timeout, fire_pending, max_fd_events,
}
use upil.Loop.Timers.{IsOrdered, keep, has_ended, process_timeouts-keep}
use upil.Loop.Deadlines.{mem-keep}
use upil.Loop.Fire.{fired, IsTame, fire_pending-fired}
use upil.Loop.Thread.{Round, found, gathered, event_round}

-- No event that is pending or watched is among the timers.
pub record IsApart (l : Loop) : Type 0 where
  pub pending_apart : (k : ℕ) → mem k l.pending ≡ true → mem k l.timers ≡ false
  pub watched_apart : (i k : ℕ) → get_or l.watch_table i none ≡ some k → mem k l.timers ≡ false

-- The pass over the descriptors leaves the timers, and only adds to what is pending.
pub record Gathers (l l' : Loop) : Type 0 where
  pub same_timers : l'.timers ≡ l.timers
  pub grown : (k : ℕ) → mem k l.pending ≡ true → mem k l'.pending ≡ true
  pub apart : IsApart l → IsApart l'

pub mem_append : (k : ℕ) (xs ys : List ℕ) → mem k (xs ++ ys) ≡ (mem k xs || mem k ys)
unfolding mem
mem_append k [] ys = refl
mem_append k (x ∷ xs) ys = ground (arith, mem_append k xs ys)

get_or-set :
    (slots : List (Option ℕ)) (i j k : ℕ)
    → get_or (set slots i none) j none ≡ some k
    → get_or slots j none ≡ some k
get_or-set [] i j k e = e
get_or-set (s ∷ slots) zero zero k e = absurd (ground (arith, e))
get_or-set (s ∷ slots) zero (suc j) k e = e
get_or-set (s ∷ slots) (suc i) zero k e = e
get_or-set (s ∷ slots) (suc i) (suc j) k e = get_or-set slots i j k e

Gathers-refl : (l : Loop) → Gathers l l
Gathers-refl l = record { same_timers = refl; grown = λ k m. m; apart = λ a. a }

Gathers-trans : {l m n : Loop} → Gathers l m → Gathers m n → Gathers l n
Gathers-trans g h = record {
  same_timers = h.same_timers ∙ g.same_timers;
  grown = λ k m. h.grown k (g.grown k m);
  apart = λ a. h.apart (g.apart a);
}

Gathers-remove : (ev i : ℕ) (l : Loop) → Gathers l (remove_watch ev i l)
unfolding remove_watch
Gathers-remove ev i l = record {
  same_timers = refl;
  grown = λ k m. m;
  apart = λ a. record {
    pending_apart = a.pending_apart;
    watched_apart = λ j k e. a.watched_apart j k (get_or-set l.watch_table i j k e);
  };
}

Gathers-pending :
    (ev i : ℕ) (l : Loop)
    → get_or l.watch_table i none ≡ some ev
    → Gathers l (record l { pending = l.pending ++ (ev ∷ []) })
unfolding mem
Gathers-pending ev i l e = record {
  same_timers = refl;
  grown = λ k m. mem_append k l.pending (ev ∷ []) ∙ ground (arith, m);
  apart = λ a. record {
    pending_apart = λ k m. elim (Bool-cases (ev == k)) [
      | inl here ↦ a.watched_apart i k (e ∙ ap some (ground (arith, here)))
      | inr other ↦ a.pending_apart k (ground (arith, mem_append k l.pending (ev ∷ []), m, other))
    ];
    watched_apart = a.watched_apart;
  };
}

pub Gathers-ready :
    (ready : ℕ → Bool) (k i n : ℕ) (l : Loop) → Gathers l (process_ready ready k i n l)
unfolding process_ready
Gathers-ready ready zero i n l = Gathers-refl l
Gathers-ready ready (suc k) i zero l = Gathers-refl l
Gathers-ready ready (suc k) i (suc m) l = elim (Option-cases (get_or l.watch_table i none)) [
  | inl empty_slot ↦ rw (empty_slot, process_ready) (Gathers-ready ready k (i + 1) (suc m) l)
  | inr (ev, watched) ↦ elim (Bool-cases (ready (fd_of (l.events ev)))) [
    | inr not_ready ↦
        rw (watched, process_ready) (rw not_ready (Gathers-ready ready k (i + 1) (suc m) l))
    | inl is_ready ↦
        rw (watched, process_ready)
          (rw is_ready (
            let l' : Loop = record l { pending = l.pending ++ (ev ∷ []) } in
            Gathers-trans (Gathers-pending ev i l watched) (
              Gathers-trans (taken (l.events ev).persist ev l')
                (Gathers-ready ready k (i + 1) m _))))
  ]
]
  where
    taken : (b : Bool) (ev : ℕ) (l' : Loop) → Gathers l' (if b then l' else remove_watch ev i l')
    taken true ev l' = Gathers-refl l'
    taken false ev l' = Gathers-remove ev i l'

-- With the timers in order, each once, and apart from what is pending and watched, the timers that
-- end are apart from those that stay.
timeouts-IsApart :
    (l : Loop) (now : Timeval)
    → IsNormal now
    → IsOrdered l.events l.timers
    → IsApart l
    → IsApart (process_timeouts now l)
timeouts-IsApart l now n o a =
    let ended = has_ended l.events now in
    let stays = λ (k : ℕ). not (ended k) in
    rw (process_timeouts-keep l now n o) (record {
      pending_apart = λ k m.
          mem-keep stays k l.timers
          ∙ ground (
            arith,
            m,
            mem_append k l.pending (keep ended l.timers),
            mem-keep ended k l.timers,
            a.pending_apart k,
          );
      watched_apart = λ i k e. mem-keep stays k l.timers ∙ ground (arith, a.watched_apart i k e);
    })

-- A timer that has ended is pending once the descriptors are seen to.
gathered_ended :
    (l : Loop) (now : Timeval) (ready : ℕ → Bool) (n ev : ℕ)
    → IsNormal now
    → IsOrdered l.events l.timers
    → IsApart l
    → mem ev l.timers ≡ true
    → has_ended l.events now ev ≡ true
    → IsApart (gathered now ready n l) × (mem ev (gathered now ready n l).pending ≡ true)
unfolding gathered process_read_readies
gathered_ended l now ready n ev m o a here end =
    let mid = process_timeouts now l in
    let moved : mem ev mid.pending ≡ true =
      rw (process_timeouts-keep l now m o) (
        mem_append ev l.pending _
        ∙ ground (arith, mem-keep (has_ended l.events now) ev l.timers)) in
    let g = Gathers-ready ready max_fd_events 0 n mid in
    (g.apart (timeouts-IsApart l now m o a), g.grown ev moved)

round_found :
    (fuel : ℕ) (func : ℕ → Loop → Loop × Bool) (r : Round) (l : Loop) (n : ℕ) (ready : ℕ → Bool)
    → r.select l.nfds l.read_fds (calc_next_timeout r.before l) ≡ found n ready
    → event_round fuel func r l ≡ fire_pending fuel func (gathered r.after ready n l)
unfolding event_round
round_found fuel func r l n ready e = rw (e, event_round) refl

-- If `select` succeeds, a timer that has ended is among the events that this round of the loop
-- calls, and stands among the timers no longer when the first is called. The round calls each of
-- those events in order, leaves none pending, and the loop goes on. This holds with the timers in
-- order and no event that is pending or watched among them, and with callbacks that leave the
-- pending list alone, put none of its events among the timers, and return no negative value.
pub event_round-fired :
    (func : ℕ → Loop → Loop × Bool) (r : Round) (l : Loop) (n ev : ℕ) (ready : ℕ → Bool)
    → r.select l.nfds l.read_fds (calc_next_timeout r.before l) ≡ found n ready
    → IsNormal r.after
    → IsOrdered l.events l.timers
    → IsApart l
    → IsTame func
    → mem ev l.timers ≡ true
    → has_ended l.events r.after ev ≡ true
    → let l1 = gathered r.after ready n l in
      (event_round (length l1.pending) func r l ≡ some (fired func l1.pending l1, false))
      × (mem ev l1.pending ≡ true)
      × (mem ev l1.timers ≡ false)
      × ((fired func l1.pending l1).pending ≡ [])
event_round-fired func r l n ev ready e m o a t here end =
    let l1 = gathered r.after ready n l in
    let (apart, called) = gathered_ended l r.after ready n ev m o a here end in
    let (runs, none_left) = fire_pending-fired func l1 t apart.pending_apart in
    (
      round_found (length l1.pending) func r l n ready e ∙ runs,
      called,
      apart.pending_apart ev called,
      none_left,
    )
