-- ===== src/Control/Serving.antt =====
-- upil_command.c, upil_monitor.c and upil_ril.c: which of its two events a server has in the
-- loop's table.
use upil.Common.{
  ℕ, zero, suc, ◌+◌, ◌≤◌, ◌<◌, ◌≡◌, ◌≢◌, refl, ap, ◌∙◌, sym, inl, inr, true, false, ◌&&◌, Option,
  none, some, List, [], ◌∷◌, ltb, ◌==◌, if◌then◌else◌, arith, set, get_or, get_elem?, length,
  Bool-cases, get_elem?-set_self,
}
use upil.Loop.Defs.{Loop, remove_watch, free_slot, event_set, event_add, event_del, max_fd_events}
use upil.Common.Memory.{Bytes}
use upil.StateMachine.Defs.{Fsm}
use upil.Ril.Defs.{Ril}
use upil.Control.Sockets.{
  Server, Monitor, serve, listen_again, hang_up, listen_callback, listen_callback_monitor,
  listen_callback_ril, process_commands_callback, event_monitor_cb, process_commands_callback_ril,
}

-- The event stands nowhere in the table.
abbrev pub IsOut : ℕ → List (Option ℕ) → Type 0
IsOut ev table = (j : ℕ) → get_or table j none ≢ some ev

-- The loop watches `active`, at one place of its table, and does not watch `idle`.
pub record Serves (l : Loop) (active idle place : ℕ) : Type 0 where
  pub index : (l.events active).index ≡ some place
  pub small : place < max_fd_events
  pub here : get_elem? l.watch_table place ≡ some (some active)
  pub only : (j : ℕ) → get_or l.watch_table j none ≡ some active → j ≡ place
  pub idle_out : IsOut idle l.watch_table

-- The two states of a server.
abbrev pub IsWaiting : Server → Loop → Type 0
IsWaiting s l = (place : ℕ) × Serves l s.listen_event s.client_event place

abbrev pub IsServing : Server → Loop → Type 0
IsServing s l = (place : ℕ) × Serves l s.client_event s.listen_event place

-- Neither event is watched, and a place of the table is free.
record HasRoom (l : Loop) (a b place : ℕ) : Type 0 where
  pub small : place < max_fd_events
  pub free : get_elem? l.watch_table place ≡ some none
  pub a_out : IsOut a l.watch_table
  pub b_out : IsOut b l.watch_table

set_here :
    (slots : List (Option ℕ)) (i j : ℕ) (v : Option ℕ)
    → get_or (set slots i v) j none
      ≡ (if j == i && ltb i (length slots) then v else get_or slots j none)
set_here [] i j v = ground arith
set_here (s ∷ slots) zero zero v = ground arith
set_here (s ∷ slots) zero (suc j) v = ground arith
set_here (s ∷ slots) (suc i) zero v = ground arith
set_here (s ∷ slots) (suc i) (suc j) v = set_here slots i j v ∙ ground arith

inside :
    (slots : List (Option ℕ)) (i : ℕ) (v : Option ℕ) → get_elem? slots i ≡ some v → i < length slots
inside [] i v e = absurd (ground (arith, e))
inside (s ∷ slots) zero v e = omega arith
inside (s ∷ slots) (suc i) v e = omega (arith, inside slots i v e)

-- With a free place, `upil_event_add` finds one no further on.
free_slot_found :
    (i p : ℕ) (slots : List (Option ℕ))
    → get_elem? slots p ≡ some none
    → (q : ℕ) × (free_slot i slots ≡ some (i + q)) × (get_elem? slots q ≡ some none) × (q ≤ p)
unfolding free_slot
free_slot_found i p [] e = absurd (ground (arith, e))
free_slot_found i p (none ∷ slots) e = (0, ap some (omega arith), refl, omega arith)
free_slot_found i zero (some x ∷ slots) e = absurd (ground (arith, e))
free_slot_found i (suc p) (some x ∷ slots) e =
    let (q, found, free, le) = free_slot_found (i + 1) p slots e in
    (suc q, found ∙ ap some (omega arith), free, omega (arith, le))

set-IsOut :
    (k i : ℕ) (v : Option ℕ) (slots : List (Option ℕ))
    → v ≢ some k
    → IsOut k slots
    → IsOut k (set slots i v)
set-IsOut k i v slots n out j e = elim (Bool-cases (j == i && ltb i (length slots))) [
  | inl at_i ↦ n (sym (rw at_i at (set_here slots i j v)) ∙ e)
  | inr off ↦ out j (sym (rw off at (set_here slots i j v)) ∙ e)
]

-- An event that is not watched is added.
added :
    (l : Loop) (a b place : ℕ)
    → a ≢ b
    → HasRoom l a b place
    → (q : ℕ) × Serves (event_add a l) a b q
unfolding event_add
added l a b place n r =
    let (q, found, free, le) = free_slot_found 0 place l.watch_table r.free in
    let within = inside l.watch_table q none free in
    let at_q : free_slot 0 l.watch_table ≡ some q = found ∙ ap some (omega arith) in
    (
      q,
      rw (at_q, event_add)
          (record {
            index = ground arith;
            small = omega (arith, le, r.small);
            here = get_elem?-set_self l.watch_table q (some a) within;
            only = λ j e. elim (Bool-cases (j == q && ltb q (length l.watch_table))) [
              | inl at_place ↦ ground (arith, at_place)
              | inr off ↦
                  absurd (r.a_out j (sym (rw off at (set_here l.watch_table q j (some a))) ∙ e))
            ];
            idle_out = set-IsOut b q (some a) l.watch_table (λ e. n (cc e)) r.b_out;
          }),
    )

-- The event is taken out of the table.
removed :
    (l l2 : Loop) (a b place : ℕ)
    → l2.watch_table ≡ set l.watch_table place none
    → Serves l a b place
    → HasRoom l2 b a place
removed l l2 a b place e s =
    let within = inside l.watch_table place (some a) s.here in
    record {
      small = s.small;
      free = rw e (get_elem?-set_self l.watch_table place none within);
      a_out =
          rw e (set-IsOut b place none l.watch_table (λ e. absurd (ground (arith, e))) s.idle_out);
      b_out = rw e (λ j e'. elim (Bool-cases (j == place && ltb place (length l.watch_table))) [
        | inl at_place ↦
            absurd (ground (arith, sym (rw at_place at (set_here l.watch_table place j none)) ∙ e'))
        | inr off ↦
            let stood = sym (rw off at (set_here l.watch_table place j none)) ∙ e' in
            ground (arith, s.only j stood, off, within)
      ]);
    }

swapped : (l : Loop) (a b place : ℕ) → HasRoom l a b place → HasRoom l b a place
swapped l a b place r = record { small = r.small; free = r.free; a_out = r.b_out; b_out = r.a_out }

event_del_watched :
    (l : Loop) (a b place : ℕ) → Serves l a b place → event_del a l ≡ remove_watch a place l
unfolding event_del
event_del_watched l a b place s = rw (s.index, event_del) (ground (arith, s.small))

remove_watch_table :
    (a place : ℕ) (l : Loop) → (remove_watch a place l).watch_table ≡ set l.watch_table place none
unfolding remove_watch
remove_watch_table a place l = refl

serve_table :
    (s : Server) (fd place : ℕ) (l : Loop)
    → (event_set s.client_event (some fd) true (remove_watch s.listen_event place l)).watch_table
      ≡ set l.watch_table place none
unfolding remove_watch event_set
serve_table s fd place l = refl

-- What waits for a client is taken out of the table as it fires, and the callback is then called.
accepted :
    (s : Server) (fd place : ℕ) (l : Loop)
    → s.listen_event ≢ s.client_event
    → Serves l s.listen_event s.client_event place
    → let l1 = remove_watch s.listen_event place l in
      ((q : ℕ) × Serves (listen_callback s (some fd) l1).0 s.client_event s.listen_event q)
      × ((q : ℕ) × Serves (listen_callback s none l1).0 s.listen_event s.client_event q)
unfolding listen_callback serve listen_again
accepted s fd place l n p =
    let l1 = remove_watch s.listen_event place l in
    let l2 = event_set s.client_event (some fd) true l1 in
    (
      added l2 s.client_event s.listen_event place (λ e. n (sym e))
          (removed l l2 s.listen_event s.client_event place (serve_table s fd place l) p),
      added l1 s.listen_event s.client_event place n (
          swapped l1 s.client_event s.listen_event place (
            removed l l1 s.listen_event s.client_event place
              (remove_watch_table s.listen_event place l) p)),
    )

hang_up-Serves :
    (s : Server) (place : ℕ) (l : Loop)
    → s.listen_event ≢ s.client_event
    → Serves l s.client_event s.listen_event place
    → (q : ℕ) × Serves (hang_up s l) s.listen_event s.client_event q
unfolding hang_up listen_again
hang_up-Serves s place l n p = rw (event_del_watched l s.client_event s.listen_event place p) (
    added (remove_watch s.client_event place l) s.listen_event s.client_event place n (
      removed l _ s.client_event s.listen_event place (remove_watch_table s.client_event place l)
        p))

-- In all three files, as long as the two events are different: where a client is waited for, and
-- that event fires and is taken out of the table, then, if the client is accepted, the loop watches
-- it instead, and the result lets the loop go on; if not, the event that waits is put back into the
-- table, but the result is the negative one that ends the loop. Where a client is served and goes,
-- the loop no longer watches it, and waits for the next one.
pub server-Serves :
    (s : Server) (fd i j : ℕ) (waits serves : Loop) (m : Monitor) (r : Ril) (fsm : Fsm)
    (fd_ril : Option ℕ) (asprintf_d : ℕ → Bytes)
    → s.listen_event ≢ s.client_event
    → Serves waits s.listen_event s.client_event i
    → Serves serves s.client_event s.listen_event j
    → let taken = remove_watch s.listen_event i waits in
      IsServing s (listen_callback s (some fd) taken).0
      × IsServing s (listen_callback_monitor s (some fd) m taken).1.0
      × IsServing s (listen_callback_ril s (some fd) fd_ril taken).1.0
      × IsWaiting s (listen_callback s none taken).0
      × IsWaiting s (listen_callback_monitor s none m taken).1.0
      × IsWaiting s (listen_callback_ril s none fd_ril taken).1.0
      × ((listen_callback s (some fd) taken).1 ≡ false)
      × ((listen_callback_monitor s (some fd) m taken).1.1 ≡ false)
      × ((listen_callback_ril s (some fd) fd_ril taken).1.1 ≡ false)
      × ((listen_callback s none taken).1 ≡ true)
      × ((listen_callback_monitor s none m taken).1.1 ≡ true)
      × ((listen_callback_ril s none fd_ril taken).1.1 ≡ true)
      × IsWaiting s (process_commands_callback asprintf_d s none serves fsm).1.0
      × IsWaiting s (event_monitor_cb s none serves)
      × IsWaiting s (process_commands_callback_ril asprintf_d s none serves r).0
unfolding listen_callback listen_callback_monitor listen_callback_ril process_commands_callback
    event_monitor_cb process_commands_callback_ril
server-Serves s fd i j waits serves m r fsm fd_ril asprintf_d n p q =
    let (now, again) = accepted s fd i waits n p in
    let next = hang_up-Serves s j serves n q in
    (now, now, now, again, again, again, refl, refl, refl, refl, refl, refl, next, next, next)
