-- ===== src/Loop/Defs.antt =====
-- upil_event/upil_event.h and upil_event.c: the state of the loop and its operations. An event is
-- named by its address, a number. The circular lists are the addresses in them, in order; an event
-- is linked if it stands in one. `none` is an access through a null link. Each function that calls
-- `getNow` takes the reading, `now`. The mutex keeps the operations from overlapping.
use upil.Common.{
  ℕ, zero, suc, ◌+◌, Bool, true, false, ◌||◌, Option, none, some, List, [], ◌∷◌, ◌++◌, ltb, leb,
  ◌==◌, if◌then◌else◌, replicate, set, get_or,
}
use upil.Common.Memory.{◌>>=◌}
use upil.Loop.Time.{Timeval, timeradd, timer_lt, timersub, zero_time}

abbrev pub max_fd_events : ℕ
max_fd_events = 16

-- `none` for the value -1 of `fd` and `index`. `func` and `param` say what to call; the calls are
-- the parameter `func` of `fire_pending`.
pub record UpilEvent : Type 0 where
  pub fd : Option ℕ
  pub index : Option ℕ
  pub persist : Bool
  pub timeout : Timeval

pub record Loop : Type 0 where
  pub events : ℕ → UpilEvent
  pub read_fds : ℕ → Bool
  pub nfds : ℕ
  pub watch_table : List (Option ℕ)
  pub timers : List ℕ
  pub pending : List ℕ

-- A function changed at one place.
abbrev pub update {ℓ} : {A : Type ℓ} → (ℕ → A) → ℕ → A → ℕ → A
update f k v n = if n == k then v else f n

unfoldable pub mem : ℕ → List ℕ → Bool
mem k [] = false
mem k (x ∷ xs) = x == k || mem k xs

unfoldable pub erase : ℕ → List ℕ → List ℕ
erase k [] = []
erase k (x ∷ xs) = let rest = erase k xs in if x == k then xs else x ∷ rest

-- `removeFromList`: the links of an event that is in no list are null.
unfoldable pub remove_from_list : ℕ → Loop → Option Loop
unfolding mem erase
remove_from_list ev l =
    if mem ev l.timers
    then some (record l { timers = erase ev l.timers })
    else if mem ev l.pending
    then some (record l { pending = erase ev l.pending })
    else none

-- `fd` of an event that is watched; FD_SET and FD_CLR are given descriptors only.
abbrev pub fd_of : UpilEvent → ℕ
fd_of e = elim e.fd [ none ↦ 0 | some n ↦ n ]

-- The largest descriptor in the table, or `n` if that is larger.
unfoldable pub max_fd : (ℕ → UpilEvent) → ℕ → List (Option ℕ) → ℕ
max_fd events n [] = n
max_fd events n (none ∷ slots) = max_fd events n slots
max_fd events n (some ev ∷ slots) =
    let fd = fd_of (events ev) in max_fd events (if ltb n fd then fd else n) slots

-- `removeWatch`
unfoldable pub remove_watch : ℕ → ℕ → Loop → Loop
remove_watch ev index l =
    let fd = fd_of (l.events ev) in
    let table = set l.watch_table index none in
    let events = update l.events ev (record (l.events ev) { index = none }) in
    record l {
      watch_table = table;
      events = events;
      read_fds = update l.read_fds fd false;
      nfds = if fd + 1 == l.nfds then max_fd events 0 table + 1 else l.nfds;
    }

-- The loop of `processTimeouts` over the timers; the result is those that stay and those that move.
unfoldable pub expire : (ℕ → UpilEvent) → Timeval → List ℕ → List ℕ × List ℕ
expire events now [] = ([], [])
expire events now (tev ∷ rest) =
    let r = expire events now rest in
    if timer_lt (events tev).timeout now then (r.0, tev ∷ r.1) else (tev ∷ rest, [])

unfoldable pub process_timeouts : Timeval → Loop → Loop
unfolding expire
process_timeouts now l =
    let (stay, moved) = expire l.events now l.timers in
    record l { timers = stay; pending = l.pending ++ moved }

-- `calcNextTimeout`: `none` for -1, no timer is pending.
unfoldable pub calc_next_timeout : Timeval → Loop → Option Timeval
calc_next_timeout now l = elim l.timers [
  | [] ↦ none
  | tev ∷ rest ↦
      let t = (l.events tev).timeout in some (if timer_lt now t then timersub t now else zero_time)
]

-- `upil_event_init`
unfoldable pub event_init : Loop → Loop
event_init l = record l {
  read_fds = λ _. false;
  timers = [];
  pending = [];
  watch_table = replicate max_fd_events none;
  nfds = 0;
}

-- `upil_event_set`
unfoldable pub event_set : ℕ → Option ℕ → Bool → Loop → Loop
event_set ev fd persist l = record l {
  events =
      update l.events ev (record { fd = fd; index = none; persist = persist; timeout = zero_time });
}

-- The first slot that is free, from `i` on.
unfoldable pub free_slot : ℕ → List (Option ℕ) → Option ℕ
free_slot i [] = none
free_slot i (none ∷ slots) = some i
free_slot i (some ev ∷ slots) = free_slot (i + 1) slots

-- `upil_event_add`: with no slot free, nothing happens.
unfoldable pub event_add : ℕ → Loop → Loop
event_add ev l = elim (free_slot 0 l.watch_table) [
  | none ↦ l
  | some i ↦
      let fd = fd_of (l.events ev) in
      record l {
        watch_table = set l.watch_table i (some ev);
        events = update l.events ev (record (l.events ev) { index = some i });
        read_fds = update l.read_fds fd true;
        nfds = if leb l.nfds fd then fd + 1 else l.nfds;
      }
]

-- Behind the timers that end before `t`.
unfoldable pub insert_timer : (ℕ → UpilEvent) → ℕ → Timeval → List ℕ → List ℕ
insert_timer events ev t [] = ev ∷ []
insert_timer events ev t (x ∷ xs) =
    let rest = insert_timer events ev t xs in
    if timer_lt (events x).timeout t then x ∷ rest else ev ∷ x ∷ xs

-- `upil_timer_add`, `tv` being `none` for NULL.
unfoldable pub timer_add : Timeval → ℕ → Option Timeval → Loop → Loop
timer_add now ev none l = l
timer_add now ev (some tv) l =
    let t = timeradd now tv in
    let events = update l.events ev (record (l.events ev) { fd = none; timeout = t }) in
    record l { events = events; timers = insert_timer events ev t l.timers }

-- `upil_timer_del`
abbrev pub timer_del : ℕ → Loop → Option Loop
timer_del = remove_from_list

-- `upil_event_del`
unfoldable pub event_del : ℕ → Loop → Loop
event_del ev l = elim (l.events ev).index [
  | none ↦ l
  | some i ↦ if leb max_fd_events i then l else remove_watch ev i l
]

-- `processReadReadies`, from slot `i` on, by the slots left; `n` is the number of ready ones to find.
unfoldable pub process_ready : (ℕ → Bool) → ℕ → ℕ → ℕ → Loop → Loop
process_ready ready zero i n l = l
process_ready ready (suc k) i zero l = l
process_ready ready (suc k) i (suc m) l =
    let next = process_ready ready k (i + 1) (suc m) l in
    elim (get_or l.watch_table i none) [
      | none ↦ next
      | some ev ↦
          let l' = record l { pending = l.pending ++ (ev ∷ []) } in
          let found =
            process_ready ready k (i + 1) m
              (if (l.events ev).persist then l' else remove_watch ev i l') in
          if ready (fd_of (l.events ev)) then found else next
    ]

unfoldable pub process_read_readies : (ℕ → Bool) → ℕ → Loop → Loop
unfolding process_ready
process_read_readies ready n l = process_ready ready max_fd_events 0 n l

-- The event behind `ev` in a list, `none` for the list's head.
unfoldable pub next_of : ℕ → List ℕ → Option ℕ
next_of ev [] = none
next_of ev (x ∷ []) = none
next_of ev (x ∷ y ∷ xs) = let rest = next_of ev (y ∷ xs) in if x == ev then some y else rest

-- The loop of `firePending`, on fuel, over a state that holds the loop. `func ev` is the callback,
-- which may change the state, or fail in an access; its result is true if it is negative. `next` is
-- fetched before the call.
unfoldable pub fire_on {ℓ} :
    {S : Type ℓ}
    → (S → Loop)
    → (Loop → S → S)
    → ℕ
    → (ℕ → S → Option (S × Bool))
    → Option ℕ
    → S
    → Option (S × Bool)
fire_on loop_of with_loop fuel func none s = some (s, false)
fire_on loop_of with_loop zero func (some ev) s = none
fire_on loop_of with_loop (suc fuel) func (some ev) s = remove_from_list ev (loop_of s) >>= λ l1.
    func ev (with_loop l1 s) >>= λ (s2, negative).
    let rest = fire_on loop_of with_loop fuel func (next_of ev (loop_of s).pending) s2 in
    if negative then some (s2, true) else rest

-- With callbacks that change the loop alone.
abbrev pub fire_from : ℕ → (ℕ → Loop → Loop × Bool) → Option ℕ → Loop → Option (Loop × Bool)
fire_from fuel func = fire_on (λ l. l) (λ l1 l. l1) fuel (λ ev l. some (func ev l))

-- `pending_list.next`, `none` for the list's head.
abbrev pub first : List ℕ → Option ℕ
first [] = none
first (x ∷ xs) = some x

unfoldable pub fire_pending : ℕ → (ℕ → Loop → Loop × Bool) → Loop → Option (Loop × Bool)
fire_pending fuel func l = fire_from fuel func (first l.pending) l
