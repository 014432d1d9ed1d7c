-- ===== src/Loop/Watch.antt =====
-- The table of watched descriptors: `nfds`, which `select` is given, lies above all of them.
use upil.Common.{
  ℕ, zero, suc, ◌+◌, ◌≤◌, ◌<◌, ◌≡◌, inl, inr, Bool, true, false, Option, none, some, List, [], ◌∷◌,
  ◌++◌, Bool-cases, Option-cases, arith, ltb, leb, ◌==◌, if◌then◌else◌, set, get_or,
}
use upil.Loop.Defs.{
  UpilEvent, Loop, update, fd_of, max_fd, remove_watch, free_slot, event_add, event_del,
  process_ready, process_read_readies, max_fd_events,
}

-- Every watched event in the table has a descriptor below `n`.
abbrev pub IsBelow : (ℕ → UpilEvent) → ℕ → List (Option ℕ) → Type 0
IsBelow events n [] = Unit
IsBelow events n (none ∷ slots) = IsBelow events n slots
IsBelow events n (some ev ∷ slots) = (fd_of (events ev) < n) × IsBelow events n slots

-- `nfds` is above every watched descriptor.
abbrev pub IsCovered : Loop → Type 0
IsCovered l = IsBelow l.events l.nfds l.watch_table

IsBelow-mono :
    (events : ℕ → UpilEvent) (n m : ℕ) (slots : List (Option ℕ))
    → n ≤ m
    → IsBelow events n slots
    → IsBelow events m slots
IsBelow-mono events n m [] h b = tt
IsBelow-mono events n m (none ∷ slots) h b = IsBelow-mono events n m slots h b
IsBelow-mono events n m (some ev ∷ slots) h b = (omega arith, IsBelow-mono events n m slots h b.1)

IsBelow-set-none :
    (events : ℕ → UpilEvent) (n i : ℕ) (slots : List (Option ℕ))
    → IsBelow events n slots
    → IsBelow events n (set slots i none)
IsBelow-set-none events n i [] b = tt
IsBelow-set-none events n zero (none ∷ slots) b = b
IsBelow-set-none events n zero (some ev ∷ slots) b = b.1
IsBelow-set-none events n (suc i) (none ∷ slots) b = IsBelow-set-none events n i slots b
IsBelow-set-none events n (suc i) (some ev ∷ slots) b = (b.0, IsBelow-set-none events n i slots b.1)

IsBelow-set-some :
    (events : ℕ → UpilEvent) (n i ev : ℕ) (slots : List (Option ℕ))
    → fd_of (events ev) < n
    → IsBelow events n slots
    → IsBelow events n (set slots i (some ev))
IsBelow-set-some events n i ev [] h b = tt
IsBelow-set-some events n zero ev (none ∷ slots) h b = (h, b)
IsBelow-set-some events n zero ev (some _ ∷ slots) h b = (h, b.1)
IsBelow-set-some events n (suc i) ev (none ∷ slots) h b = IsBelow-set-some events n i ev slots h b
IsBelow-set-some events n (suc i) ev (some _ ∷ slots) h b =
    (b.0, IsBelow-set-some events n i ev slots h b.1)

-- A change that leaves the descriptors alone.
IsBelow-same :
    (f g : ℕ → UpilEvent) (n : ℕ) (slots : List (Option ℕ))
    → ((y : ℕ) → fd_of (g y) ≡ fd_of (f y))
    → IsBelow f n slots
    → IsBelow g n slots
IsBelow-same f g n [] h b = tt
IsBelow-same f g n (none ∷ slots) h b = IsBelow-same f g n slots h b
IsBelow-same f g n (some ev ∷ slots) h b = (rw (h ev) b.0, IsBelow-same f g n slots h b.1)

same_fd :
    (events : ℕ → UpilEvent) (ev : ℕ) (i : Option ℕ) (y : ℕ)
    → fd_of (update events ev (record (events ev) { index = i }) y) ≡ fd_of (events y)
same_fd events ev i y = ground arith

max_fd-le : (events : ℕ → UpilEvent) (n : ℕ) (slots : List (Option ℕ)) → n ≤ max_fd events n slots
unfolding max_fd
max_fd-le events n [] = omega arith
max_fd-le events n (none ∷ slots) = max_fd-le events n slots
max_fd-le events n (some ev ∷ slots) =
    ground (arith, max_fd-le events n slots, max_fd-le events (fd_of (events ev)) slots)

max_fd-IsBelow :
    (events : ℕ → UpilEvent) (n : ℕ) (slots : List (Option ℕ))
    → IsBelow events (max_fd events n slots + 1) slots
unfolding max_fd
max_fd-IsBelow events n [] = tt
max_fd-IsBelow events n (none ∷ slots) = max_fd-IsBelow events n slots
max_fd-IsBelow events n (some ev ∷ slots) =
    let larger = if ltb n (fd_of (events ev)) then fd_of (events ev) else n in
    (ground (arith, max_fd-le events larger slots), max_fd-IsBelow events larger slots)

pub remove_watch-IsCovered : (ev i : ℕ) (l : Loop) → IsCovered l → IsCovered (remove_watch ev i l)
unfolding remove_watch
remove_watch-IsCovered ev i l c =
    let events = update l.events ev (record (l.events ev) { index = none }) in
    elim (Bool-cases (fd_of (l.events ev) + 1 == l.nfds)) [
      | inl last ↦ rw last (max_fd-IsBelow events 0 (set l.watch_table i none))
      | inr other ↦ rw other (
          IsBelow-same l.events events l.nfds (set l.watch_table i none) (same_fd l.events ev none)
            (IsBelow-set-none l.events l.nfds i l.watch_table c))
    ]

-- Adding an event to the watch list keeps `nfds` above every watched descriptor.
pub event_add-IsCovered : (ev : ℕ) (l : Loop) → IsCovered l → IsCovered (event_add ev l)
unfolding event_add
event_add-IsCovered ev l c = elim (Option-cases (free_slot 0 l.watch_table)) [
  | inl full ↦ rw (full, event_add) c
  | inr (i, free) ↦
      let n = if leb l.nfds (fd_of (l.events ev)) then fd_of (l.events ev) + 1 else l.nfds in
      let events = update l.events ev (record (l.events ev) { index = some i }) in
      rw (free, event_add)
        (IsBelow-same l.events events n (set l.watch_table i (some ev))
          (same_fd l.events ev (some i))
          (IsBelow-set-some l.events n i ev l.watch_table (ground arith)
            (IsBelow-mono l.events l.nfds n l.watch_table (ground arith) c)))
]

-- Removing an event from it does, too.
pub event_del-IsCovered : (ev : ℕ) (l : Loop) → IsCovered l → IsCovered (event_del ev l)
unfolding event_del
event_del-IsCovered ev l c = elim (Option-cases (l.events ev).index) [
  | inl e ↦ rw (e, event_del) c
  | inr (i, e) ↦ elim (Bool-cases (leb max_fd_events i)) [
    | inl outside ↦ rw (e, event_del) (rw outside c)
    | inr inside ↦ rw (e, event_del) (rw inside (remove_watch-IsCovered ev i l c))
  ]
]

taken :
    (b : Bool) (ev i : ℕ) (l : Loop)
    → IsCovered l
    → IsCovered (if b then l else remove_watch ev i l)
taken true ev i l c = c
taken false ev i l c = remove_watch-IsCovered ev i l c

process_ready-IsCovered :
    (ready : ℕ → Bool) (k i n : ℕ) (l : Loop)
    → IsCovered l
    → IsCovered (process_ready ready k i n l)
unfolding process_ready
process_ready-IsCovered ready zero i n l c = c
process_ready-IsCovered ready (suc k) i zero l c = c
process_ready-IsCovered ready (suc k) i (suc m) l c =
    elim (Option-cases (get_or l.watch_table i none)) [
      | inl empty_slot ↦
          rw (empty_slot, process_ready) (process_ready-IsCovered ready k (i + 1) (suc m) l c)
      | inr (ev, watched) ↦
          let l' : Loop = record l { pending = l.pending ++ (ev ∷ []) } in
          elim (Bool-cases (ready (fd_of (l.events ev)))) [
            | inr not_ready ↦
                rw (watched, process_ready)
                  (rw not_ready (process_ready-IsCovered ready k (i + 1) (suc m) l c))
            | inl is_ready ↦
                rw (watched, process_ready)
                  (rw is_ready (
                    process_ready-IsCovered ready k (i + 1) m
                      (if (l.events ev).persist then l' else remove_watch ev i l')
                      (taken (l.events ev).persist ev i l' c)))
          ]
    ]

-- `nfds` stays above every watched descriptor through all that changes the table: adding an event,
-- deleting one, and the pass over the descriptors that `select` found ready.
pub watch-IsCovered :
    (ready : ℕ → Bool) (n ev : ℕ) (l : Loop)
    → IsCovered l
    → IsCovered (event_add ev l)
      × IsCovered (event_del ev l)
      × IsCovered (process_read_readies ready n l)
unfolding process_read_readies
watch-IsCovered ready n ev l c = (
  event_add-IsCovered ev l c,
  event_del-IsCovered ev l c,
  process_ready-IsCovered ready max_fd_events 0 n l c,
)
