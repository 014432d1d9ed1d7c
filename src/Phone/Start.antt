-- ===== src/Phone/Start.antt =====
-- upil_sm.c, `upil_sm_start`: a machine is taken from the pool and put into its first state.
use upil.Common.{
  ℕ, ◌<◌, ◌≡◌, refl, ap, ◌∙◌, inl, inr, Bool, true, Option, none, some, List, set, get_elem?,
  get_elem?-set_self, length, length-set, arith, Option-cases,
}
use upil.Common.Memory.{◌>>=◌}
use upil.Codes.SmState
use upil.Loop.Defs.{Loop}
use upil.Handler.Defs.{start_handler}
use upil.Handler.Queue.{IsSound}
use upil.StateMachine.Defs.{Fsm, sm_set_init_state, transition_to, is_current}
use upil.StateMachine.Pool.{
  Slot, sm_obtain_fsm, get_idle_fsm, get_idle_fsm-none, prepared, used, used-set, obtained,
}
use upil.Phone.Table.{my_state_table}
use upil.Phone.Steps.{transition_to_returns}

-- The machine at place `i` of the pool enters its first state; what that returns is not used.
unfoldable pub begun : ℕ → List Slot → Option (List Slot)
begun i pool = get_elem? pool i >>= λ s.
    sm_set_init_state my_state_table SmState.offline s.fsm >>= λ r.
    some (set pool i (record s { fsm = r.1 }))

-- `if (fsm)` of `upil_sm_start`.
unfoldable pub placed : Option ℕ × List Slot → Option (Option ℕ × List Slot)
placed (none, pool) = some (none, pool)
placed (some i, pool) = begun i pool >>= λ pool'. some (some i, pool')

-- `upil_sm_start`: the place of the machine, if there is one, and the pool.
unfoldable pub upil_sm_start : Option Loop → List Slot → Option (Option ℕ × List Slot)
upil_sm_start started pool = placed (sm_obtain_fsm started pool)

pub prepared-IsSound : (l : Loop) (fsm : Fsm) → IsSound (prepared l fsm).handler
unfolding start_handler
prepared-IsSound l fsm = record {
  no_defers = refl;
  counted = refl;
  capped = omega arith;
  distinct = tt;
}

begun_lem :
    (pool : List Slot) (i : ℕ) (s : Slot) (b : Bool) (fsm' : Fsm)
    → get_elem? pool i ≡ some s
    → transition_to my_state_table SmState.offline s.fsm ≡ some (b, fsm')
    → begun i pool ≡ some (set pool i (record s { fsm = fsm' }))
unfolding begun
begun_lem pool i s b fsm' e t = rw e (rw t refl)

started :
    (l : Loop) (pool pool' pool'' : List Slot) (i : ℕ)
    → sm_obtain_fsm (some l) pool ≡ (some i, pool')
    → begun i pool' ≡ some pool''
    → upil_sm_start (some l) pool ≡ some (some i, pool'')
unfolding upil_sm_start placed
started l pool pool' pool'' i o b = ap placed o ∙ ap (λ m. m >>= λ p. some (some i, p)) b

-- With its thread started and a place free in the pool, `upil_sm_start` returns: the machine at the
-- place it took has a sound handler and is offline.
pub upil_sm_start_returns :
    (l : Loop) (pool : List Slot)
    → used pool < length pool
    → (i : ℕ) × (pool' : List Slot) × (fsm : Fsm) × (upil_sm_start (some l) pool
        ≡ some (some i, pool'))
      × (get_elem? pool' i ≡ some (record { in_use = true; fsm = fsm }))
      × IsSound fsm.handler
      × (fsm.cur_state ≡ some SmState.offline)
unfolding is_current
upil_sm_start_returns l pool room = elim (Option-cases (get_idle_fsm 0 pool)) [
  | inl e ↦ absurd (omega (arith, room, get_idle_fsm-none 0 pool e))
  | inr ((i, old), e) ↦
      let (_, _, _, within) = used-set 0 i pool old (prepared l old) e in
      let slot : Slot = record { in_use = true; fsm = prepared l old } in
      let mid : List Slot = set pool i slot in
      let at_i = get_elem?-set_self pool i slot (omega (arith, within)) in
      let (fsm, moved, sound, state') =
        transition_to_returns SmState.offline (prepared l old) (prepared-IsSound l old) in
      let inside : i < length mid = omega (arith, within, length-set pool i slot) in
      (
        i,
        set mid i (record { in_use = true; fsm = fsm }),
        fsm,
        started l pool mid _ i (obtained l pool i old e) (begun_lem mid i slot _ fsm at_i moved),
        get_elem?-set_self mid i (record { in_use = true; fsm = fsm }) inside,
        sound,
        state',
      )
]
