-- ===== src/Phone/Steps.antt =====
-- upil_sm.c with state_machine/state_machine.c: one message, and one transition, of the telephone.
use upil.Common.{
  ℕ, zero, suc, ◌≡◌, refl, ap, ◌∙◌, ◌⊎◌, inl, inr, true, false, ◌||◌, none, some, List, Bool-cases,
  Option-cases, arith, ltb, if◌then◌else◌,
}
use upil.Common.Memory.{◌>>=◌}
use upil.Handler.Defs.{Msg, Handler, process_defer_msg, process_defers}
use upil.Handler.Queue.{IsSound}
use upil.StateMachine.Defs.{
  Fsm, Action, FsmState, get_state, run_func, cur_of, exit_of, is_current, transition_to,
  process_msg,
}
use upil.Phone.Table.{state, my_state_table}
use upil.Codes.SmState
use upil.Phone.Calling.{dialing_enter, dialing_process}
use upil.Phone.Keeps.{Keeps, fits, overflows_in, overflows}
use upil.Phone.States.{
  offline_enter-Keeps, offline_process-Keeps, syncing_enter-Keeps, syncing_process-Keeps,
  idle_enter-Keeps, idle_process-Keeps, dialing_enter-Keeps, dialing_process-Keeps,
  dialing_process_faults, incoming_enter-Keeps, incoming_process-Keeps, conversation_enter-Keeps,
  conversation_process-Keeps, memo_enter-Keeps, memo_process-Keeps,
}

-- A row of the table whose functions return on a sound machine.
record IsSafe (id : ℕ) (s : FsmState) : Type 0 where
  pub enter : Action
  pub process : Msg → Action
  pub is_state : s ≡ state s.id enter process
  pub entered : Keeps enter
  pub processed : (msg : Msg) → fits msg ≡ true → overflows_in id msg ≡ false → Keeps (process msg)

safe :
    (id : ℕ) (enter : Action) (process : Msg → Action)
    → Keeps enter
    → ((msg : Msg) → fits msg ≡ true → overflows_in id msg ≡ false → Keeps (process msg))
    → IsSafe id (state id enter process)
unfolding state
safe id enter process e p = record {
  enter = enter;
  process = process;
  is_state = refl;
  entered = e;
  processed = p;
}

-- What the table holds under an identifier: a safe row, for those below 7 only.
in_table :
    (id : ℕ)
    → ((ltb id 7 ≡ false) × (get_state my_state_table id ≡ none))
      ⊎ ((ltb id 7 ≡ true)
          × ((s : FsmState) × (get_state my_state_table id ≡ some s) × IsSafe id s))
unfolding my_state_table get_state state
in_table zero =
    inr (refl, (_, refl, safe 0 _ _ offline_enter-Keeps (λ msg f fit. offline_process-Keeps msg)))
in_table (suc zero) =
    inr (refl, (_, refl, safe 1 _ _ syncing_enter-Keeps (λ msg f fit. syncing_process-Keeps msg)))
in_table (suc (suc zero)) =
    inr (refl, (_, refl, safe 2 _ _ idle_enter-Keeps (λ msg f fit. idle_process-Keeps msg f)))
in_table (suc (suc (suc zero))) =
    inr
      (refl, (_, refl, safe 3 _ _ dialing_enter-Keeps (λ msg f fit. dialing_process-Keeps msg fit)))
in_table (suc (suc (suc (suc zero)))) =
    inr
      (refl, (_, refl, safe 4 _ _ incoming_enter-Keeps (λ msg f fit. incoming_process-Keeps msg f)))
in_table (suc (suc (suc (suc (suc zero))))) = inr (
  refl,
  (_, refl, safe 5 _ _ conversation_enter-Keeps (λ msg f fit. conversation_process-Keeps msg)),
)
in_table (suc (suc (suc (suc (suc (suc zero)))))) =
    inr (refl, (_, refl, safe 6 _ _ memo_enter-Keeps (λ msg f fit. memo_process-Keeps msg)))
in_table (suc (suc (suc (suc (suc (suc (suc n))))))) = inl (ground arith, ground arith)

cur_of-none : (fsm : Fsm) → fsm.cur_state ≡ none → cur_of my_state_table fsm ≡ none
unfolding cur_of
cur_of-none fsm e = ap (λ o. o >>= get_state my_state_table) e

pub cur_of-some :
    (fsm : Fsm) (id : ℕ)
    → fsm.cur_state ≡ some id
    → cur_of my_state_table fsm ≡ get_state my_state_table id
unfolding cur_of
cur_of-some fsm id e = ap (λ o. o >>= get_state my_state_table) e

process_msg_nowhere :
    (table : List FsmState) (msg : Msg) (fsm : Fsm)
    → cur_of table fsm ≡ none
    → process_msg table msg fsm ≡ some (true, fsm)
unfolding process_msg
process_msg_nowhere table msg fsm e = rw (e, process_msg) refl

pub process_msg_in :
    (table : List FsmState) (id : ℕ) (enter : Action) (process : Msg → Action) (msg : Msg)
    (fsm fsm' : Fsm)
    → cur_of table fsm ≡ some (state id enter process)
    → process msg fsm ≡ some fsm'
    → process_msg table msg fsm ≡ some (true, fsm')
unfolding process_msg state
process_msg_in table id enter process msg fsm fsm' e p = rw (e, process_msg) (rw p refl)

-- Every message whose text fits, but a number that is too long to be dialled, is HANDLED in every
-- state: the call returns, the handler is sound afterwards, and the current state is as it was.
pub process_msg_returns :
    (msg : Msg) (fsm : Fsm)
    → IsSound fsm.handler
    → fits msg ≡ true
    → overflows msg fsm ≡ false
    → (fsm' : Fsm) × (process_msg my_state_table msg fsm ≡ some (true, fsm'))
      × IsSound fsm'.handler
      × (fsm'.cur_state ≡ fsm.cur_state)
unfolding process_msg state overflows
process_msg_returns msg fsm s f fit = elim (Option-cases fsm.cur_state) [
  | inl e ↦ (fsm, process_msg_nowhere my_state_table msg fsm (cur_of-none fsm e), s, refl)
  | inr (id, e) ↦ elim (in_table id) [
    | inl unknown ↦ (
      fsm,
      process_msg_nowhere my_state_table msg fsm (cur_of-some fsm id e ∙ unknown.1),
      s,
      refl,
    )
    | inr (known, (row, at_id, good)) ↦
        let (fsm', e', sound, same) = (good.processed msg f (rw e at fit)).kept fsm id e s in
        (
          fsm',
          process_msg_in my_state_table row.id good.enter good.process msg fsm fsm'
              (cur_of-some fsm id e ∙ at_id ∙ ap some good.is_state) e',
          sound,
          same,
        )
  ]
]

pub process_msg_in_faults :
    (table : List FsmState) (id : ℕ) (enter : Action) (process : Msg → Action) (msg : Msg)
    (fsm : Fsm)
    → cur_of table fsm ≡ some (state id enter process)
    → process msg fsm ≡ none
    → process_msg table msg fsm ≡ none
unfolding process_msg state
process_msg_in_faults table id enter process msg fsm e p = rw (e, process_msg) (rw p refl)

-- Such a number leaves the buffers of `tpp_send_cmd` when it is to be dialled.
pub process_msg-overflows :
    (msg : Msg) (fsm : Fsm) → overflows msg fsm ≡ true → process_msg my_state_table msg fsm ≡ none
unfolding overflows my_state_table get_state
process_msg-overflows msg fsm over = elim (Option-cases fsm.cur_state) [
  | inl e ↦ absurd (ground (arith, e, over))
  | inr (id, e) ↦
      let in_id : overflows_in id msg ≡ true = rw e at over in
      let here : id ≡ SmState.dialing = unfold overflows_in in ground (arith, in_id) in
      process_msg_in_faults my_state_table SmState.dialing dialing_enter dialing_process msg fsm
        (cur_of-some fsm SmState.dialing (e ∙ ap some here))
        (dialing_process_faults msg fsm (rw here at in_id))
]

-- Nothing is deferred on a sound handler.
pub process_defer_msg_none : (h : Handler) → IsSound h → process_defer_msg h ≡ h
unfolding process_defer_msg process_defers
process_defer_msg_none h s = ap (λ ms. process_defers ms h) s.no_defers

is_current-true : (id : ℕ) (fsm : Fsm) → is_current id fsm ≡ true → fsm.cur_state ≡ some id
unfolding is_current
is_current-true id fsm e = elim (Option-cases fsm.cur_state) [
  | inl o ↦ absurd (ground (arith, o, e))
  | inr (cur, o) ↦ ground (arith, o, e)
]

-- No row of the table has an `exit_func`.
exit_none :
    (table : List FsmState) (fsm : Fsm) (id : ℕ) (enter : Action) (process : Msg → Action)
    → cur_of table fsm ≡ some (state id enter process)
    → run_func (exit_of (cur_of table fsm)) fsm ≡ some fsm
unfolding state
exit_none table fsm id enter process e = ap (λ o. run_func (exit_of o) fsm) e

pub left_as_is : (fsm : Fsm) → run_func (exit_of (cur_of my_state_table fsm)) fsm ≡ some fsm
left_as_is fsm = elim (Option-cases fsm.cur_state) [
  | inl e ↦ ap (λ o. run_func (exit_of o) fsm) (cur_of-none fsm e)
  | inr (id, e) ↦ elim (in_table id) [
    | inl unknown ↦ ap (λ o. run_func (exit_of o) fsm) (cur_of-some fsm id e ∙ unknown.1)
    | inr (known, (row, at_id, good)) ↦
        exit_none my_state_table fsm row.id good.enter good.process
          (cur_of-some fsm id e ∙ at_id ∙ ap some good.is_state)
  ]
]

-- A transition to a state that is not the current one, of a machine that no `exit_func` changes.
pub transition_entered :
    (table : List FsmState) (id row : ℕ) (enter : Action) (process : Msg → Action) (fsm fsm' : Fsm)
    → is_current id fsm ≡ false
    → run_func (exit_of (cur_of table fsm)) fsm ≡ some fsm
    → get_state table id ≡ some (state row enter process)
    → enter (record fsm { cur_state = some id }) ≡ some fsm'
    → transition_to table id fsm
      ≡ some (true, record fsm' { handler = process_defer_msg fsm'.handler })
unfolding transition_to state
transition_entered table id row enter process fsm fsm' c x g e = rw (c, g) (rw x (rw e refl))

transition_here :
    (table : List FsmState) (id : ℕ) (fsm : Fsm)
    → is_current id fsm ≡ true
    → transition_to table id fsm ≡ some (true, fsm)
unfolding transition_to
transition_here table id fsm c = rw c refl

transition_unknown :
    (table : List FsmState) (id : ℕ) (fsm : Fsm)
    → is_current id fsm ≡ false
    → get_state table id ≡ none
    → transition_to table id fsm ≡ some (false, fsm)
unfolding transition_to
transition_unknown table id fsm c g = rw (c, g) refl

-- A transition returns on a sound machine. It is HANDLED exactly if the state asked for is the
-- current one or one of the table, which then is the current state; otherwise the state stays. The
-- handler is sound afterwards.
pub transition_to_returns :
    (id : ℕ) (fsm : Fsm)
    → IsSound fsm.handler
    → let known = is_current id fsm || ltb id 7 in
      (fsm' : Fsm) × (transition_to my_state_table id fsm ≡ some (known, fsm'))
      × IsSound fsm'.handler
      × (fsm'.cur_state ≡ (if known then some id else fsm.cur_state))
transition_to_returns id fsm s = elim (Bool-cases (is_current id fsm)) [
  | inl here ↦
      rw here (fsm, transition_here my_state_table id fsm here, s, is_current-true id fsm here)
  | inr away ↦ rw away (elim (in_table id) [
    | inl unknown ↦
        rw (unknown.0) (fsm, transition_unknown my_state_table id fsm away unknown.1, s, refl)
    | inr (known, (row, at_id, good)) ↦
        let (fsm', e, sound, same) =
          good.entered.kept (record fsm { cur_state = some id }) id refl s in
        rw known (
          record fsm' { handler = process_defer_msg fsm'.handler },
          transition_entered my_state_table id row.id good.enter good.process fsm fsm' away
              (left_as_is fsm) (at_id ∙ ap some good.is_state) e,
          rw (process_defer_msg_none fsm'.handler sound) sound,
          same,
        )
  ])
]
