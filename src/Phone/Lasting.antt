-- ===== src/Phone/Lasting.antt =====
-- upil_sm.c: which effect of a kind is the last in each state. `right` tells whether it may be.
use upil.Common.{
  ℕ, suc, ◌≡◌, refl, ap, ◌∙◌, inl, inr, Bool, true, false, Option, none, some, Bool-cases,
  Option-cases, arith, ◌==◌,
}
use upil.Common.Memory.{◌>>=◌}
use upil.Common.Ensures.{Ensures, fault, returns, Ensures-bind, of_ensures}
use upil.Codes.SmState
use upil.Handler.Defs.{Msg}
use upil.StateMachine.Defs.{
  Effect, Fsm, Action, FsmState, get_state, run_func, cur_of, is_current, transition_to,
  process_msg,
}
use upil.Codes.Evt
use upil.Handler.Defs
use upil.StateMachine.Defs.{sm_process_message, int_of}
use upil.StateMachine.Pool.{prepared}
use upil.Control.Commands.{upil_sm_send_msg}
use upil.Phone.Steps.{left_as_is}
use upil.Phone.Reached.{Reachable, started, posted, looped, fired}
use upil.Phone.Table.{my_state_table, state}
use upil.Phone.Hushed.{last_of, Hushes, Ends}

pub out_of_table :
    (n : ℕ) → get_state my_state_table (suc (suc (suc (suc (suc (suc (suc n))))))) ≡ none
unfolding my_state_table get_state state
out_of_table n = ground arith

module _ (kind : Effect → Bool) (right : ℕ → Option Effect → Bool) where
  abbrev pub right_at : Option ℕ → Option Effect → Bool
  right_at none o = true
  right_at (some id) o = right id o

  abbrev pub right_in : Fsm → Bool
  right_in fsm = right_at fsm.cur_state (last_of kind fsm.effects)

  -- A machine with a result of the call.
  abbrev pub IsTunedThen : Bool × Fsm → Type 0
  IsTunedThen r = right_in r.1 ≡ true

  -- What entering a state, or a message in it, leaves.
  pub record IsTuned (id : ℕ) (s : FsmState) : Type 0 where
    pub enter :
        (fsm : Fsm)
        → fsm.cur_state ≡ some id
        → Ensures (λ (f : Fsm). right_in f ≡ true) (run_func s.enter_func fsm)
    pub process :
        (msg : Msg) (fsm : Fsm)
        → fsm.cur_state ≡ some id
        → right_in fsm ≡ true
        → Ensures IsTunedThen (elim s.process_func [ none ↦ some (true, fsm) | some f ↦ f msg fsm ])

  Ensures-map :
      {P Q : Fsm → Type 0} (m : Option Fsm) → ((f : Fsm) → P f → Q f) → Ensures P m → Ensures Q m
  Ensures-map none h e = fault
  Ensures-map (some f) h (returns p) = returns (h f p)

  -- A state in which any effect may be the last.
  pub free-IsTuned :
      (id : ℕ) (enter : Action) (process : Msg → Action)
      → ((o : Option Effect) → right id o ≡ true)
      → Hushes kind false enter
      → ((msg : Msg) → Hushes kind false (process msg))
      → IsTuned id (state id enter process)
  unfolding state
  free-IsTuned id enter process free e p = record {
    enter = λ fsm here.
        Ensures-map (enter fsm) (λ f h. rw (h.same_state ∙ here) (free (last_of kind f.effects)))
          (e.hushed fsm);
    process = λ msg fsm here right. Ensures-bind (process msg fsm) _ (λ f done. returns (
        let h = of_ensures (rw done at ((p msg).hushed fsm)) in
        rw (h.same_state ∙ here) (free (last_of kind f.effects))));
  }

  -- One in which it is `x`.
  pub Ends-IsTuned :
      (id : ℕ) (enter : Action) (process : Msg → Action) (x : Effect)
      → right id (some x) ≡ true
      → Ends kind x enter
      → ((msg : Msg) → Hushes kind true (process msg))
      → IsTuned id (state id enter process)
  unfolding state
  Ends-IsTuned id enter process x right e p = record {
    enter = λ fsm here.
        Ensures-map (enter fsm) (λ f h. rw (h.same_state ∙ here, h.last) right) (e.ends fsm);
    process = λ msg fsm here before. Ensures-bind (process msg fsm) _ (λ f done. returns (
        let h = of_ensures (rw done at ((p msg).hushed fsm)) in
        ap (λ c. right_at c (last_of kind f.effects)) h.same_state
        ∙ (ap (λ o. right_at fsm.cur_state o) (h.same_last refl) ∙ before)));
  }

  -- The rows of the table are such states.
  abbrev pub IsTable : Type 0
  IsTable = (id : ℕ) → Ensures (IsTuned id) (get_state my_state_table id)

  processed-IsTunedThen :
      IsTable
      → (msg : Msg) (fsm : Fsm) → right_in fsm ≡ true
      → Ensures IsTunedThen (process_msg my_state_table msg fsm)
  unfolding process_msg cur_of
  processed-IsTunedThen in_table msg fsm r =
      elim (Option-cases (fsm.cur_state >>= get_state my_state_table)) [
        | inl e ↦ rw (e, process_msg) (returns r)
        | inr (s, e) ↦
            let (id, here, tuned) = at_state s e in
            rw (e, process_msg) (tuned.process msg fsm here r)
      ]
    where
      at_state :
          (s : FsmState)
          → (fsm.cur_state >>= get_state my_state_table) ≡ some s
          → (id : ℕ) × (fsm.cur_state ≡ some id) × IsTuned id s
      at_state s e = elim (Option-cases fsm.cur_state) [
        | inl n ↦ absurd (ground (arith, n, e))
        | inr (id, at_id) ↦ (id, at_id, of_ensures (rw (rw at_id at e) at (in_table id)))
      ]

  moved-IsTunedThen :
      IsTable
      → (id : ℕ) (fsm : Fsm) → right_in fsm ≡ true
      → Ensures IsTunedThen (transition_to my_state_table id fsm)
  unfolding transition_to
  moved-IsTunedThen in_table id fsm r = elim (Bool-cases (is_current id fsm)) [
    | inl here ↦ rw here (returns r)
    | inr away ↦ elim (Option-cases (get_state my_state_table id)) [
      | inl unknown ↦ rw (away, unknown) (returns r)
      | inr (s, e) ↦
          let tuned : IsTuned id s = of_ensures (rw e at (in_table id)) in
          let entered : Fsm = record fsm { cur_state = some id } in
          rw (away, e)
            (rw (left_as_is fsm) (
              Ensures-bind (run_func s.enter_func entered) _
                (λ fsm' done. returns (of_ensures (rw done at (tuned.enter entered refl))))))
    ]
  ]

  fired-IsTunedThen :
      IsTable
      → (msg : Msg) (fsm : Fsm) → right_in fsm ≡ true
      → Ensures IsTunedThen (sm_process_message my_state_table msg fsm)
  unfolding sm_process_message
  fired-IsTunedThen in_table msg fsm r =
      let taken : Fsm = record fsm { handler = Defs.remove_from_list msg.id fsm.handler } in
      elim (Bool-cases (msg.what == Evt.sm_transition)) [
        | inl move ↦
            rw move
              (Ensures-bind (int_of msg.payload) _ (λ id e. moved-IsTunedThen in_table id taken r))
        | inr other ↦ rw other (processed-IsTunedThen in_table msg taken r)
      ]

  -- In every machine that a telephone comes to be, the last effect of the kind is one that may be the
  -- last in its state.
  pub Reachable-right_in :
      IsTable
      → ((l : _) (old : Fsm) → right_in (prepared l old) ≡ true)
      → (fsm : Fsm) → Reachable fsm
      → right_in fsm ≡ true
  unfolding upil_sm_send_msg
  Reachable-right_in in_table fresh _ (started l old fsm ok h e) =
      of_ensures
        (rw e at (moved-IsTunedThen in_table SmState.offline (prepared l old) (fresh l old)))
  Reachable-right_in in_table fresh _ (posted what payload fsm s r) =
      Reachable-right_in in_table fresh fsm r
  Reachable-right_in in_table fresh _ (looped l fsm r) = Reachable-right_in in_table fresh fsm r
  Reachable-right_in in_table fresh fsm' (fired p q msg fsm _ ok e done r) =
      of_ensures
        (rw done at (fired-IsTunedThen in_table msg fsm (Reachable-right_in in_table fresh fsm r)))
