-- ===== src/Phone/Settled.antt =====
-- upil_sm.c with state_machine/state_machine.c: in every state, a message and a transition leave a
-- ready machine.
use upil.Common.{
  ℕ, Bool-cases, ◌≡◌, Bool, true, none, some, zero, suc, arith, Option-cases, inl, inr,
}
use upil.Common.Memory.{◌>>=◌}
use upil.Common.Ensures.{Ensures, fault, returns, Ensures-bind, of_ensures}
use upil.Handler.Defs.{Msg, Handler}
use upil.StateMachine.Defs.{
  Fsm, Action, FsmState, get_state, run_func, cur_of, is_current, transition_to, process_msg,
}
use upil.Phone.Waiting.{
  offline_enter, offline_process, syncing_enter, syncing_process, idle_enter, idle_process,
}
use upil.Phone.Calling.{
  dialing_enter, dialing_process, incoming_enter, incoming_process, conversation_enter,
  conversation_process, memo_enter, memo_process,
}
use upil.Phone.Table.{my_state_table, state}
use upil.Phone.Steps.{left_as_is}
use upil.Handler.Tracked.{process_defer_msg-IsTracked}
use upil.Phone.Ready.{IsReadyFrom, process_defer_msg_valid}
use upil.Phone.Readies.{
  is_bare, Readies, Readies-forget, Readies-incoming, Readies-outgoing, Readies-ring,
  Readies-dial_later, Readies-default, moves,
}

offline_process-Readies : (msg : Msg) → Readies (offline_process msg)
unfolding offline_process is_bare
offline_process-Readies msg = search (Readies-default, moves) depth 12

syncing_process-Readies : (msg : Msg) → Readies (syncing_process msg)
unfolding syncing_process is_bare
syncing_process-Readies msg = search (Readies-default, moves) depth 12

idle_process-Readies : (msg : Msg) → Readies (idle_process msg)
unfolding idle_process is_bare
idle_process-Readies msg =
    search (Readies-default, Readies-outgoing, Readies-incoming, Readies-ring, moves) depth 12

dialing_process-Readies : (msg : Msg) → Readies (dialing_process msg)
unfolding dialing_process is_bare
dialing_process-Readies msg = search (Readies-default, moves) depth 12

incoming_process-Readies : (msg : Msg) → Readies (incoming_process msg)
unfolding incoming_process is_bare
incoming_process-Readies msg = search (Readies-default, Readies-incoming, moves) depth 12

conversation_process-Readies : (msg : Msg) → Readies (conversation_process msg)
unfolding conversation_process is_bare
conversation_process-Readies msg = search (Readies-default, moves) depth 12

memo_process-Readies : (msg : Msg) → Readies (memo_process msg)
unfolding memo_process is_bare
memo_process-Readies msg = search (Readies-default, moves) depth 16

offline_enter-Readies : Readies offline_enter
unfolding offline_enter is_bare
offline_enter-Readies = search (moves) depth 12

syncing_enter-Readies : Readies syncing_enter
unfolding syncing_enter is_bare
syncing_enter-Readies = search (moves) depth 16

idle_enter-Readies : Readies idle_enter
unfolding idle_enter is_bare
idle_enter-Readies = search (Readies-forget, moves) depth 12

dialing_enter-Readies : Readies dialing_enter
unfolding dialing_enter is_bare
dialing_enter-Readies = search (Readies-dial_later, moves) depth 12

incoming_enter-Readies : Readies incoming_enter
unfolding incoming_enter is_bare
incoming_enter-Readies = search (moves) depth 12

conversation_enter-Readies : Readies conversation_enter
unfolding conversation_enter is_bare
conversation_enter-Readies = search (moves) depth 12

memo_enter-Readies : Readies memo_enter
unfolding memo_enter is_bare
memo_enter-Readies = search (moves) depth 12

-- What entering a state, or a message in it, returns: a ready machine.
record IsSettled (s : FsmState) : Type 0 where
  pub enter :
      (h0 : Handler) (fsm : Fsm)
      → IsReadyFrom h0 fsm
      → Ensures (IsReadyFrom h0) (run_func s.enter_func fsm)
  pub process :
      (h0 : Handler) (msg : Msg) (fsm : Fsm)
      → IsReadyFrom h0 fsm
      → Ensures
          (λ (r : Bool × Fsm). IsReadyFrom h0 r.1)
          (elim s.process_func [ none ↦ some (true, fsm) | some f ↦ f msg fsm ])

settled :
    (id : ℕ) (enter : Action) (process : Msg → Action)
    → Readies enter
    → ((msg : Msg) → Readies (process msg))
    → IsSettled (state id enter process)
unfolding state
settled id enter process e p = record {
  enter = λ h0 fsm r. e.ready h0 fsm r;
  process = λ h0 msg fsm r.
      Ensures-bind (process msg fsm) _
        (λ fsm' done. returns (of_ensures (rw done at ((p msg).ready h0 fsm r))));
}

out_of_table : (n : ℕ) → get_state my_state_table (suc (suc (suc (suc (suc (suc (suc n))))))) ≡ none
unfolding my_state_table get_state state
out_of_table n = ground arith

settled_in_table : (id : ℕ) → Ensures IsSettled (get_state my_state_table id)
unfolding my_state_table get_state
settled_in_table zero = returns (settled 0 _ _ offline_enter-Readies offline_process-Readies)
settled_in_table (suc zero) = returns (settled 1 _ _ syncing_enter-Readies syncing_process-Readies)
settled_in_table (suc (suc zero)) = returns (settled 2 _ _ idle_enter-Readies idle_process-Readies)
settled_in_table (suc (suc (suc zero))) =
    returns (settled 3 _ _ dialing_enter-Readies dialing_process-Readies)
settled_in_table (suc (suc (suc (suc zero)))) =
    returns (settled 4 _ _ incoming_enter-Readies incoming_process-Readies)
settled_in_table (suc (suc (suc (suc (suc zero))))) =
    returns (settled 5 _ _ conversation_enter-Readies conversation_process-Readies)
settled_in_table (suc (suc (suc (suc (suc (suc zero)))))) =
    returns (settled 6 _ _ memo_enter-Readies memo_process-Readies)
settled_in_table (suc (suc (suc (suc (suc (suc (suc n))))))) = rw (out_of_table n) (fault)

-- A machine with a result of the call.
abbrev pub IsReadyThen : Handler → Bool × Fsm → Type 0
IsReadyThen h0 r = IsReadyFrom h0 r.1

pub process_msg-IsReady :
    (h0 : Handler) (msg : Msg) (fsm : Fsm)
    → IsReadyFrom h0 fsm
    → Ensures (IsReadyThen h0) (process_msg my_state_table msg fsm)
unfolding process_msg cur_of
process_msg-IsReady h0 msg fsm r =
    elim (Option-cases (fsm.cur_state >>= get_state my_state_table)) [
      | inl e ↦ rw (e, process_msg) (returns r)
      | inr (s, e) ↦ rw (e, process_msg) ((at_state s e).process h0 msg fsm r)
    ]
  where
    at_state : (s : FsmState) → (fsm.cur_state >>= get_state my_state_table) ≡ some s → IsSettled s
    at_state s e = elim (Option-cases fsm.cur_state) [
      | inl n ↦ absurd (ground (arith, n, e))
      | inr (id, at_id) ↦ of_ensures (rw (rw at_id at e) at (settled_in_table id))
    ]

pub transition_to-IsReady :
    (h0 : Handler) (id : ℕ) (fsm : Fsm)
    → IsReadyFrom h0 fsm
    → Ensures (IsReadyThen h0) (transition_to my_state_table id fsm)
unfolding transition_to
transition_to-IsReady h0 id fsm r = elim (Bool-cases (is_current id fsm)) [
  | inl here ↦ rw here (returns r)
  | inr away ↦ elim (Option-cases (get_state my_state_table id)) [
    | inl unknown ↦ rw (away, unknown) (returns r)
    | inr (s, e) ↦
        let good : IsSettled s = of_ensures (rw e at (settled_in_table id)) in
        rw (away, e)
          (rw (left_as_is fsm) (
            Ensures-bind (run_func s.enter_func (record fsm { cur_state = some id })) _
              (λ fsm' done.
                let r' : IsReadyFrom h0 fsm' = of_ensures (
                  rw done at (
                    good.enter h0 (record fsm { cur_state = some id })
                      (record { queued = r.queued; short = r.short; tracks = r.tracks }))) in
                returns (record {
                  queued = process_defer_msg_valid fsm'.handler r'.queued;
                  short = r'.short;
                  tracks = λ t. process_defer_msg-IsTracked fsm'.handler (r'.tracks t);
                }))))
  ]
]
