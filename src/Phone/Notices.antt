-- ===== src/Phone/Notices.antt =====
-- upil_sm.c: the monitor is told of every state that is entered.
use upil.Common.{
  ℕ, zero, suc, ◌+◌, ◌≡◌, refl, ap, ◌∙◌, true, false, Option, none, some, List, [], ◌∷◌, ◌++◌,
  append-nil, append_assoc, ltb, arith,
}
use upil.Common.Memory.{Bytes}
use upil.Common.Buffers.{>>=-eq-some}
use upil.Codes.Notice
use upil.Codes.Ctl
use upil.Handler.Defs.{Msg, process_defer_msg}
use upil.Handler.Queue.{IsSound}
use upil.StateMachine.Defs.{
  Effect, notice, Fsm, Action, ◌>>◌, send, sm_remove_message_id, get_state, is_current,
  transition_to,
}
use upil.Phone.Defs.{emit, dial_delay}
use upil.Phone.Waiting.{
  offline_enter, offline_process, syncing_enter, syncing_process, forget_incoming, idle_enter,
  idle_process,
}
use upil.Phone.Calling.{
  dial_later, dialing_enter, dialing_process, incoming_enter, incoming_process, conversation_enter,
  conversation_process, memo_enter, memo_process,
}
use upil.Phone.Table.{state, my_state_table}
use upil.Phone.Keeps.{Keeps}
use upil.Phone.States.{
  offline_enter-Keeps, syncing_enter-Keeps, idle_enter-Keeps, dialing_enter-Keeps,
  incoming_enter-Keeps, conversation_enter-Keeps, memo_enter-Keeps,
}
use upil.Phone.Steps.{left_as_is, transition_entered}

-- The action only adds to the effects.
pub record Adds (a : Action) : Type 0 where
  pub added :
      (fsm fsm' : Fsm) → a fsm ≡ some fsm' → (es : List Effect) × (fsm'.effects ≡ fsm.effects ++ es)

-- The first thing that it adds is a notice.
pub record Announces (n : ℕ) (a : Action) : Type 0 where
  pub announced :
      (fsm fsm' : Fsm)
      → a fsm ≡ some fsm'
      → (es : List Effect) × (fsm'.effects ≡ fsm.effects ++ (notice n none ∷ es))

Adds-then : {a b : Action} → Adds a → Adds b → Adds (a >> b)
Adds-then {a} {b} p q = record {
  added = λ fsm fsm' e.
      let (mid, run_a, run_b) = >>=-eq-some (a fsm) b e in
      let (es, first) = p.added fsm mid run_a in
      let (fs, second) = q.added mid fsm' run_b in
      (es ++ fs, second ∙ ap (λ xs. xs ++ fs) first ∙ append_assoc fsm.effects es fs);
}

Adds-emit : (e : Effect) → Adds (emit e)
unfolding emit
Adds-emit e = record {
  added = λ fsm fsm' r.
      let same : record fsm { effects = fsm.effects ++ (e ∷ []) } ≡ fsm' = cc r in
      (e ∷ [], rw (← same) refl);
}

-- An action that leaves the effects alone.
quiet :
    (fsm mid fsm' : Fsm)
    → mid.effects ≡ fsm.effects
    → some mid ≡ some fsm'
    → (es : List Effect) × (fsm'.effects ≡ fsm.effects ++ es)
quiet fsm mid fsm' e r = let same : mid ≡ fsm' = cc r in ([], rw (← same) (e ∙ rw append-nil refl))

Adds-send : (what : ℕ) (data_in : Option Bytes) (msec : ℕ) → Adds (send what data_in msec)
unfolding send
Adds-send what data_in msec = record { added = λ fsm fsm' r. quiet fsm _ fsm' refl r }

Adds-remove : (what : ℕ) → Adds (sm_remove_message_id what)
unfolding sm_remove_message_id
Adds-remove what = record { added = λ fsm fsm' r. quiet fsm _ fsm' refl r }

Adds-forget : Adds forget_incoming
unfolding forget_incoming
Adds-forget = record { added = λ fsm fsm' r. quiet fsm _ fsm' refl r }

ruleset adding = (Adds-then, Adds-emit, Adds-send, Adds-remove, Adds-forget)

Announces-emit : (n : ℕ) {a : Action} → Adds a → Announces n (emit (notice n none) >> a)
unfolding emit
Announces-emit n {a} p = record {
  announced = λ fsm fsm' e.
      let (es, rest) =
        p.added (record fsm { effects = fsm.effects ++ (notice n none ∷ []) }) fsm' e in
      (es, rest ∙ append_assoc fsm.effects (notice n none ∷ []) es);
}

dialled :
    (num : Bytes) (fsm fsm' : Fsm)
    → (elim num [ [] ↦ some fsm | d ∷ ds ↦ send Ctl.ask_dtmf_tx (some (d ∷ ds)) dial_delay fsm ])
      ≡ some fsm'
    → (es : List Effect) × (fsm'.effects ≡ fsm.effects ++ es)
dialled [] fsm fsm' r = quiet fsm fsm fsm' refl r
dialled (d ∷ ds) fsm fsm' r =
    (Adds-send Ctl.ask_dtmf_tx (some (d ∷ ds)) dial_delay).added fsm fsm' r

Adds-dial_later : Adds dial_later
unfolding dial_later
Adds-dial_later = record { added = λ fsm. dialled fsm.last_outgoing_num fsm }

syncing_enter-Announces : Announces Notice.syncing syncing_enter
unfolding syncing_enter
syncing_enter-Announces = Announces-emit Notice.syncing (search (adding) depth 16)

-- Going offline first takes the poll timer out of the queue, which adds no effect.
offline_enter-Announces : Announces Notice.offline offline_enter
unfolding offline_enter sm_remove_message_id emit
offline_enter-Announces = record {
  announced = λ fsm fsm' r.
      let (fs, e) =
        quiet (record fsm { effects = fsm.effects ++ (notice Notice.offline none ∷ []) }) _ fsm'
          refl r in
      (fs, e ∙ append_assoc fsm.effects (notice Notice.offline none ∷ []) fs);
}

idle_enter-Announces : Announces Notice.idle idle_enter
unfolding idle_enter
idle_enter-Announces = Announces-emit Notice.idle (search (adding) depth 8)

dialing_enter-Announces : Announces Notice.dialing dialing_enter
unfolding dialing_enter
dialing_enter-Announces = Announces-emit Notice.dialing (search (Adds-dial_later, adding) depth 8)

incoming_enter-Announces : Announces Notice.incoming incoming_enter
unfolding incoming_enter
incoming_enter-Announces = Announces-emit Notice.incoming (search (adding) depth 8)

conversation_enter-Announces : Announces Notice.conversation conversation_enter
unfolding conversation_enter
conversation_enter-Announces = Announces-emit Notice.conversation (search (adding) depth 8)

memo_enter-Announces : Announces Notice.memo memo_enter
unfolding memo_enter
memo_enter-Announces = Announces-emit Notice.memo (search (adding) depth 8)

-- What a transition to the state `id` comes to.
abbrev Announced : ℕ → Fsm → Type 0
Announced id fsm =
    (fsm' : Fsm) × (es : List Effect) × (transition_to my_state_table id fsm ≡ some (true, fsm'))
    × (fsm'.effects ≡ fsm.effects ++ (notice (Notice.offline + id) none ∷ es))

entered :
    (id : ℕ) (enter : Action) (process : Msg → Action) (fsm : Fsm)
    → get_state my_state_table id ≡ some (state id enter process)
    → Keeps enter
    → Announces (Notice.offline + id) enter
    → IsSound fsm.handler
    → is_current id fsm ≡ false
    → Announced id fsm
entered id enter process fsm g k a s away =
    let (end, e, sound, same) = k.kept (record fsm { cur_state = some id }) id refl s in
    let (es, told) = a.announced (record fsm { cur_state = some id }) end e in
    (
      record end { handler = process_defer_msg end.handler },
      es,
      transition_entered my_state_table id id enter process fsm end away (left_as_is fsm) g e,
      told,
    )

-- A transition of a machine with a sound handler, to a state of the table that is not the current
-- one, keeps the record of what was done and adds to it, first of all, the notice of that state.
pub transition_to_notice :
    (id : ℕ) (fsm : Fsm)
    → ltb id 7 ≡ true
    → IsSound fsm.handler
    → is_current id fsm ≡ false
    → (fsm' : Fsm) × (es : List Effect) × (transition_to my_state_table id fsm ≡ some (true, fsm'))
      × (fsm'.effects ≡ fsm.effects ++ (notice (Notice.offline + id) none ∷ es))
unfolding my_state_table get_state
transition_to_notice zero fsm h s away =
    entered 0 _ offline_process fsm refl offline_enter-Keeps offline_enter-Announces s away
transition_to_notice (suc zero) fsm h s away =
    entered 1 _ syncing_process fsm refl syncing_enter-Keeps syncing_enter-Announces s away
transition_to_notice (suc (suc zero)) fsm h s away =
    entered 2 _ idle_process fsm refl idle_enter-Keeps idle_enter-Announces s away
transition_to_notice (suc (suc (suc zero))) fsm h s away =
    entered 3 _ dialing_process fsm refl dialing_enter-Keeps dialing_enter-Announces s away
transition_to_notice (suc (suc (suc (suc zero)))) fsm h s away =
    entered 4 _ incoming_process fsm refl incoming_enter-Keeps incoming_enter-Announces s away
transition_to_notice (suc (suc (suc (suc (suc zero))))) fsm h s away =
    entered 5 _ conversation_process fsm refl conversation_enter-Keeps conversation_enter-Announces
      s away
transition_to_notice (suc (suc (suc (suc (suc (suc zero)))))) fsm h s away =
    entered 6 _ memo_process fsm refl memo_enter-Keeps memo_enter-Announces s away
transition_to_notice (suc (suc (suc (suc (suc (suc (suc n))))))) fsm h s away =
    absurd (ground (arith, h))
