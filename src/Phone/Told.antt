-- ===== src/Phone/Told.antt =====
-- upil_sm.c: the states that the monitor is told of.
use upil.Common.{
  ℕ, zero, suc, ◌+◌, ◌≡◌, refl, inl, inr, Bool, true, false, ◌&&◌, Option, none, some, Bool-cases,
  arith, ◌==◌, leb, if◌then◌else◌,
}
use upil.Common.Ensures.{fault, returns}
use upil.Codes.Evt
use upil.Codes.Notice
use upil.Handler.Defs.{Msg}
use upil.StateMachine.Defs.{
  Effect, Action, command, notice, audio_start, audio_stop, audio_play_file, audio_record_file, Fsm,
  get_state,
}
use upil.Phone.Waiting.{
  offline_enter, offline_process, syncing_enter, syncing_process, idle_enter, idle_process,
}
use upil.Phone.Calling.{
  dialing_enter, dialing_process, incoming_enter, incoming_process, conversation_enter,
  conversation_process, memo_enter, memo_process,
}
use upil.Phone.Reached.{Reachable}
use upil.Phone.Table.{my_state_table, state}
use upil.Phone.Lasting.{right_in, IsTuned, IsTable, out_of_table, Ends-IsTuned, Reachable-right_in}
use upil.Phone.Defs.{default_process}
use upil.Phone.Hushed.{
  is_allowed, Hushes, Ends, Ends-emit, Ends-then, then-Ends, hushing, Hushes-default,
}

-- A notice that the telephone is in a state.
abbrev pub is_state : Effect → Bool
is_state (command req payload) = false
is_state (notice what payload) = leb Notice.offline what && leb what Notice.memo
is_state audio_start = false
is_state audio_stop = false
is_state audio_play_file = false
is_state audio_record_file = false

default_process-Hushes : (s : Bool) (msg : Msg) → Hushes is_state s (default_process msg)
default_process-Hushes s msg = Hushes-default is_state s msg (λ req payload. refl)

-- The codes of messages of the device are not those of states.
call_id_allowed :
    (msg : Msg)
    → msg.what == Evt.call_id ≡ true
    → is_allowed is_state true (notice msg.what msg.payload) ≡ true
unfolding is_allowed
call_id_allowed msg e = ground (arith, e)

offline_enter-Ends : Ends is_state (notice 352 none) offline_enter
unfolding offline_enter is_allowed
offline_enter-Ends = search (Ends-emit, Ends-then, then-Ends, hushing) depth 12

syncing_enter-Ends : Ends is_state (notice 353 none) syncing_enter
unfolding syncing_enter is_allowed
syncing_enter-Ends = search (Ends-emit, Ends-then, then-Ends, hushing) depth 20

idle_enter-Ends : Ends is_state (notice 354 none) idle_enter
unfolding idle_enter is_allowed
idle_enter-Ends = search (Ends-emit, Ends-then, then-Ends, hushing) depth 12

dialing_enter-Ends : Ends is_state (notice 355 none) dialing_enter
unfolding dialing_enter is_allowed
dialing_enter-Ends = search (Ends-emit, Ends-then, then-Ends, hushing) depth 12

incoming_enter-Ends : Ends is_state (notice 356 none) incoming_enter
unfolding incoming_enter is_allowed
incoming_enter-Ends = search (Ends-emit, Ends-then, then-Ends, hushing) depth 12

conversation_enter-Ends : Ends is_state (notice 357 none) conversation_enter
unfolding conversation_enter is_allowed
conversation_enter-Ends = search (Ends-emit, Ends-then, then-Ends, hushing) depth 12

memo_enter-Ends : Ends is_state (notice 358 none) memo_enter
unfolding memo_enter is_allowed
memo_enter-Ends = search (Ends-emit, Ends-then, then-Ends, hushing) depth 12

Hushes-else :
    (a : Action) {b : Action}
    → Hushes is_state true b
    → Hushes is_state true (if false then a else b)
Hushes-else a p = p

idle_process-Hushes : (msg : Msg) → Hushes is_state true (idle_process msg)
unfolding idle_process is_allowed
idle_process-Hushes msg = elim (Bool-cases (msg.what == Evt.call_id)) [
  | inl told ↦
      let allowed = call_id_allowed msg told in
      search (default_process-Hushes, hushing, allowed) depth 12
  | inr other ↦ rw other (search (default_process-Hushes, hushing, Hushes-else) depth 12)
]

incoming_process-Hushes : (msg : Msg) → Hushes is_state true (incoming_process msg)
unfolding incoming_process is_allowed
incoming_process-Hushes msg = elim (Bool-cases (msg.what == Evt.call_id)) [
  | inl told ↦
      let allowed = call_id_allowed msg told in
      search (default_process-Hushes, hushing, allowed) depth 12
  | inr other ↦ rw other (search (default_process-Hushes, hushing, Hushes-else) depth 12)
]

dialing_process-Hushes : (msg : Msg) → Hushes is_state true (dialing_process msg)
unfolding dialing_process is_allowed
dialing_process-Hushes msg = search (default_process-Hushes, hushing) depth 12

conversation_process-Hushes : (msg : Msg) → Hushes is_state true (conversation_process msg)
unfolding conversation_process is_allowed
conversation_process-Hushes msg = search (default_process-Hushes, hushing) depth 12

offline_process-Hushes : (msg : Msg) → Hushes is_state true (offline_process msg)
unfolding offline_process is_allowed
offline_process-Hushes msg = search (default_process-Hushes, hushing) depth 12

syncing_process-Hushes : (msg : Msg) → Hushes is_state true (syncing_process msg)
unfolding syncing_process is_allowed
syncing_process-Hushes msg = search (default_process-Hushes, hushing) depth 12

memo_process-Hushes : (msg : Msg) → Hushes is_state true (memo_process msg)
unfolding memo_process is_allowed
memo_process-Hushes msg = search (default_process-Hushes, hushing) depth 16

-- Whether this may be the last notice of a state, in a state: it is the state's own.
unfoldable pub is_own : ℕ → Option Effect → Bool
is_own id o = elim o [
  | none ↦ false
  | some e ↦ elim e [ notice what payload ↦ what == Notice.offline + id | _ ↦ false ]
]

abbrev pub told_right : Fsm → Bool
told_right = right_in is_state is_own

own_row :
    (id : ℕ) (enter : Action) (process : Msg → Action)
    → Notice.offline + id == Notice.offline + id ≡ true
    → Ends is_state (notice (Notice.offline + id) none) enter
    → ((msg : Msg) → Hushes is_state true (process msg))
    → IsTuned is_state is_own id (state id enter process)
unfolding is_own
own_row id enter process same e p =
    Ends-IsTuned is_state is_own id enter process (notice (Notice.offline + id) none) same e p

in_table-IsTable : IsTable is_state is_own
unfolding my_state_table get_state
in_table-IsTable zero = returns (own_row 0 _ _ refl offline_enter-Ends offline_process-Hushes)
in_table-IsTable (suc zero) = returns (own_row 1 _ _ refl syncing_enter-Ends syncing_process-Hushes)
in_table-IsTable (suc (suc zero)) = returns (own_row 2 _ _ refl idle_enter-Ends idle_process-Hushes)
in_table-IsTable (suc (suc (suc zero))) =
    returns (own_row 3 _ _ refl dialing_enter-Ends dialing_process-Hushes)
in_table-IsTable (suc (suc (suc (suc zero)))) =
    returns (own_row 4 _ _ refl incoming_enter-Ends incoming_process-Hushes)
in_table-IsTable (suc (suc (suc (suc (suc zero))))) =
    returns (own_row 5 _ _ refl conversation_enter-Ends conversation_process-Hushes)
in_table-IsTable (suc (suc (suc (suc (suc (suc zero)))))) =
    returns (own_row 6 _ _ refl memo_enter-Ends memo_process-Hushes)
in_table-IsTable (suc (suc (suc (suc (suc (suc (suc n))))))) = rw (out_of_table n) fault

-- In every machine that a telephone comes to be, the last state that the monitor was told of is the
-- one that the telephone is in.
pub Reachable-told_right : (fsm : Fsm) → Reachable fsm → told_right fsm ≡ true
Reachable-told_right = Reachable-right_in is_state is_own in_table-IsTable (λ l old. refl)
