-- ===== src/Phone/Sounds.antt =====
-- upil_sm.c: the audio in each state of a call.
use upil.Common.{
  ℕ, zero, suc, ◌≡◌, refl, Bool, true, false, ◌||◌, Option, none, some, ◌==◌, if◌then◌else◌,
}
use upil.Common.Ensures.{fault, returns}
use upil.Codes.SmState
use upil.Handler.Defs.{Msg}
use upil.StateMachine.Defs.{
  Effect, command, notice, audio_start, audio_stop, audio_play_file, audio_record_file, Fsm,
  get_state,
}
use upil.Phone.Waiting.{
  offline_enter, offline_process, syncing_enter, syncing_process, idle_enter, idle_process,
}
use upil.Phone.Calling.{
  dialing_enter, dialing_process, incoming_enter, incoming_process, conversation_enter,
  conversation_process, memo_enter, memo_process,
}
use upil.Phone.Reached.{Reachable}
use upil.Phone.Table.{my_state_table}
use upil.Phone.Lasting.{
  right_in, IsTable, out_of_table, free-IsTuned, Ends-IsTuned, Reachable-right_in,
}
use upil.Phone.Defs.{default_process}
use upil.Phone.Hushed.{
  is_allowed, Hushes, Ends, Ends-emit, Ends-then, then-Ends, hushing, Hushes-default,
}

abbrev pub is_sound : Effect → Bool
is_sound (command req payload) = false
is_sound (notice what payload) = false
is_sound audio_start = true
is_sound audio_stop = true
is_sound audio_play_file = true
is_sound audio_record_file = true

-- What the states share sends commands to the device only.
default_process-Hushes : (s : Bool) (msg : Msg) → Hushes is_sound s (default_process msg)
default_process-Hushes s msg = Hushes-default is_sound s msg (λ req payload. refl)

idle_enter-Ends : Ends is_sound audio_stop idle_enter
unfolding idle_enter is_allowed
idle_enter-Ends = search (Ends-emit, Ends-then, then-Ends, hushing) depth 12

dialing_enter-Ends : Ends is_sound audio_start dialing_enter
unfolding dialing_enter is_allowed
dialing_enter-Ends = search (Ends-emit, Ends-then, then-Ends, hushing) depth 12

conversation_enter-Ends : Ends is_sound audio_start conversation_enter
unfolding conversation_enter is_allowed
conversation_enter-Ends = search (Ends-emit, Ends-then, then-Ends, hushing) depth 12

offline_enter-Hushes : Hushes is_sound false offline_enter
unfolding offline_enter is_allowed
offline_enter-Hushes = search (hushing) depth 12

syncing_enter-Hushes : Hushes is_sound false syncing_enter
unfolding syncing_enter is_allowed
syncing_enter-Hushes = search (hushing) depth 16

incoming_enter-Hushes : Hushes is_sound false incoming_enter
unfolding incoming_enter is_allowed
incoming_enter-Hushes = search (hushing) depth 12

memo_enter-Hushes : Hushes is_sound false memo_enter
unfolding memo_enter is_allowed
memo_enter-Hushes = search (hushing) depth 12

idle_process-Hushes : (msg : Msg) → Hushes is_sound true (idle_process msg)
unfolding idle_process is_allowed
idle_process-Hushes msg = search (default_process-Hushes, hushing) depth 12

dialing_process-Hushes : (msg : Msg) → Hushes is_sound true (dialing_process msg)
unfolding dialing_process is_allowed
dialing_process-Hushes msg = search (default_process-Hushes, hushing) depth 12

conversation_process-Hushes : (msg : Msg) → Hushes is_sound true (conversation_process msg)
unfolding conversation_process is_allowed
conversation_process-Hushes msg = search (default_process-Hushes, hushing) depth 12

offline_process-Hushes : (msg : Msg) → Hushes is_sound false (offline_process msg)
unfolding offline_process is_allowed
offline_process-Hushes msg = search (default_process-Hushes, hushing) depth 12

syncing_process-Hushes : (msg : Msg) → Hushes is_sound false (syncing_process msg)
unfolding syncing_process is_allowed
syncing_process-Hushes msg = search (default_process-Hushes, hushing) depth 12

incoming_process-Hushes : (msg : Msg) → Hushes is_sound false (incoming_process msg)
unfolding incoming_process is_allowed
incoming_process-Hushes msg = search (default_process-Hushes, hushing) depth 12

memo_process-Hushes : (msg : Msg) → Hushes is_sound false (memo_process msg)
unfolding memo_process is_allowed
memo_process-Hushes msg = search (default_process-Hushes, hushing) depth 16

-- Whether this may be the last effect on the audio in a state: when idle it is stopped, and while
-- dialling and during a call it is started.
unfoldable pub is_right : ℕ → Option Effect → Bool
is_right id o =
    if id == SmState.idle
    then elim o [ none ↦ false | some e ↦ elim e [ audio_stop ↦ true | _ ↦ false ] ]
    else if id == SmState.dialing || id == SmState.conversation
    then elim o [ none ↦ false | some e ↦ elim e [ audio_start ↦ true | _ ↦ false ] ]
    else true

abbrev pub audio_right : Fsm → Bool
audio_right = right_in is_sound is_right

in_table-IsTable : IsTable is_sound is_right
unfolding my_state_table get_state is_right
in_table-IsTable zero =
    returns
      (free-IsTuned is_sound is_right 0 _ _ (λ o. refl) offline_enter-Hushes offline_process-Hushes)
in_table-IsTable (suc zero) =
    returns
      (free-IsTuned is_sound is_right 1 _ _ (λ o. refl) syncing_enter-Hushes syncing_process-Hushes)
in_table-IsTable (suc (suc zero)) =
    returns
      (Ends-IsTuned is_sound is_right 2 _ _ audio_stop refl idle_enter-Ends idle_process-Hushes)
in_table-IsTable (suc (suc (suc zero))) = returns (
    Ends-IsTuned is_sound is_right 3 _ _ audio_start refl dialing_enter-Ends dialing_process-Hushes)
in_table-IsTable (suc (suc (suc (suc zero)))) =
    returns (
      free-IsTuned is_sound is_right 4 _ _ (λ o. refl) incoming_enter-Hushes
        incoming_process-Hushes)
in_table-IsTable (suc (suc (suc (suc (suc zero))))) = returns (
    Ends-IsTuned is_sound is_right 5 _ _ audio_start refl conversation_enter-Ends
      conversation_process-Hushes)
in_table-IsTable (suc (suc (suc (suc (suc (suc zero)))))) =
    returns (free-IsTuned is_sound is_right 6 _ _ (λ o. refl) memo_enter-Hushes memo_process-Hushes)
in_table-IsTable (suc (suc (suc (suc (suc (suc (suc n))))))) = rw (out_of_table n) fault

-- In every machine that a telephone comes to be, the last thing that was done to the audio is that it
-- was stopped, if the telephone is idle, and that it was started, if it is dialling or in a call.
pub Reachable-audio_right : (fsm : Fsm) → Reachable fsm → audio_right fsm ≡ true
Reachable-audio_right = Reachable-right_in is_sound is_right in_table-IsTable (λ l old. refl)
