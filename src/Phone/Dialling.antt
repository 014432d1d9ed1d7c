-- ===== src/Phone/Dialling.antt =====
-- upil_sm.c: dialling a number from the idle state, until the command for it is queued.
use upil.Common.{ℕ, ◌<◌, ◌≡◌, refl, true, none, some, [], ◌∷◌, ◌++◌, arith, ltb, ◌==◌, length}
use upil.Common.Memory.{Bytes}
use upil.Codes.Ctl
use upil.Codes.Notice
use upil.Codes.SmState
use upil.Handler.Defs.{Msg, sm_send_message_delay}
use upil.Handler.Queue.{IsSound, sm_send_message_delay-IsSound}
use upil.StateMachine.Defs.{
  notice, command, audio_start, Fsm, send, get_state, is_current, transition_to, process_msg,
}
use upil.Phone.Defs.{emit, text_of, sprintf_num, set_outgoing}
use upil.Phone.Waiting.{idle_enter, idle_process}
use upil.Phone.Calling.{dial_later, dialing_enter, dialing_process}
use upil.Phone.Table.{my_state_table}
use upil.Phone.Steps.{left_as_is, transition_entered, process_defer_msg_none}
use upil.Phone.Calls.{in_state}
use upil.Tpp.Sending.{NoZero}

pub text_of_self : (t : Bytes) → NoZero t → text_of t ≡ t
unfolding text_of
text_of_self [] h = refl
text_of_self (b ∷ t) h = ground (arith, text_of_self t h.1)

-- The machine after a client's message to take the telephone off the hook and dial `number`.
abbrev pub numbered : Bytes → Fsm → Fsm
numbered number fsm = record fsm {
  last_outgoing_num = number;
  effects = fsm.effects ++ (command Ctl.handfree_on none ∷ []);
}

-- An idle telephone that is to dial a number of less than 128 characters stores it and takes the
-- line. When dialling is entered, the number is sent as the text to dial, a second later: it is what
-- the machine puts into the queue, which stays sound.
pub dialing_enter-idle_process :
    (msg : Msg) (d : ℕ) (ds : Bytes) (fsm : Fsm)
    → IsSound fsm.handler
    → fsm.cur_state ≡ some SmState.idle
    → msg.what ≡ Ctl.handfree_on
    → msg.payload ≡ some (d ∷ ds)
    → NoZero (d ∷ ds)
    → length (d ∷ ds) < 128
    → let f1 = numbered (d ∷ ds) fsm in
      let sent = sm_send_message_delay Ctl.ask_dtmf_tx (some (d ∷ ds)) 1000 fsm.handler in
      (process_msg my_state_table msg fsm ≡ some (true, f1))
      × ((f2 : Fsm) × (transition_to my_state_table SmState.dialing f1 ≡ some (true, f2))
          × (f2.handler ≡ sent.1)
          × IsSound f2.handler
          × (f2.effects ≡ (f1.effects ++ (notice Notice.dialing none ∷ [])) ++ (audio_start ∷ [])))
unfolding my_state_table get_state idle_process set_outgoing sprintf_num emit dialing_enter
    dial_later send is_current
dialing_enter-idle_process msg d ds fsm s idle w p h short =
    let text = text_of_self (d ∷ ds) h in
    let fits : ltb (length (d ∷ ds)) 128 ≡ true = ground arith in
    let taken : msg.what == Ctl.handfree_on ≡ true = ground (arith, w) in
    let sound = sm_send_message_delay-IsSound fsm.handler Ctl.ask_dtmf_tx (some (d ∷ ds)) 1000 s in
    let same = process_defer_msg_none _ sound in
    (
      in_state SmState.idle idle_enter idle_process msg fsm (numbered (d ∷ ds) fsm) idle refl
          (rw (taken, p) (rw (text, fits) refl)),
      (
        _,
        transition_entered my_state_table SmState.dialing SmState.dialing dialing_enter
            dialing_process (numbered (d ∷ ds) fsm) _ (rw idle refl)
            (left_as_is (numbered (d ∷ ds) fsm)) refl refl,
        same,
        rw same sound,
        refl,
      ),
    )
