-- ===== src/Phone/Calling.antt =====
-- upil_sm.c: the states of a call, from dialling to recording a memo.
use upil.Common.{ℕ, Bool, ◌||◌, none, some, [], ◌∷◌, ◌==◌, if◌then◌else◌}
use upil.Codes.Ctl
use upil.Codes.Evt
use upil.Codes.Notice
use upil.Codes.SmState
use upil.Handler.Defs.{Msg}
use upil.StateMachine.Defs.{
  audio_start, audio_stop, audio_play_file, audio_record_file, Action, ◌>>◌, send, sm_transition_to,
  sm_remove_message_id,
}
use upil.Phone.Defs.{
  dial_delay, dialing_timeout, ring_timeout, record_start_timeout, emit, send_cmd, send_cmd_noparam,
  sendto_monitor, set_incoming, default_process,
}

-- With a number to dial, dialling starts a second after the state is entered.
unfoldable pub dial_later : Action
dial_later fsm = elim fsm.last_outgoing_num [
  | [] ↦ some fsm
  | d ∷ ds ↦ send Ctl.ask_dtmf_tx (some (d ∷ ds)) dial_delay fsm
]

unfoldable pub dialing_enter : Action
dialing_enter = do sendto_monitor Notice.dialing none; dial_later; emit audio_start

unfoldable pub dialing_process : Msg → Action
dialing_process msg =
    if msg.what == Ctl.ask_dtmf_tx
    then (do send_cmd msg; send Evt.dial_end_check none dialing_timeout)
    else if msg.what == Evt.dial_end || msg.what == Evt.dial_end_check
    then sm_transition_to SmState.conversation
    else if msg.what == Evt.redial
    then (do sm_remove_message_id Evt.dial_end_check; send Evt.dial_end_check none dialing_timeout)
    else if msg.what == Ctl.handfree_off
    then send_cmd_noparam msg.what
    else default_process msg

unfoldable pub incoming_enter : Action
incoming_enter = do
  sendto_monitor Notice.incoming none
  sm_remove_message_id Evt.ring_timeout
  send Evt.ring_timeout none ring_timeout
  sm_remove_message_id Evt.record_start
  send Evt.record_start none record_start_timeout

abbrev pub is_hook_on : ℕ → Bool
is_hook_on what =
    what == Evt.hand_hook_on || (what == Evt.hfree_hook_on || what == Evt.parall_hook_on)

abbrev pub is_hook_off : ℕ → Bool
is_hook_off what = what == Evt.hfree_hook_off || what == Evt.hand_hook_off

unfoldable pub incoming_process : Msg → Action
incoming_process msg =
    if msg.what == Ctl.handfree_off || msg.what == Ctl.handfree_on
    then send_cmd_noparam msg.what
    else if is_hook_on msg.what
    then sm_transition_to SmState.conversation
    else if msg.what == Evt.ring
    then (do
      sendto_monitor Evt.ring none
      sm_remove_message_id Evt.ring_timeout
      send Evt.ring_timeout none ring_timeout)
    else if msg.what == Evt.call_id
    then (do set_incoming msg; sendto_monitor msg.what msg.payload)
    else if msg.what == Evt.ring_timeout
    then sm_transition_to SmState.idle
    else if msg.what == Evt.record_start
    then sm_transition_to SmState.memo
    else default_process msg

unfoldable pub conversation_enter : Action
conversation_enter = do
  sendto_monitor Notice.conversation none
  emit audio_start
  send_cmd_noparam Ctl.record_line_play_on
  send_cmd_noparam Ctl.ask_busy_tone

-- `upil_sm_hangup`
abbrev pub upil_sm_hangup : Action
upil_sm_hangup = send Ctl.handfree_off none 0

unfoldable pub conversation_process : Msg → Action
conversation_process msg =
    if msg.what == Ctl.handfree_off
    then send_cmd_noparam msg.what
    else if is_hook_off msg.what
    then (do send_cmd_noparam Ctl.record_line_play_off; sm_transition_to SmState.idle)
    else if msg.what == Evt.busy_on
    then upil_sm_hangup
    else default_process msg

-- The callbacks that the audio module makes when a file has been played, and recorded.
unfoldable pub begin_record : Action
begin_record = send Ctl.record_start none 0

unfoldable pub end_record : Action
end_record = send Evt.record_end none 0

unfoldable pub memo_enter : Action
memo_enter = do sendto_monitor Notice.memo none; send_cmd_noparam Ctl.handfree_on

unfoldable pub memo_process : Msg → Action
memo_process msg =
    if is_hook_on msg.what
    then (do
      send_cmd_noparam Ctl.record_line_play_on
      send_cmd_noparam Ctl.ask_busy_tone
      emit audio_play_file)
    else if msg.what == Ctl.handfree_on
    then (do
      emit audio_stop
      send_cmd_noparam Ctl.handfree_on
      sm_transition_to SmState.conversation)
    else if msg.what == Ctl.handfree_off
    then (do emit audio_stop; send_cmd_noparam Ctl.handfree_off)
    else if msg.what == Evt.record_end
    then send_cmd_noparam Ctl.handfree_off
    else if is_hook_off msg.what
    then (do
      send_cmd_noparam Ctl.record_line_play_off
      emit audio_stop
      sm_transition_to SmState.idle)
    else if msg.what == Evt.busy_on
    then upil_sm_hangup
    else if msg.what == Ctl.record_start
    then emit audio_record_file
    else default_process msg
