-- ===== src/Phone/Waiting.antt =====
-- upil_sm.c: the states without a call.
use upil.Common.{◌+◌, ◌||◌, none, some, [], leb, ◌==◌, if◌then◌else◌}
use upil.Codes.Ctl
use upil.Codes.Evt
use upil.Codes.Notice
use upil.Codes.SmState
use upil.Handler.Defs.{Msg}
use upil.StateMachine.Defs.{audio_stop, Action, ◌>>◌, send, sm_transition_to, sm_remove_message_id}
use upil.Phone.Defs.{
  usb_keep_alive_timer, syncing_timeout, emit, send_cmd_noparam, sendto_monitor, skip, set_incoming,
  set_outgoing, default_process,
}

unfoldable pub offline_enter : Action
offline_enter = do sm_remove_message_id Ctl.usb_on; sendto_monitor Notice.offline none

unfoldable pub offline_process : Msg → Action
offline_process msg =
    if msg.what == Evt.usb_attach
    then sm_transition_to SmState.syncing
    else if msg.what == Ctl.ask_get_version
    then skip
    else default_process msg

unfoldable pub syncing_enter : Action
syncing_enter = do
  sendto_monitor Notice.syncing none
  send_cmd_noparam Ctl.usb_on
  send_cmd_noparam Ctl.ask_hardware_inf
  send_cmd_noparam Ctl.ask_read_sn
  send_cmd_noparam Ctl.ask_get_version
  send_cmd_noparam Ctl.ask_phone_state
  send_cmd_noparam Ctl.ask_record_up
  send_cmd_noparam Ctl.ringer_off
  send_cmd_noparam Ctl.set_time
  send Ctl.usb_on none usb_keep_alive_timer
  send Evt.sync_timeout none syncing_timeout

unfoldable pub syncing_process : Msg → Action
syncing_process msg =
    if msg.what == Evt.sync_timeout
    then sm_transition_to SmState.idle
    else if msg.what == Evt.phone_state
    then (do sm_remove_message_id Evt.sync_timeout; send Evt.sync_timeout none syncing_timeout)
    else if msg.what == Evt.history_finished
    then (do sm_remove_message_id Evt.sync_timeout; sm_transition_to SmState.idle)
    else if msg.what == Evt.dialed_tx || (msg.what == Evt.new_cid_tx || msg.what == Evt.old_cid_tx)
    then skip
    else default_process msg

unfoldable pub forget_incoming : Action
forget_incoming fsm = some (record fsm { last_incoming_num = []; ring_count = 0 })

unfoldable pub idle_enter : Action
idle_enter = do sendto_monitor Notice.idle none; emit audio_stop; forget_incoming

-- `if (++s_ring_count>=2)`
unfoldable pub ring_again : Action
ring_again fsm =
    let rung = record fsm { ring_count = fsm.ring_count + 1 } in
    if leb 2 rung.ring_count then sm_transition_to SmState.incoming rung else some rung

unfoldable pub idle_process : Msg → Action
idle_process msg =
    if msg.what == Ctl.handfree_on
    then (do set_outgoing msg; send_cmd_noparam Ctl.handfree_on)
    else if msg.what == Evt.hfree_hook_on
    then sm_transition_to SmState.dialing
    else if msg.what == Evt.call_id
    then (do
      set_incoming msg
      sendto_monitor msg.what msg.payload
      sm_transition_to SmState.incoming)
    else if msg.what == Evt.ring
    then ring_again
    else default_process msg
