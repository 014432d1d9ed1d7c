-- ===== src/Tests/Firing.antt =====
-- A telephone that is started, synchronised, and told of its state when the timer of the
-- synchronisation ends: upil_sm.c under the event loop.
use upil.Common.{◌+◌, false, ◌==◌, ◌≡◌, refl, true, none, some, List, [], ◌∷◌, ◌++◌, arith}
use upil.Codes.Ctl
use upil.Codes.Evt
use upil.Codes.Notice
use upil.Codes.SmState
use upil.Loop.Time.{Timeval, timeradd, timer_lt, of_msec}
use upil.Loop.Defs.{
  Loop, process_timeouts, expire, insert_timer, timer_add, event_set, mem, erase, remove_from_list,
}
use upil.Handler.Defs
use upil.Handler.Defs.{
  Msg, start_handler, sm_send_message_delay, obtain_message, obtain, stored, send_message_delay,
  remove_message_id, remove_ids, process_defer_msg, process_defers, unlink, remove_from_queue,
  in_queue, erase_msg,
}
use upil.StateMachine.Defs.{
  Fsm, notice, transition_to, is_current, get_state, cur_of, sm_process_message, process_msg,
  sm_remove_message_id, int_of, int_bytes, send,
}
use upil.Phone.Defs.{emit}
use upil.Phone.Keeps.{fits, overflows, overflows_in}
use upil.Phone.Ready.{is_sendable, names_state}
use upil.Phone.Table.{my_state_table, state}
use upil.Phone.Waiting.{
  offline_enter, offline_process, syncing_enter, syncing_process, idle_enter, forget_incoming,
}
use upil.Phone.Sounds.{audio_right, Reachable-audio_right}
use upil.Phone.Silence.{IsCleared, replay-idle}
use upil.Audio.Control.{Audio}
use upil.Audio.Uses.{World, replay}
use upil.Phone.Live.{Live, Live-Reachable, begun, sent, timed, in_loop, taken_out, queued_handled}
use upil.Control.Commands.{upil_sm_send_msg}
use upil.Client.Connection.{Client}
use upil.Client.Terminal.{read_loop}
use upil.Client.Noticed.{arrivals, state_shown, read_loop-current}
use upil.Control.Sent.{texts_sent, all_fit}
use upil.Ril.Defs.{Ril, process_command_buffer, upil_ril_unsolicited, ok_text, str_starts_with}
use upil.Ril.Unanswered.{process_command_buffer_unanswered}
use upil.Phone.Reached.{Reachable-IsGood}
use upil.Common.Memory.{Bytes}
use upil.Tests.Sockets.{client}
use upil.Tests.Events.{loop, handler}
use upil.Tests.Start.{machine}

abbrev quiet : Loop
quiet = record loop { timers = []; pending = [] }

abbrev begun_fsm : Fsm
begun_fsm = record machine {
  handler = record handler { msg_queue = []; msg_count = 0; loop = quiet };
  cur_state = some SmState.offline;
  effects = notice Notice.offline none ∷ [];
}

begun_fsm-Live : Live begun_fsm
unfolding transition_to is_current get_state cur_of my_state_table state offline_enter
    sm_remove_message_id remove_message_id remove_ids emit process_defer_msg process_defers
    start_handler
begun_fsm-Live = begun quiet machine begun_fsm true (omega arith) refl

-- What the processing of a message leaves, after the loop took its event.
abbrev after : Msg → Fsm → Fsm
after msg fsm = elim (sm_process_message my_state_table msg (taken_out msg.id fsm)) [
  | none ↦ fsm
  | some (ok, fsm') ↦ fsm'
]

after-Live :
    (p : List Msg) (msg : Msg) (q : List Msg) (fsm : Fsm)
    → fsm.handler.msg_queue ≡ p ++ (msg ∷ q)
    → overflows msg fsm ≡ false
    → Live fsm
    → Live (after msg fsm)
after-Live p msg q fsm e fit l =
    let (linked, fsm', done, live) = queued_handled p q msg fsm l e fit in rw (after, done) live

abbrev soon : Timeval
soon = record { tv_sec = 1; tv_usec = 0 }

abbrev later : Timeval
later = record { tv_sec = 3; tv_usec = 0 }

abbrev passed_to : Timeval → Fsm → Fsm
passed_to now fsm = in_loop (process_timeouts now fsm.handler.loop) fsm

abbrev plugged : Msg
plugged = record { id = 2; what = Evt.usb_attach; payload = none }

abbrev to_syncing : Msg
to_syncing = record { id = 3; what = Evt.sm_transition; payload = some (1 ∷ 0 ∷ 0 ∷ 0 ∷ []) }

abbrev poll : Msg
poll = record { id = 4; what = Ctl.usb_on; payload = none }

abbrev ends_sync : Msg
ends_sync = record { id = 5; what = Evt.sync_timeout; payload = none }

abbrev tells_state : Msg
tells_state = record { id = 6; what = Evt.phone_state; payload = none }

abbrev plugged_fsm : Fsm
plugged_fsm = passed_to soon (upil_sm_send_msg Evt.usb_attach none begun_fsm).1

abbrev asked_fsm : Fsm
asked_fsm = passed_to soon (after plugged plugged_fsm)

abbrev syncing_fsm : Fsm
syncing_fsm = after to_syncing asked_fsm

abbrev told_fsm : Fsm
told_fsm = passed_to later (upil_sm_send_msg Evt.phone_state none syncing_fsm).1

plugged_queue : plugged_fsm.handler.msg_queue ≡ plugged ∷ []
unfolding upil_sm_send_msg sm_send_message_delay obtain_message obtain stored send_message_delay
plugged_queue = refl

asked_queue : asked_fsm.handler.msg_queue ≡ to_syncing ∷ []
unfolding upil_sm_send_msg sm_send_message_delay obtain_message obtain stored send_message_delay
    sm_process_message process_msg get_state cur_of my_state_table state offline_process send
    int_bytes int_of Defs.remove_from_list remove_from_queue in_queue erase_msg
asked_queue = refl

-- The state, the queue, and the lists of the loop then.
told_at :
    (told_fsm.cur_state ≡ some SmState.syncing)
    × (told_fsm.handler.msg_queue ≡ poll ∷ ends_sync ∷ tells_state ∷ [])
    × (told_fsm.handler.loop.pending ≡ 6 ∷ 5 ∷ [])
    × (told_fsm.handler.loop.timers ≡ 4 ∷ [])
unfolding upil_sm_send_msg sm_send_message_delay obtain_message obtain stored send_message_delay
    sm_process_message process_msg transition_to is_current get_state cur_of my_state_table state
    offline_process syncing_enter Defs.remove_from_list remove_from_queue in_queue erase_msg send
    emit process_defer_msg process_defers int_bytes int_of unlink process_timeouts expire event_set
    timer_add insert_timer mem erase remove_from_list timer_lt timeradd of_msec
told_at = (refl, refl, refl, refl)

-- A message that is no number to dial is in place in every state.
fits_apart :
    (msg : Msg) → (fsm : Fsm) → (msg.what == Ctl.ask_dtmf_tx) ≡ false → overflows msg fsm ≡ false
unfolding overflows overflows_in
fits_apart msg fsm apart =
    elim fsm.cur_state as (λ c. elim c [ none ↦ false | some id ↦ overflows_in id msg ] ≡ false) [
      | none ↦ refl
      | some id ↦ ground (arith, apart)
    ]

told_fsm-Live : Live told_fsm
unfolding is_sendable fits names_state stored
told_fsm-Live =
    let plugged_in : Live plugged_fsm =
      timed soon _ (sent Evt.usb_attach none begun_fsm refl begun_fsm-Live) in
    let asked : Live asked_fsm = timed soon _ (
      after-Live [] plugged [] plugged_fsm plugged_queue (fits_apart plugged plugged_fsm refl)
        plugged_in) in
    let syncing : Live syncing_fsm =
      after-Live [] to_syncing [] asked_fsm asked_queue (fits_apart to_syncing asked_fsm refl)
        asked in
    timed later _ (sent Evt.phone_state none syncing_fsm refl syncing)

abbrev synced_fsm : Fsm
synced_fsm = passed_to later (after ends_sync told_fsm)

abbrev to_idle : Msg
to_idle = record { id = 7; what = Evt.sm_transition; payload = some (2 ∷ 0 ∷ 0 ∷ 0 ∷ []) }

abbrev idle_fsm : Fsm
idle_fsm = after to_idle synced_fsm

synced_queue : synced_fsm.handler.msg_queue ≡ poll ∷ tells_state ∷ to_idle ∷ []
unfolding upil_sm_send_msg sm_send_message_delay obtain_message obtain stored send_message_delay
    sm_process_message process_msg transition_to is_current get_state cur_of my_state_table state
    offline_process syncing_enter syncing_process Defs.remove_from_list remove_from_queue in_queue
    erase_msg send emit process_defer_msg process_defers int_bytes int_of unlink process_timeouts
    expire event_set timer_add insert_timer mem erase remove_from_list timer_lt timeradd of_msec
synced_queue = refl

idle_at : idle_fsm.cur_state ≡ some SmState.idle
unfolding upil_sm_send_msg sm_send_message_delay obtain_message obtain stored send_message_delay
    sm_process_message process_msg transition_to is_current get_state cur_of my_state_table state
    offline_process syncing_enter syncing_process idle_enter forget_incoming Defs.remove_from_list
    remove_from_queue in_queue erase_msg send emit process_defer_msg process_defers int_bytes int_of
    unlink process_timeouts expire event_set timer_add insert_timer mem erase remove_from_list
    timer_lt timeradd of_msec
idle_at = refl

idle_fsm-Live : Live idle_fsm
idle_fsm-Live =
    after-Live (poll ∷ tells_state ∷ []) to_idle [] synced_fsm synced_queue
      (fits_apart to_idle synced_fsm refl)
      (timed later _ (
        after-Live (poll ∷ []) ends_sync (tells_state ∷ []) told_fsm told_at.1
          (fits_apart ends_sync told_fsm refl) told_fsm-Live))

Reachable-audio_right_example : audio_right idle_fsm ≡ true
Reachable-audio_right_example =
    Reachable-audio_right idle_fsm (Live-Reachable idle_fsm idle_fsm-Live)

-- A thread is created each time, and one is still there at the stop.
abbrev busy : World
busy = record {
  first = record { negative = false; tid = 8 };
  second = record { negative = false; tid = 9 };
  ready = λ i. true;
  alive = λ i tid. true;
  cleared = false;
}

abbrev sounding : Audio
sounding = record {
  running = true;
  track_ready = true;
  audio_in = some 8;
  audio_out = some 9;
  audio_play = none;
  audio_record = none;
  play_filename = [];
  record_filename = [];
  record_timeout = 0;
}

replay-idle_example :
    (a' : Audio) × (replay (λ i. busy) 0 idle_fsm.effects sounding ≡ some a') × IsCleared a'
replay-idle_example =
    replay-idle (λ i. busy) sounding idle_fsm (Live-Reachable idle_fsm idle_fsm-Live) idle_at

idle_fit : all_fit idle_fsm.effects ≡ true
unfolding upil_sm_send_msg sm_send_message_delay obtain_message obtain stored send_message_delay
    sm_process_message process_msg transition_to is_current get_state cur_of my_state_table state
    offline_process syncing_enter syncing_process idle_enter forget_incoming Defs.remove_from_list
    remove_from_queue in_queue erase_msg send emit process_defer_msg process_defers int_bytes int_of
    unlink process_timeouts expire event_set timer_add insert_timer mem erase remove_from_list
    timer_lt timeradd of_msec
idle_fit = refl

read_loop-current_example :
    (texts : List Bytes) × (c' : Client) × (texts_sent idle_fsm.effects ≡ some texts)
    × (read_loop (arrivals texts) client [] ≡ some (false, (texts, c')))
    × (state_shown texts ≡ some (Notice.offline + SmState.idle))
read_loop-current_example =
    read_loop-current idle_fsm SmState.idle client (Live-Reachable idle_fsm idle_fsm-Live) idle_at
      idle_fit

-- The telephone before its device is there.
abbrev helper : Ril
helper = record { fsm = begun_fsm; call_dir = 0; wait_response = false; written = [] }

abbrev dials : Bytes
dials = b'A' ∷ b'T' ∷ b'D' ∷ b'1' ∷ b'2' ∷ 13 ∷ []

process_command_buffer_unanswered_example :
    let r' = process_command_buffer (λ n. []) dials helper in
    (last : Msg) × (end : Fsm) × (r'.written ≡ [])
    × (r'.wait_response ≡ true)
    × (r'.fsm.handler.msg_queue ≡ [] ++ (last ∷ []))
    × (sm_process_message my_state_table last r'.fsm ≡ some (true, end))
    × (end.cur_state ≡ some SmState.offline)
    × (end.effects ≡ begun_fsm.effects)
    × ((upil_ril_unsolicited Notice.idle (record r' { fsm = end })).written ≡ [] ++ (ok_text ∷ []))
unfolding str_starts_with
process_command_buffer_unanswered_example =
    process_command_buffer_unanswered (λ n. []) dials helper refl refl
      (Reachable-IsGood begun_fsm (Live-Reachable begun_fsm begun_fsm-Live)).sound refl refl
