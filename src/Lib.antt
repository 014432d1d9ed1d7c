-- ===== src/Lib.antt =====
-- UPIL, a layer between a USB telephone and the programs that use it.
--
-- The device speaks in HID frames of eight bytes. `tp_protocol.c` puts the frames together to PDUs,
-- makes events of them, and cuts commands into frames. Events go as messages to a state machine
-- (`state_machine/state_machine.c`), which follows the states of a call (`upil_sm.c`). A message is
-- kept in the queue of a handler (`state_machine/handler.c`) and comes as a timer of the event loop
-- (`upil_event/upil_event.c`), which runs in a thread (`upil_event/upil_event_wrapper.c`). Clients
-- dial and hang up through one socket (`upil_command.c`) and are told of events through another
-- (`upil_monitor.c`), both of which `upil_ctrl.c` uses for them; a third takes AT commands
-- (`upil_ril.c`). `upil.c` brings all of it up.
--
-- The modules:
--   Common        names that the others share, buffers (`Memory`, `Buffers`), and calls that may fail
--   Codes         the enumerations of include/upil_request.h and upil_sm.h
--   Tpp           tp_protocol.c: `Defs` the data, `Receive` check_tppdu, fsk_to_string, tppdu2event,
--                 hidpdu2event, tpp_recv_event_cb, `Send` make_cmd, make_dial_param, request2pdu,
--                 tpp_send_cmd, `EvtCode` and `CmdCode` the codes of tp_protocol.h; the other modules
--                 are proofs: `Framing`, `Reassembly`, `RoundTrip`, `CallerId`, `Dial`, `Safety`,
--                 `Sending`, `Events`
--   Loop          upil_event/upil_event.c: `Time` the macros on times, `Defs` the operations; proofs
--                 on the order of timers (`Timers`), the timers as a table of deadlines (`Deadlines`),
--                 the watched descriptors (`Watch`) and firePending (`Fire`). `Thread` is
--                 upil_event_loop with upil_event/upil_event_wrapper.c; proofs on one round (`Rounds`)
--                 and on the wakeup pipe (`Wakeup`)
--   Handler       state_machine/handler.c: `Defs`, and proofs in `Queue` and `Others`; that the event of a
--                 queued message stays in the loop, in `Linked` and `Tracked`; messages that are
--                 taken off it, in `Unlinked`
--   StateMachine  state_machine/state_machine.c: `Defs`, msg2str's tables in `Names`, and the
--                 machines to take in `Pool`
--   Phone         upil_sm.c: `Defs` what the states share, `Waiting` and `Calling` the states, `Table`,
--                 `Start` upil_sm_start; proofs on every state (`Keeps`, `States`), on one step
--                 (`Steps`, `Fired`), on calls (`Calls`, `Dialling`, `Dialled`, `Notices`), and on
--                 all that a machine comes to be: the messages that it queues (`Ready`, `Readies`,
--                 `Settled`), the machines reached (`Reached`), also with the loop's steps
--                 (`Live`), what comes from outside (`Fed`), and the last effect of a kind in each
--                 state (`Hushed`, `Lasting`), on the audio (`Sounds`, `Silence`) and for the
--                 monitor (`Told`); `Firing` is firePending with sm_process_message as the callback
--   Control       upil_command.c (`Commands`, proofs in `Replies`) and upil_monitor.c (`Monitor`,
--                 `Sent`); `Sockets` the callbacks of these two and of upil_ril.c, proofs in `Serving`
--   Ril           upil_ril.c: `Defs` the AT commands, proofs in `Answers` and `Unanswered`
--   Client        upil_ctrl.c: `Defs` the requests, `Connection` the descriptors; `Served` puts a
--                 client and upil_command.c together. `Terminal` is the loop of upil_client.c, `Typed`
--                 what is typed there, and of its readLoop, `Noticed` what it shows
--   Debug         upil_debug.c and include/upil_debug.h, with proofs in `Depth` and `Dump`
--   Daemon        upil.c: `Defs`, and a proof that the program comes up in `Running`
--   Audio         upil_audio/upil_audio.cpp: `Defs` usba_to_file, `Wav` struct wav_header and
--                 file_setup_record, `Play` file_to_usba, `Host` hosta_write_data and
--                 hosta_read_data, `Stream` usba_to_hosta and hosta_to_usba, `Control` the
--                 functions that start and stop the threads, and `Uses` the calls of them in
--                 upil_sm.c; `Device` the end of upil_audio/usb_audio_pcm.c. Proofs in `Sizes`,
--                 `RoundTrip`, `Frames` and `Channels`
--   Tests         the theorems at concrete inputs
--
-- How the code is modelled. A buffer is a list of bytes, and a call that reads or writes outside its
-- buffer, or through a null pointer, is `none`. The loop's circular lists are lists of the addresses
-- in them; a message is named by its address, and malloc gives addresses that were never in use. The
-- calls that a state makes of tpp_send_cmd, of the monitor and of the audio module are recorded in
-- `effects`, since what they return is not used; the number to dial goes through tpp_send_cmd first,
-- whose leaving of a buffer is `none`. `Audio/Uses` does the calls on the audio in their order. read, write, malloc, asprintf, select's result and the clock are parameters.
--
-- Fuel. `make_lines` has as much fuel as the PDU has bytes, and each round takes at least one.
-- `fire_pending` takes one unit for each callback, so the number of pending events is enough where
-- no callback adds one. All other loops are recursions on the list or the number of frames they go
-- through.
--
-- A file that is played takes at most as many rounds as it has bytes behind the header, and one more.
--
-- The bytes in the wakeup pipe take at most as many rounds as there are bytes and interruptions, and
-- one more.
--
-- Not modelled: threads that run at the same time (the mutexes keep their operations apart, and
-- each operation is one step), signals, the wait for the device's file, what the system's log
-- does, the tools and tests, the set-up of the host's AudioTrack and AudioRecord and what these do,
-- the code under `#if 0`, and the copies of other projects' code in ril-telephone and upil_audio
-- (tinyalsa, the resampler).
pub mod Common
pub mod Codes
pub mod Tpp
pub mod Loop
pub mod Handler
pub mod StateMachine
pub mod Phone
pub mod Client
pub mod Control
pub mod Daemon
pub mod Debug
pub mod Ril
pub mod Audio
pub mod Tests
