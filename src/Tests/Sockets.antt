-- ===== src/Tests/Sockets.antt =====
-- upil_ril.c, the sockets' callbacks, upil_ctrl.c, upil_debug.c and upil.c at the telephone of
-- Tests/Runs.
use upil.Common.{
  ℕ, ◌+◌, ◌≡◌, refl, true, false, not, none, some, [], ◌∷◌, ◌++◌, arith, ltb, leb, ◌==◌,
  if◌then◌else◌, get_or, zero, suc, get_elem?,
}
use upil.Common.Memory.{Bytes}
use upil.Codes.Ctl
use upil.Codes.Notice
use upil.Codes.SmState
use upil.Loop.Time.{zero_time}
use upil.Loop.Defs.{Loop, remove_watch}
use upil.StateMachine.Defs.{Fsm, cur_of}
use upil.Phone.Table.{upil_sm_get_current_state}
use upil.Phone.Reached.{Reachable}
use upil.Control.Commands.{upil_sm_send_msg, upil_sm_usb_attach, dial_num}
use upil.Control.Sockets.{
  Server, Monitor, listen_callback, listen_callback_monitor, listen_callback_ril,
  process_commands_callback, event_monitor_cb, process_commands_callback_ril,
}
use upil.Control.Serving.{Serves, IsWaiting, IsServing, server-Serves}
use upil.Ril.Defs.{Ril, process_command_buffer, upil_ril_unsolicited, at_dial}
use upil.Ril.Answers.{opened, commanded, noticed, finals, waiting, Session-settled}
use upil.Client.Defs.{
  upil_ctrl_dial, upil_ctrl_get_state, upil_is_device_exist, upil_is_device_ready,
}
use upil.Client.Served.{served, upil_ctrl_dial-served, upil_ctrl_get_state-served}
use upil.Client.Connection.{Client, upil_connect, upil_disconnect, upil_disconnect_leaves}
use upil.Debug.Defs.{blanks_logged}
use upil.Debug.Depth.{blanks_logged_lem}
use upil.Daemon.Defs.{Upil, runs, main, parse_options}
use upil.Daemon.Running.{Descriptors, giving, watched, main_runs}
use upil.StateMachine.Pool.{Slot}
use upil.Phone.Defs.{text_of}
use upil.Tests.Events.{loop}
use upil.Tests.Decimal.{decimal, value, decimal-IsDecimal}
use upil.Tests.Start.{machine}
use upil.Tests.Runs.{begun_phone}

-- The digits of a number below ten, and of all others as 9.
abbrev digit : ℕ → Bytes
digit n = (b'0' + n) ∷ []

-- A session before its first command.
abbrev quiet : Ril
quiet = record { fsm = begun_phone; call_dir = 0; wait_response = false; written = [] }

-- `ATD12` with the end of its line.
abbrev at_dial_12 : Bytes
at_dial_12 = at_dial ++ (b'1' ∷ b'2' ∷ 13 ∷ [])

Session-settled_example :
    let dialled = process_command_buffer digit at_dial_12 quiet in
    let dialling = upil_ril_unsolicited Notice.dialing dialled in
    finals dialling.written + waiting dialling ≡ 1
unfolding text_of
Session-settled_example =
    Session-settled digit 1
      (upil_ril_unsolicited Notice.dialing (process_command_buffer digit at_dial_12 quiet))
      (noticed 1 Notice.dialing _ (commanded 0 at_dial_12 quiet refl refl (opened quiet refl refl)))

abbrev server : Server
server = record { listen_event = 3; client_event = 4 }

-- The loop watches event 3, which waits for a client, or event 4, which serves one.
abbrev watching : ℕ → Loop
watching ev = record loop {
  events = λ n. record { fd = some 5; index = some 0; persist = false; timeout = zero_time };
  watch_table = some ev ∷ none ∷ [];
}

only_first : (ev i k : ℕ) → get_or (some ev ∷ none ∷ []) i none ≡ some k → (i ≡ 0) × (k ≡ ev)
only_first ev zero k e = (refl, ground (arith, e))
only_first ev (suc zero) k e = absurd (ground (arith, e))
only_first ev (suc (suc i)) k e = absurd (ground (arith, e))

watching-Serves : (a b : ℕ) → (a == b) ≡ false → Serves (watching a) a b 0
watching-Serves a b n = record {
  index = refl;
  small = omega arith;
  here = refl;
  only = λ i e. (only_first a i a e).0;
  idle_out = λ i e. ground (arith, n, (only_first a i b e).1);
}

abbrev told_none : Monitor
told_none = record { fd_monitor = none; told = [] }

server-Serves_example :
    let taken = remove_watch 3 0 (watching 3) in
    IsServing server (listen_callback server (some 7) taken).0
    × IsServing server (listen_callback_monitor server (some 7) told_none taken).1.0
    × IsServing server (listen_callback_ril server (some 7) none taken).1.0
    × IsWaiting server (listen_callback server none taken).0
    × IsWaiting server (listen_callback_monitor server none told_none taken).1.0
    × IsWaiting server (listen_callback_ril server none none taken).1.0
    × ((listen_callback server (some 7) taken).1 ≡ false)
    × ((listen_callback_monitor server (some 7) told_none taken).1.1 ≡ false)
    × ((listen_callback_ril server (some 7) none taken).1.1 ≡ false)
    × ((listen_callback server none taken).1 ≡ true)
    × ((listen_callback_monitor server none told_none taken).1.1 ≡ true)
    × ((listen_callback_ril server none none taken).1.1 ≡ true)
    × IsWaiting server (process_commands_callback digit server none (watching 4) begun_phone).1.0
    × IsWaiting server (event_monitor_cb server none (watching 4))
    × IsWaiting server (process_commands_callback_ril digit server none (watching 4) quiet).0
server-Serves_example =
    server-Serves server 7 0 0 (watching 3) (watching 4) told_none quiet begun_phone none digit
      (λ e. ground (arith, e)) (watching-Serves 3 4 refl) (watching-Serves 4 3 refl)

upil_ctrl_dial-served_example :
    upil_ctrl_dial (served digit begun_phone) (some (b'1' ∷ b'2' ∷ [])) ≡ (
      if ltb 2 60
      then some (upil_sm_send_msg Ctl.handfree_on (dial_num (b'1' ∷ b'2' ∷ [])) begun_phone).0
      else none)
upil_ctrl_dial-served_example =
    upil_ctrl_dial-served digit (b'1' ∷ b'2' ∷ []) begun_phone (omega arith, (omega arith, tt))

upil_ctrl_get_state-served_example :
    let cur = upil_sm_get_current_state begun_phone in
    let exchange = served decimal begun_phone in
    (upil_ctrl_get_state value exchange 77 ≡ some (true, cur))
    × (upil_is_device_exist value exchange 77 ≡ some (not (cur == SmState.offline)))
    × (upil_is_device_ready value exchange 77 ≡ some (not (ltb cur SmState.idle)))
unfolding upil_sm_get_current_state cur_of
upil_ctrl_get_state-served_example =
    upil_ctrl_get_state-served decimal value 77 begun_phone decimal-IsDecimal (omega arith)

abbrev pub client : Client
client = record { fd_sender = none; fd_monitor = none; fd_wakeup = none; closed = []; poked = [] }

upil_disconnect_leaves_example :
    let first = upil_disconnect (upil_connect (some 8, true) (some 9, true) client).1 in
    (first.closed ≡ [] ++ (8 ∷ []))
    × (first.fd_monitor ≡ none)
    × (first.fd_sender ≡ some 8)
    × ((upil_disconnect first).closed ≡ ([] ++ (8 ∷ [])) ++ (8 ∷ []))
upil_disconnect_leaves_example = upil_disconnect_leaves 8 9 client refl refl

blanks_logged_example : blanks_logged 32 0 ≡ (if leb 32 31 then some 32 else none)
blanks_logged_example = blanks_logged_lem 32 0 refl

abbrev descriptors : Descriptors
descriptors = record {
  pipe_read = 10;
  pipe_write = 11;
  command_socket = 12;
  monitor_socket = 13;
  ril_socket = 14;
  device = 15;
}

abbrev slot : Slot
slot = record { in_use = false; fsm = machine }

abbrev parts : Upil
parts = record {
  command = record { listen_event = 1; client_event = 2 };
  monitor = record { listen_event = 3; client_event = 4 };
  ril = record { listen_event = 5; client_event = 6 };
  device_event = 7;
  context = record {
    upile = loop;
    fd_wakeup_read = none;
    fd_wakeup_write = none;
    wakeupfd_event = 8;
    piped = 0;
  };
  pool = [];
}

main_runs_example :
    (u' : Upil) × (fsm : Fsm) × (main
        (giving (b'd' ∷ b't' ∷ []) loop descriptors)
        (record parts { pool = slot ∷ [] })
      ≡ runs 0 u')
    × (get_elem? u'.pool 0 ≡ some (record { in_use = true; fsm = (upil_sm_usb_attach fsm).1 }))
    × Reachable (upil_sm_usb_attach fsm).1
    × (fsm.cur_state ≡ some SmState.offline)
    × (u'.context.upile.watch_table ≡ watched parts)
unfolding parse_options
main_runs_example =
    main_runs (b'd' ∷ b't' ∷ []) loop descriptors parts slot [] (2, true) refl (omega arith)
