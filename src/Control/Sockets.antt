-- ===== src/Control/Sockets.antt =====
-- upil_command.c, upil_monitor.c and upil_ril.c: the sockets of the clients. Each file has an event
-- that waits for a client and one for what the client sends. The loop's own thread runs the callbacks,
-- so that it is not woken up.
use upil.Common.{ℕ, Bool, true, false, Option, none, some, List, [], ◌∷◌, ◌++◌}
use upil.Common.Memory.{Bytes}
use upil.Loop.Defs.{Loop, event_set, event_add, event_del}
use upil.StateMachine.Defs.{Fsm}
use upil.Control.Commands.{process_command}
use upil.Control.Monitor.{monitor_text}
use upil.Ril.Defs.{Ril, process_command_buffer, upil_ril_unsolicited}

-- `s_listen_event` and `s_commands_event` or `s_monitor_event`
pub record Server : Type 0 where
  pub listen_event : ℕ
  pub client_event : ℕ

-- The part that the three files share: the socket is watched for one client.
unfoldable pub open_server : Server → ℕ → Loop → Loop
open_server s fd l = event_add s.listen_event (event_set s.listen_event (some fd) false l)

unfoldable pub serve : Server → ℕ → Loop → Loop
serve s fd l = event_add s.client_event (event_set s.client_event (some fd) true l)

unfoldable pub listen_again : Server → Loop → Loop
listen_again s l = event_add s.listen_event l

unfoldable pub hang_up : Server → Loop → Loop
unfolding listen_again
hang_up s l = listen_again s (event_del s.client_event l)

-- `setup_cmd_processor`, on a loop that is not null: `bound` is the socket, `none` if it cannot be
-- bound. The result is true for 0.
unfoldable pub setup_cmd_processor : Server → Option ℕ → Loop → Bool × Loop
setup_cmd_processor s none l = (false, l)
setup_cmd_processor s (some fd) l = (true, open_server s fd l)

-- `listenCallback` of upil_command.c: `accepted` is what `accept` returns, `none` for an error. The
-- result is true if it is negative, which ends the event loop.
unfoldable pub listen_callback : Server → Option ℕ → Loop → Loop × Bool
listen_callback s none l = (listen_again s l, true)
listen_callback s (some fd) l = (serve s fd l, false)

-- `processCommandsCallback` of upil_command.c: the reply, if there is one, the loop and the machine.
-- `got` is what was received, `none` if nothing.
unfoldable pub process_commands_callback :
    (ℕ → Bytes) → Server → Option Bytes → Loop → Fsm → Option Bytes × (Loop × Fsm)
process_commands_callback asprintf_d s none l fsm = (none, (hang_up s l, fsm))
process_commands_callback asprintf_d s (some buffer) l fsm =
    let (reply, fsm') = process_command asprintf_d buffer fsm in (reply, (l, fsm'))

-- The variables of upil_monitor.c: `s_fdMonitor`, `none` for a negative value, and the texts sent to
-- it, each with the descriptor it was sent to.
pub record Monitor : Type 0 where
  pub fd_monitor : Option ℕ
  pub told : List (Option ℕ × Bytes)

-- `setup_event_monitor`
unfoldable pub setup_event_monitor : Server → Option ℕ → Loop → Bool × Loop
setup_event_monitor s none l = (false, l)
setup_event_monitor s (some fd) l = (true, open_server s fd l)

-- `listenCallback` of upil_monitor.c
unfoldable pub listen_callback_monitor :
    Server → Option ℕ → Monitor → Loop → Monitor × (Loop × Bool)
listen_callback_monitor s none m l = (record m { fd_monitor = none }, (listen_again s l, true))
listen_callback_monitor s (some fd) m l = (record m { fd_monitor = some fd }, (serve s fd l, false))

-- `event_monitor_cb`: what a monitor writes is not looked at. `s_fdMonitor` keeps its value when the
-- descriptor is closed.
unfoldable pub event_monitor_cb : Server → Option Bytes → Loop → Loop
event_monitor_cb s none l = hang_up s l
event_monitor_cb s (some bytes) l = l

-- `sendto_monitor`: the text goes to the monitor and the notice to the radio interface layer. `none`
-- is an access outside a buffer, and with the empty text nothing is sent.
unfoldable pub sendto_monitor : ℕ → Option Bytes → Monitor → Ril → Option (Monitor × Ril)
sendto_monitor msg payload m r = elim (monitor_text msg payload) [
  | none ↦ none
  | some text ↦ elim text [
    | [] ↦ some (m, r)
    | c ∷ cs ↦
        some
          (record m { told = m.told ++ ((m.fd_monitor, c ∷ cs) ∷ []) }, upil_ril_unsolicited msg r)
  ]
]

-- `upil_ril_setup`
unfoldable pub upil_ril_setup : Server → Option ℕ → Loop → Bool × Loop
upil_ril_setup s none l = (false, l)
upil_ril_setup s (some fd) l = (true, open_server s fd l)

-- `listenCallback` of upil_ril.c, with `s_fd_ril`
unfoldable pub listen_callback_ril : Server → Option ℕ → Option ℕ → Loop → Option ℕ × (Loop × Bool)
listen_callback_ril s none fd_ril l = (fd_ril, (listen_again s l, true))
listen_callback_ril s (some fd) fd_ril l = (some fd, (serve s fd l, false))

-- `processCommandsCallback` of upil_ril.c
unfoldable pub process_commands_callback_ril :
    (ℕ → Bytes) → Server → Option Bytes → Loop → Ril → Loop × Ril
process_commands_callback_ril asprintf_d s none l r = (hang_up s l, r)
process_commands_callback_ril asprintf_d s (some buffer) l r =
    (l, process_command_buffer asprintf_d buffer r)
