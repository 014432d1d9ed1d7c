-- ===== src/Daemon/Running.antt =====
-- upil.c: the program comes up, with the machine and the sockets in place.
use upil.Common.{
  ℕ, ◌<◌, ◌≡◌, refl, ◌∙◌, Bool, true, false, Option, none, some, List, ◌∷◌, get_elem?, length,
  replicate,
}
use upil.Common.Memory.{Bytes}
use upil.Codes.Evt
use upil.Codes.SmState
use upil.Loop.Defs.{Loop, event_init, event_set, event_add, free_slot}
use upil.Loop.Thread.{
  start_event_loop, event_thread, event_add_wakeup, trigger_ev_loop, wrapped_set,
}
use upil.Handler.Defs.{stored}
use upil.StateMachine.Defs.{Fsm, is_current, transition_to}
use upil.StateMachine.Pool.{Slot, sm_init_pool, get_idle_fsm, sm_obtain_fsm, prepared}
use upil.Phone.Table.{my_state_table}
use upil.Phone.Start.{upil_sm_start, placed, begun, prepared-IsSound}
use upil.Phone.Steps.{transition_to_returns}
use upil.Phone.Ready.{is_sendable, names_state}
use upil.Phone.Keeps.{fits}
use upil.Phone.Reached.{Reachable, started, posted}
use upil.Control.Commands.{upil_sm_usb_attach}
use upil.Control.Sockets.{open_server, setup_cmd_processor, setup_event_monitor, upil_ril_setup}
use upil.Daemon.Defs.{
  World, Upil, runs, setup_device, parse_options, brought_up, machine_started, launched, main,
}

-- The machine of the first place, as `sm_obtain_fsm` gives it.
abbrev pub first_machine : Loop → Slot → Fsm
first_machine l s = prepared l (record s.fsm { cur_state = none })

attach_sendable : is_sendable Evt.usb_attach none ≡ true
unfolding is_sendable fits names_state stored
attach_sendable = refl

-- `upil_sm_start` on a pool that was just initialised.
first_started :
    (l : Loop) (s : Slot) (pool : List Slot) (fsm : Fsm) (handled : Bool)
    → transition_to my_state_table SmState.offline (first_machine l s) ≡ some (handled, fsm)
    → upil_sm_start (some l) (sm_init_pool (s ∷ pool))
      ≡ some (some 0, record { in_use = true; fsm = fsm } ∷ sm_init_pool pool)
unfolding upil_sm_start placed begun sm_obtain_fsm sm_init_pool get_idle_fsm
first_started l s pool fsm handled e = rw e refl

-- What the loop watches, once all is set up.
abbrev pub watched : Upil → List (Option ℕ)
watched u =
    some u.context.wakeupfd_event
    ∷ some u.command.listen_event
    ∷ some u.monitor.listen_event
    ∷ some u.device_event
    ∷ some u.ril.listen_event
    ∷ replicate 11 none

-- The descriptors of the pipe, of the three sockets and of the device.
pub record Descriptors : Type 0 where
  pub pipe_read : ℕ
  pub pipe_write : ℕ
  pub command_socket : ℕ
  pub monitor_socket : ℕ
  pub ril_socket : ℕ
  pub device : ℕ

-- A system that gives all that `main` asks for.
abbrev pub giving : Bytes → Loop → Descriptors → World
giving options l d = record {
  options = options;
  machine_loop = some l;
  created = 0;
  piped = some (d.pipe_read, d.pipe_write);
  command_socket = some d.command_socket;
  monitor_socket = some d.monitor_socket;
  ril_socket = some d.ril_socket;
  device = some d.device;
}

-- From the start of the event loop on.
up :
    (options : Bytes) (l : Loop) (d : Descriptors) (fsm : Fsm) (u : Upil) (slots : List Slot)
    → (u' : Upil) × (machine_started
          (giving options l d)
          0
          (record u { pool = record { in_use = true; fsm = fsm } ∷ slots })
        ≡ runs 0 u')
      × (get_elem? u'.pool 0 ≡ some (record { in_use = true; fsm = (upil_sm_usb_attach fsm).1 }))
      × (u'.context.upile.watch_table ≡ watched u)
unfolding machine_started brought_up start_event_loop event_thread event_add_wakeup trigger_ev_loop
    wrapped_set setup_cmd_processor setup_event_monitor setup_device upil_ril_setup open_server
    event_init event_set event_add free_slot
up options l d fsm u slots = (_, refl, refl, refl)

came_up :
    (w : World) (u : Upil) (o : ℕ × Bool) (i : ℕ) (pool : List Slot)
    → parse_options w.options (3, false) ≡ some o
    → upil_sm_start w.machine_loop (sm_init_pool u.pool) ≡ some (some i, pool)
    → main w u ≡ machine_started w i (record u { pool = pool })
unfolding main launched
came_up w u o i pool e e' = rw (e, main) (rw (e', launched) refl)

-- With options that are known, and a system that gives all that is asked for, `main` comes to run: its
-- machine, at the first place of the pool, is offline, one that a telephone comes to be, and was sent
-- the message that the device is there; the event loop watches the pipe that wakes it up, the device,
-- and the three sockets, for a client each, and nothing else.
pub main_runs :
    (options : Bytes) (l : Loop) (d : Descriptors) (u : Upil) (s : Slot) (slots : List Slot)
    (o : ℕ × Bool)
    → parse_options options (3, false) ≡ some o
    → length s.fsm.last_outgoing_num < 128
    → (u' : Upil) × (fsm : Fsm) × (main (giving options l d) (record u { pool = s ∷ slots })
        ≡ runs 0 u')
      × (get_elem? u'.pool 0 ≡ some (record { in_use = true; fsm = (upil_sm_usb_attach fsm).1 }))
      × Reachable (upil_sm_usb_attach fsm).1
      × (fsm.cur_state ≡ some SmState.offline)
      × (u'.context.upile.watch_table ≡ watched u)
main_runs options l d u s slots o known short =
    let (fsm, e, sound, state') =
      transition_to_returns SmState.offline (first_machine l s)
        (prepared-IsSound l (record s.fsm { cur_state = none })) in
    let u0 : Upil = record u { pool = s ∷ slots } in
    let (u', ran, place, table) = up options l d fsm u0 (sm_init_pool slots) in
    (
      u',
      fsm,
      came_up (giving options l d) u0 o 0 _ known (first_started l s slots fsm _ e) ∙ ran,
      place,
      posted Evt.usb_attach none fsm attach_sendable
          (started l (record s.fsm { cur_state = none }) fsm _ short e),
      (unfold is_current in state'),
      table,
    )
