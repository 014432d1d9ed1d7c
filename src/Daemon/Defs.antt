-- ===== src/Daemon/Defs.antt =====
-- upil.c: `setup_device` and `main`. What is logged is left out here, as are the signals, and the wait
-- for the device's file, which is there when `main` goes on.
use upil.Common.{
  ℕ, ◌-◌, Bool, true, false, Option, none, some, List, [], ◌∷◌, ◌==◌, if◌then◌else◌, get_elem?, set,
}
use upil.Common.Memory.{Bytes}
use upil.Loop.Defs.{Loop, event_set, event_add}
use upil.Loop.Thread.{Context, start_event_loop}
use upil.StateMachine.Defs.{Fsm}
use upil.StateMachine.Pool.{Slot, sm_init_pool}
use upil.Phone.Start.{upil_sm_start}
use upil.Control.Commands.{upil_sm_usb_attach}
use upil.Control.Sockets.{Server, setup_cmd_processor, setup_event_monitor, upil_ril_setup}

-- `setup_device`: `opened` is the device's descriptor, `none` if it cannot be opened. The result is
-- true for 0.
unfoldable pub setup_device : ℕ → Option ℕ → Loop → Fsm → Bool × (Loop × Fsm)
setup_device device_event none l fsm = (false, (l, fsm))
setup_device device_event (some fd) l fsm = (
  true,
  (event_add device_event (event_set device_event (some fd) true l), (upil_sm_usb_attach fsm).1),
)

-- The loop over the options: `upil_debug_level`, which stays at 0 here where it would become negative,
-- and `upil_debug_ts`; `none` for an option that is not known.
unfoldable pub parse_options : Bytes → ℕ × Bool → Option (ℕ × Bool)
parse_options [] (level, ts) = some (level, ts)
parse_options (ch ∷ options) (level, ts) =
    let quieter = parse_options options (level - 1, ts) in
    let stamped = parse_options options (level, true) in
    if ch == b'd' then quieter else if ch == b't' then stamped else none

-- What the system gives to `main`: the options, the loop of the machine's own thread, the result of
-- `pthread_create` and the pipe for the event loop, the sockets that are bound, and the device.
pub record World : Type 0 where
  pub options : Bytes
  pub machine_loop : Option Loop
  pub created : ℕ
  pub piped : Option (ℕ × ℕ)
  pub command_socket : Option ℕ
  pub monitor_socket : Option ℕ
  pub ril_socket : Option ℕ
  pub device : Option ℕ

-- The static events of the program, and `g_upil_s` with the pool.
pub record Upil : Type 0 where
  pub command : Server
  pub monitor : Server
  pub ril : Server
  pub device_event : ℕ
  pub context : Context
  pub pool : List Slot

-- How `main` goes: it exits with -1, it waits for ever, it accesses memory outside a buffer, or it
-- runs, with its machine at a place of the pool.
pub data Outcome : Type 0 where
  exits waits faults : Outcome
  runs : ℕ → Upil → Outcome

-- From `setup_cmd_processor` on, with the machine `fsm` at place `i`.
unfoldable pub brought_up : World → ℕ → Fsm → Upil → Outcome
brought_up w i fsm u =
    let l1 = (setup_cmd_processor u.command w.command_socket u.context.upile).1 in
    let l2 = (setup_event_monitor u.monitor w.monitor_socket l1).1 in
    let (found, (l3, fsm')) = setup_device u.device_event w.device l2 fsm in
    let l4 = (upil_ril_setup u.ril w.ril_socket l3).1 in
    if found
    then runs i (record u {
      context = record u.context { upile = l4 };
      pool = set u.pool i (record { in_use = true; fsm = fsm' });
    })
    else exits

-- With a machine at place `i`: the event loop is started.
unfoldable pub machine_started : World → ℕ → Upil → Outcome
machine_started w i u = elim (get_elem? u.pool i) [
  | none ↦ faults
  | some slot ↦ elim (start_event_loop w.created w.piped u.context) [
    | none ↦ waits
    | some started ↦
        if started.0 then brought_up w i slot.fsm (record u { context = started.1 }) else exits
  ]
]

-- `main`, once the options are read
unfoldable pub launched : World → Upil → Outcome
launched w u = elim (upil_sm_start w.machine_loop (sm_init_pool u.pool)) [
  | none ↦ faults
  | some place ↦ elim place.0 [
    | none ↦ exits
    | some i ↦ machine_started w i (record u { pool = place.1 })
  ]
]

-- `main`
unfoldable pub main : World → Upil → Outcome
unfolding launched
main w u = elim (parse_options w.options (3, false)) [ none ↦ exits | some read ↦ launched w u ]
