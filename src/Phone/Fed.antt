-- ===== src/Phone/Fed.antt =====
-- tp_protocol.c and upil_command.c feed upil_sm.c: what the device and the clients send is valid.
use upil.Common.{
  ℕ, ◌<◌, ◌≡◌, refl, Bool, true, false, not, ◌||◌, Option, none, [], ◌∷◌, arith, ltb, ◌==◌,
  if◌then◌else◌, length, drop,
}
use upil.Common.Memory.{Bytes}
use upil.Common.Ensures.{Ensures}
use upil.Codes.Ctl
use upil.Codes.Evt
use upil.Tpp.Defs.{TppEvt}
use upil.Handler.Defs.{stored}
use upil.StateMachine.Defs.{Fsm}
use upil.Phone.Defs.{text_of}
use upil.Phone.Keeps.{fits}
use upil.Phone.Ready.{is_sendable, names_state}
use upil.Phone.Readies.{text_of-length}
use upil.Phone.Reached.{Reachable, posted}
use upil.Control.Commands.{process_command, dial_num}

-- An event for the state machine, which is not one of its own transitions.
abbrev IsEvent : TppEvt → Type 0
IsEvent e = e.id == Evt.sm_transition ≡ false

-- A caller is identified by at least one digit.
abbrev pub is_identified : TppEvt → Bool
is_identified e = not (e.id == Evt.call_id) || ltb 0 (length e.payload)

off_hook_sendable :
    (num : Bytes) → length num < 128 → is_sendable Ctl.handfree_on (dial_num num) ≡ true
unfolding is_sendable fits names_state stored dial_num
off_hook_sendable [] h = refl
off_hook_sendable (d ∷ ds) h = ground (arith, h, text_of-length (d ∷ ds))

hang_up_sendable : is_sendable Ctl.handfree_off none ≡ true
unfolding is_sendable fits names_state stored
hang_up_sendable = refl

-- A reply, and a machine of those.
record Leads (r : Option Bytes × Fsm) : Type 0 where
  pub machine : Reachable r.1

Leads-if : (t : Bool) {a b : Option Bytes × Fsm} → Leads a → Leads b → Leads (if t then a else b)
Leads-if true p q = p
Leads-if false p q = q

told : (reply : Option Bytes) (fsm : Fsm) → Reachable fsm → Leads (reply, fsm)
told reply fsm r = record { machine = r }

leads :
    (asprintf_d : ℕ → Bytes) (buffer : Bytes) (fsm : Fsm)
    → length (text_of (drop 4 buffer)) < 128
    → Reachable fsm
    → Leads (process_command asprintf_d buffer fsm)
unfolding process_command
leads asprintf_d buffer fsm short r =
    let dialed =
      posted Ctl.handfree_on _ fsm (off_hook_sendable (text_of (drop 4 buffer)) short) r in
    let hung_up = posted Ctl.handfree_off none fsm hang_up_sendable r in
    search (Leads-if, told, dialed, hung_up, r) depth 12

pub process_command-Reachable :
    (asprintf_d : ℕ → Bytes) (buffer : Bytes) (fsm : Fsm)
    → length (text_of (drop 4 buffer)) < 128
    → Reachable fsm
    → Reachable (process_command asprintf_d buffer fsm).1
process_command-Reachable asprintf_d buffer fsm short r =
    (leads asprintf_d buffer fsm short r).machine
