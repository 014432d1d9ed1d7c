-- ===== src/Phone/Firing.antt =====
-- upil_sm.c under upil_event/upil_event.c: `firePending` as the loop of a telephone runs it, with
-- `sm_process_message` as the callback of the queued messages.
use upil.Common.{ℕ, Bool, not, Option, none, some, List, [], ◌∷◌, ◌==◌, if◌then◌else◌}
use upil.Common.Memory.{◌>>=◌}
use upil.Codes.Evt
use upil.Codes.SmState
use upil.Loop.Defs.{Loop, first, fire_on}
use upil.Handler.Defs
use upil.Handler.Defs.{Msg, Handler, unlink, remove_message_id, sm_send_message_delay}
use upil.Phone.Live.{Live}
use upil.StateMachine.Defs.{Fsm, sm_process_message}
use upil.Phone.Table.{my_state_table}
use upil.Phone.Live.{in_loop}

-- The queued message with this address.
unfoldable pub find_msg : ℕ → List Msg → Option Msg
find_msg id [] = none
find_msg id (m ∷ q) = let rest = find_msg id q in if m.id == id then some m else rest

-- `ev->func(…)`: the callback of a message's event is `sm_process_message`, which returns 0 for
-- HANDLED and -1; `other` is what the callbacks of all other events do.
unfoldable pub call : (ℕ → Fsm → Option (Fsm × Bool)) → ℕ → Fsm → Option (Fsm × Bool)
call other ev fsm = elim (find_msg ev fsm.handler.msg_queue) [
  | none ↦ other ev fsm
  | some msg ↦ sm_process_message my_state_table msg fsm >>= λ (ok, fsm'). some (fsm', not ok)
]

-- `firePending` on the loop of a telephone.
unfoldable pub fire_phone : ℕ → (ℕ → Fsm → Option (Fsm × Bool)) → Fsm → Option (Fsm × Bool)
unfolding call
fire_phone fuel other fsm =
    fire_on (λ f. f.handler.loop) in_loop fuel (call other) (first fsm.handler.loop.pending) fsm

-- A state that the device tells of while it is synchronised: the timer is removed and set again.
abbrev restarted : Handler → Handler
restarted h =
    (sm_send_message_delay Evt.sync_timeout none 2000 (remove_message_id Evt.sync_timeout h)).1
