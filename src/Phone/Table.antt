-- ===== src/Phone/Table.antt =====
-- upil_sm.c: the table of the states, and the calls from outside.
use upil.Common.{ℕ, true, Option, none, some, List, [], ◌∷◌}
use upil.Common.Memory.{Bytes, ◌>>=◌}
use upil.Codes.Ctl
use upil.Codes.SmState
use upil.Handler.Defs.{Msg}
use upil.StateMachine.Defs.{Fsm, Action, FsmState, send}
use upil.Phone.Waiting.{
  offline_enter, offline_process, syncing_enter, syncing_process, idle_enter, idle_process,
}
use upil.Phone.Calling.{
  dialing_enter, dialing_process, incoming_enter, incoming_process, conversation_enter,
  conversation_process, memo_enter, memo_process,
}

-- `ADD_STATE`: no state has an `exit_func`, and each `process_func` returns HANDLED.
unfoldable pub state : ℕ → Action → (Msg → Action) → FsmState
state id enter process = record {
  id = id;
  enter_func = some enter;
  exit_func = none;
  process_func = some (λ msg fsm. process msg fsm >>= λ fsm'. some (true, fsm'));
}

unfoldable pub my_state_table : List FsmState
unfolding state
my_state_table =
    state SmState.offline offline_enter offline_process
    ∷ state SmState.syncing syncing_enter syncing_process
    ∷ state SmState.idle idle_enter idle_process
    ∷ state SmState.dialing dialing_enter dialing_process
    ∷ state SmState.incoming incoming_enter incoming_process
    ∷ state SmState.conversation conversation_enter conversation_process
    ∷ state SmState.memo memo_enter memo_process
    ∷ []

-- `upil_sm_get_current_state` of a machine that is not null.
unfoldable pub upil_sm_get_current_state : Fsm → ℕ
upil_sm_get_current_state fsm = elim fsm.cur_state [ none ↦ SmState.offline | some id ↦ id ]

-- `upil_sm_start_dail`, `number` being `none` for NULL.
abbrev pub upil_sm_start_dail : Option Bytes → Action
upil_sm_start_dail number = send Ctl.handfree_on number 0
