-- ===== src/Tests/Start.antt =====
-- state_machine/state_machine.c: a machine, and a pool of two places, of which one is in use.
use upil.Common.{◌≡◌, refl, true, false, none, List, [], ◌∷◌}
use upil.StateMachine.Defs.{Fsm}
use upil.StateMachine.Pool.{Slot, sm_init_pool, used}
use upil.Tests.Events.{handler}

abbrev pub machine : Fsm
machine = record {
  handler = handler;
  cur_state = none;
  last_incoming_num = [];
  last_outgoing_num = [];
  ring_count = 0;
  effects = [];
}

abbrev pool : List Slot
pool = record { in_use = true; fsm = machine } ∷ record { in_use = false; fsm = machine } ∷ []

-- After `sm_init_pool` no place is in use.
sm_init_pool_free : used (sm_init_pool pool) ≡ 0
unfolding sm_init_pool
sm_init_pool_free = refl
