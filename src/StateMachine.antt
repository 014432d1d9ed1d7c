-- ===== src/StateMachine.antt =====
-- state_machine/state_machine.c: machines of states that receive messages.
pub mod Defs
pub mod Names
pub mod Pool
