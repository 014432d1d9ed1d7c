-- ===== src/Phone.antt =====
-- upil_sm.c: the telephone, as states over the machine of state_machine.c.
pub mod Defs
pub mod Waiting
pub mod Calling
pub mod Table
pub mod Keeps
pub mod States
pub mod Steps
pub mod Fired
pub mod Ready
pub mod Readies
pub mod Settled
pub mod Reached
pub mod Live
pub mod Firing
pub mod Hushed
pub mod Lasting
pub mod Told
pub mod Sounds
pub mod Silence
pub mod Fed
pub mod Calls
pub mod Dialling
pub mod Dialled
pub mod Start
pub mod Notices
