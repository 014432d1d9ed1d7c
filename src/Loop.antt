-- ===== src/Loop.antt =====
-- upil_event/: the event loop, with its timers and its table of watched descriptors.
pub mod Time
pub mod Defs
pub mod Timers
pub mod Deadlines
pub mod Watch
pub mod Thread
pub mod Rounds
pub mod Wakeup
pub mod Fire
