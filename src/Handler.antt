-- ===== src/Handler.antt =====
-- state_machine/handler.c: the message queues of a handler.
pub mod Defs
pub mod Queue
pub mod Others
pub mod Linked
pub mod Tracked
pub mod Unlinked
