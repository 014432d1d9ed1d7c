-- ===== src/Daemon.antt =====
-- upil.c: the program that brings the parts up.
pub mod Defs
pub mod Running
