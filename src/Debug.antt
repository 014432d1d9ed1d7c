-- ===== src/Debug.antt =====
-- upil_debug.c and include/upil_debug.h: what is logged.
pub mod Defs
pub mod Depth
pub mod Dump
