-- ===== src/Codes.antt =====
-- The numeric codes of include/upil_request.h and upil_sm.h.
pub mod Ctl
pub mod Evt
pub mod Notice
pub mod SmState
