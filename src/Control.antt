-- ===== src/Control.antt =====
-- upil_command.c and upil_monitor.c: the two sockets through which other programs use the telephone.
pub mod Commands
pub mod Replies
pub mod Monitor
pub mod Sockets
pub mod Serving
pub mod Sent
