-- ===== src/Client.antt =====
-- upil_ctrl.c: what another program links to use the telephone over the two sockets; upil_client.c.
pub mod Defs
pub mod Connection
pub mod Served
pub mod Terminal
pub mod Typed
pub mod Noticed
