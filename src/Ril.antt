-- ===== src/Ril.antt =====
-- upil_ril.c: the socket on which the radio interface layer gives AT commands.
pub mod Defs
pub mod Answers
pub mod Unanswered
