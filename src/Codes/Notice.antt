-- ===== src/Codes/Notice.antt =====
-- include/upil_request.h: UPIL_STATE_*, the codes of the notices sent to the monitor.
use Prim.Native.Nat.{ℕ}

abbrev pub offline : ℕ
offline = 352

abbrev pub syncing : ℕ
syncing = 353

abbrev pub idle : ℕ
idle = 354

abbrev pub dialing : ℕ
dialing = 355

abbrev pub incoming : ℕ
incoming = 356

abbrev pub conversation : ℕ
conversation = 357

abbrev pub memo : ℕ
memo = 358
