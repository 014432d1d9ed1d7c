-- ===== src/Codes/SmState.antt =====
-- upil_sm.h: `enum UPIL_SM`, the identifiers of the states of a call.
use Prim.Native.Nat.{ℕ}

abbrev pub offline : ℕ
offline = 0

abbrev pub syncing : ℕ
syncing = 1

abbrev pub idle : ℕ
idle = 2

abbrev pub dialing : ℕ
dialing = 3

abbrev pub incoming : ℕ
incoming = 4

abbrev pub conversation : ℕ
conversation = 5

abbrev pub memo : ℕ
memo = 6
