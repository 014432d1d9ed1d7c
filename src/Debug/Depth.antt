-- ===== src/Debug/Depth.antt =====
-- include/upil_debug.h with upil_ril.c: blank AT commands use up the buffer of the log's indentation.
use upil.Common.{
  ℕ, zero, suc, ◌+◌, ◌≡◌, true, none, some, ltb, leb, if◌then◌else◌, arith, inl, inr, Bool-cases,
}
use upil.Debug.Defs.{indented, enter_log, leave_log, blank_logged, blanks_logged}

blank_logged_lem : (n : ℕ) → blank_logged n ≡ (if ltb n 31 then some (n + 1) else none)
unfolding blank_logged enter_log leave_log indented
blank_logged_lem n = ground arith

-- Every blank AT command leaves the log one level deeper: from a level that fits, so many of them are
-- logged exactly if the level they lead to is 31 at most, and otherwise the indentation is written
-- beyond its 64 bytes.
pub blanks_logged_lem :
    (k n : ℕ)
    → leb n 31 ≡ true
    → blanks_logged k n ≡ (if leb (n + k) 31 then some (n + k) else none)
unfolding blanks_logged
blanks_logged_lem zero n h = ground (arith, h)
blanks_logged_lem (suc k) n h = elim (Bool-cases (ltb n 31)) [
  | inl low ↦
      rw (blank_logged_lem n, low)
        (ground (arith, low, blanks_logged_lem k (n + 1) (ground (arith, low))))
  | inr high ↦ rw (blank_logged_lem n, high) (ground (arith, high, h))
]
