-- ===== src/StateMachine/Names.antt =====
-- state_machine/state_machine.c: the names that messages are logged with, and the tables of
-- include/upil_request.h that hold them.
use upil.Common.{ℕ, ◌≡◌, Bool, true, not, ◌||◌, Option, none, some, arith, ltb, ◌==◌}
use upil.StateMachine.Defs.{Place, ctl_str, event_str, msg2str}

-- How many names the two tables hold.
abbrev pub ctl_string_table : ℕ
ctl_string_table = 42

abbrev pub event_string_table : ℕ
event_string_table = 44

-- Whether a place is one of its table's.
unfoldable pub is_inside : Option Place → Bool
is_inside none = true
is_inside (some (ctl_str n)) = ltb n ctl_string_table
is_inside (some (event_str n)) = ltb n event_string_table

-- The name of a message is read from within the tables for all but three messages: the last two
-- commands, and the last event.
pub msg2str-is_inside :
    (msg : ℕ) → is_inside (msg2str msg) ≡ not (msg == 42 || (msg == 43 || msg == 88))
unfolding is_inside msg2str
msg2str-is_inside msg = ground arith
