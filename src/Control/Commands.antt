-- ===== src/Control/Commands.antt =====
-- upil_command.c: the commands of a client, and the replies. `asprintf_d n` is the text that
-- `asprintf` makes of the number `n`, and the version's text is that of upil_sm.c.
use upil.Common.{
  ℕ, Bool, true, false, ◌&&◌, Option, none, some, [], ◌∷◌, ◌++◌, take, drop, ◌==◌, if◌then◌else◌,
}
use upil.Common.Memory.{Bytes}
use upil.Codes.Ctl
use upil.Codes.Evt
use upil.Handler.Defs.{sm_send_message_delay}
use upil.StateMachine.Defs.{Fsm}
use upil.Phone.Defs.{text_of}
use upil.Phone.Table.{upil_sm_get_current_state}

abbrev pub ctrl_get_ver : Bytes
ctrl_get_ver = b'G' ∷ b'E' ∷ b'T' ∷ b'_' ∷ b'V' ∷ b'E' ∷ b'R' ∷ b'S' ∷ b'I' ∷ b'O' ∷ b'N' ∷ []

abbrev pub ctrl_dial : Bytes
ctrl_dial = b'D' ∷ b'I' ∷ b'A' ∷ b'L' ∷ []

abbrev pub ctrl_hangup : Bytes
ctrl_hangup = b'H' ∷ b'A' ∷ b'N' ∷ b'G' ∷ b'U' ∷ b'P' ∷ []

abbrev pub ctrl_get_state : Bytes
ctrl_get_state =
    b'G' ∷ b'E' ∷ b'T' ∷ b'_' ∷ b'C' ∷ b'U' ∷ b'R' ∷ b'R' ∷ b'_' ∷ b'S' ∷ b'T' ∷ b'A' ∷ b'T' ∷ b'E'
    ∷ []

abbrev pub reply_success : Bytes
reply_success = b'[' ∷ b'S' ∷ b'U' ∷ b'C' ∷ b'C' ∷ b'E' ∷ b'S' ∷ b'S' ∷ b']' ∷ []

abbrev pub reply_failure : Bytes
reply_failure = b'[' ∷ b'F' ∷ b'A' ∷ b'I' ∷ b'L' ∷ b'U' ∷ b'R' ∷ b'E' ∷ b']' ∷ []

-- `!strncmp(buffer, word, strlen(word))`
unfoldable pub starts_with : Bytes → Bytes → Bool
starts_with [] buffer = true
starts_with (c ∷ word) [] = false
starts_with (c ∷ word) (b ∷ buffer) = let rest = starts_with word buffer in c == b && rest

-- `upil_sm_send_msg`; the result is true for 0.
unfoldable pub upil_sm_send_msg : ℕ → Option Bytes → Fsm → Bool × Fsm
upil_sm_send_msg event payload fsm =
    let r = sm_send_message_delay event payload 0 fsm.handler in (r.0, record fsm { handler = r.1 })

abbrev pub upil_sm_usb_attach : Fsm → Bool × Fsm
upil_sm_usb_attach = upil_sm_send_msg Evt.usb_attach none

abbrev pub upil_sm_get_version : Bytes
upil_sm_get_version = b'1' ∷ b'.' ∷ b'2' ∷ b'.' ∷ b'3' ∷ []

-- `process_reply`: what is sent; `snprintf` cuts it off at 511 characters.
unfoldable pub process_reply : Bool → Bytes → Bytes
process_reply ok reply = take 511 ((if ok then reply_success else reply_failure) ++ reply)

-- `dial_num[0]?dial_num:NULL`
unfoldable pub dial_num : Bytes → Option Bytes
dial_num [] = none
dial_num (d ∷ ds) = some (d ∷ ds)

-- `processCommandBuffer`: the reply, if there is one. `UPIL_CTRL_GET_STATE_LEN` is the length of
-- the word for the version, so that many characters are compared.
unfoldable pub process_command : (ℕ → Bytes) → Bytes → Fsm → Option Bytes × Fsm
process_command asprintf_d buffer fsm =
    let dialed = upil_sm_send_msg Ctl.handfree_on (dial_num (text_of (drop 4 buffer))) fsm in
    let hung_up = upil_sm_send_msg Ctl.handfree_off none fsm in
    if starts_with ctrl_get_ver buffer
    then (some (process_reply true upil_sm_get_version), fsm)
    else if starts_with ctrl_dial buffer
    then (some (process_reply dialed.0 []), dialed.1)
    else if starts_with ctrl_hangup buffer
    then (some (process_reply hung_up.0 []), hung_up.1)
    else if starts_with (take 11 ctrl_get_state) buffer
    then (some (process_reply true (asprintf_d (upil_sm_get_current_state fsm))), fsm)
    else (none, fsm)
