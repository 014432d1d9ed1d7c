-- ===== src/Control/Monitor.antt =====
-- upil_monitor.c: what a monitor is told.
use upil.Common.{
  ℕ, ◌+◌, ◌≡◌, Option, none, some, [], ◌∷◌, ◌++◌, length, ltb, ◌==◌, if◌then◌else◌, get_or, arith,
}
use upil.Common.Memory.{Bytes}
use upil.Codes.Evt
use upil.Codes.Notice
use upil.Phone.Defs.{text_of}

-- `sprintf(event, "CID %s", data)` into 512 bytes.
unfoldable pub cid_text : Option Bytes → Option Bytes
cid_text none = none
cid_text (some bs) =
    if ltb (length (text_of bs) + 4) 512
    then some ((b'C' ∷ b'I' ∷ b'D' ∷ b' ' ∷ []) ++ text_of bs)
    else none

-- `sendto_monitor`: the text that is sent, the empty one for an event that no monitor is told of.
unfoldable pub monitor_text : ℕ → Option Bytes → Option Bytes
monitor_text msg payload =
    if msg == Notice.offline
    then some (
        b'S' ∷ b'T' ∷ b'A' ∷ b'T' ∷ b'E' ∷ b' ' ∷ b'O' ∷ b'F' ∷ b'F' ∷ b'L' ∷ b'I' ∷ b'N' ∷ b'E'
        ∷ [])
    else if msg == Notice.syncing
    then some (
        b'S' ∷ b'T' ∷ b'A' ∷ b'T' ∷ b'E' ∷ b' ' ∷ b'S' ∷ b'Y' ∷ b'N' ∷ b'C' ∷ b'I' ∷ b'N' ∷ b'G'
        ∷ [])
    else if msg == Notice.idle
    then some (b'S' ∷ b'T' ∷ b'A' ∷ b'T' ∷ b'E' ∷ b' ' ∷ b'I' ∷ b'D' ∷ b'L' ∷ b'E' ∷ [])
    else if msg == Notice.dialing
    then some (
        b'S' ∷ b'T' ∷ b'A' ∷ b'T' ∷ b'E' ∷ b' ' ∷ b'D' ∷ b'I' ∷ b'A' ∷ b'L' ∷ b'I' ∷ b'N' ∷ b'G'
        ∷ [])
    else if msg == Notice.incoming
    then some (
        b'S' ∷ b'T' ∷ b'A' ∷ b'T' ∷ b'E' ∷ b' ' ∷ b'I' ∷ b'N' ∷ b'C' ∷ b'O' ∷ b'M' ∷ b'I' ∷ b'N'
        ∷ b'G' ∷ [])
    else if msg == Notice.conversation
    then some (
        b'S' ∷ b'T' ∷ b'A' ∷ b'T' ∷ b'E' ∷ b' ' ∷ b'C' ∷ b'O' ∷ b'N' ∷ b'V' ∷ b'E' ∷ b'R' ∷ b'S'
        ∷ b'A' ∷ b'T' ∷ b'I' ∷ b'O' ∷ b'N' ∷ [])
    else if msg == Notice.memo
    then some (b'S' ∷ b'T' ∷ b'A' ∷ b'T' ∷ b'E' ∷ b' ' ∷ b'M' ∷ b'E' ∷ b'M' ∷ b'O' ∷ [])
    else if msg == Evt.ring
    then some (b'R' ∷ b'I' ∷ b'N' ∷ b'G' ∷ [])
    else if msg == Evt.call_id
    then cid_text payload
    else if msg == Evt.usb_attach
    then some (b'I' ∷ b'N' ∷ b'I' ∷ b'T' ∷ b'I' ∷ b'A' ∷ b'L' ∷ b'I' ∷ b'Z' ∷ b'E' ∷ [])
    else some []

-- Reading a text back: its first byte, and those at 6 and 7, tell the event apart.
abbrev pub event_told : Bytes → ℕ
event_told t =
    let first = get_or t 0 0 in
    let sixth = get_or t 6 0 in
    if first == b'S'
    then (if sixth == b'O'
        then Notice.offline
        else if sixth == b'S'
        then Notice.syncing
        else if sixth == b'D'
        then Notice.dialing
        else if sixth == b'C'
        then Notice.conversation
        else if sixth == b'M'
        then Notice.memo
        else if get_or t 7 0 == b'D'
        then Notice.idle
        else Notice.incoming)
    else if first == b'R'
    then Evt.ring
    else if first == b'C'
    then Evt.call_id
    else Evt.usb_attach

-- A monitor can tell from a text that is not empty which event it was sent for, whatever data came
-- with the event.
pub event_told-monitor_text :
    (msg : ℕ) (payload : Option Bytes) (c : ℕ) (t : Bytes)
    → monitor_text msg payload ≡ some (c ∷ t)
    → event_told (c ∷ t) ≡ msg
unfolding monitor_text cid_text
event_told-monitor_text msg none c t e = ground (arith, e)
event_told-monitor_text msg (some bs) c t e = ground (arith, e)
