-- ===== src/Ril/Defs.antt =====
-- upil_ril.c: the AT commands, their replies, and the unsolicited results; upil.c, `strStartsWith`.
-- `asprintf_d n` is the text that `asprintf` makes of the number `n`.
use upil.Common.{
  ℕ, Bool, true, false, ◌&&◌, Option, none, some, List, [], ◌∷◌, ◌++◌, ltb, ◌==◌, if◌then◌else◌,
  drop,
}
use upil.Common.Memory.{Bytes}
use upil.Codes.Ctl
use upil.Codes.Notice
use upil.Codes.SmState
use upil.StateMachine.Defs.{Fsm}
use upil.Phone.Defs.{text_of}
use upil.Phone.Table.{upil_sm_get_current_state}
use upil.Control.Commands.{upil_sm_send_msg, dial_num}

abbrev pub at_dial : Bytes
at_dial = b'A' ∷ b'T' ∷ b'D' ∷ []

abbrev pub at_answer : Bytes
at_answer = b'A' ∷ b'T' ∷ b'A' ∷ []

abbrev pub at_hangup : Bytes
at_hangup = b'A' ∷ b'T' ∷ b'+' ∷ b'C' ∷ b'H' ∷ b'L' ∷ b'D' ∷ b'=' ∷ []

abbrev pub at_current_calls : Bytes
at_current_calls = b'A' ∷ b'T' ∷ b'+' ∷ b'C' ∷ b'L' ∷ b'C' ∷ b'C' ∷ []

abbrev pub at_check : Bytes
at_check = b'A' ∷ b'T' ∷ b'E' ∷ b'0' ∷ []

-- The results 0, -1 and 1 of a command; 1 stands for a reply that comes later.
pub data AtResult : Type 0 where
  ok error later : AtResult

-- The variables of the file: `s_call_dir`, `s_wait_response`, and what was written to the socket,
-- one text for each call of `write` and `send`. `fsm` is the machine of the telephone.
pub record Ril : Type 0 where
  pub fsm : Fsm
  pub call_dir : ℕ
  pub wait_response : Bool
  pub written : List Bytes

-- `strStartsWith`, of a text that ends at its first zero byte.
unfoldable pub str_starts_with : Bytes → Bytes → Bool
str_starts_with line [] = true
str_starts_with [] (p ∷ prefix) = false
str_starts_with (c ∷ line) (p ∷ prefix) =
    let rest = str_starts_with line prefix in
    if c == 0 then false else if c == p then rest else false

-- `write` and `send`
abbrev pub write : Bytes → Ril → Ril
write text r = record r { written = r.written ++ (text ∷ []) }

-- With the zero byte that `strlen(str_result)+1` takes along.
abbrev pub ok_text : Bytes
ok_text = b'O' ∷ b'K' ∷ 10 ∷ 0 ∷ []

abbrev pub error_text : Bytes
error_text = b'E' ∷ b'R' ∷ b'R' ∷ b'O' ∷ b'R' ∷ 10 ∷ 0 ∷ []

-- `if (reply)` of `process_reply`; `none` for NULL.
abbrev pub write_reply : Option Bytes → Ril → Ril
write_reply none r = r
write_reply (some text) r = write text r

-- `process_reply`
unfoldable pub process_reply : AtResult → Option Bytes → Ril → Ril
process_reply ok reply r = write ok_text (write_reply reply r)
process_reply error reply r = write error_text (write_reply reply r)
process_reply later reply r = write_reply reply r

-- The last character is cut off: it is the end of the line.
unfoldable pub drop_last : Bytes → Bytes
drop_last [] = []
drop_last (c ∷ []) = []
drop_last (c ∷ d ∷ cs) = let rest = drop_last (d ∷ cs) in c ∷ rest

-- The result of a call that returns 0 for `true`, and -1.
abbrev pub result_of : Bool → AtResult
result_of sent = if sent then ok else error

-- A message was sent to the machine; if that succeeded, the reply waits for a notice.
abbrev pub deferred : Bool × Fsm → Ril → AtResult × Ril
deferred (sent, fsm) r =
    if sent
    then (later, record r { fsm = fsm; wait_response = true })
    else (error, record r { fsm = fsm })

-- `s_call_dir` after `AT+CLCC`, and the `state` it tells of the call.
abbrev pub call_dir_of : ℕ → ℕ → ℕ
call_dir_of cur dir =
    if cur == SmState.dialing then 0 else if cur == SmState.incoming then 1 else dir

abbrev pub call_state_of : ℕ → ℕ
call_state_of cur = if cur == SmState.dialing then 2 else if cur == SmState.incoming then 4 else 0

-- `"+CLCC: 1,%d,%d,0,0,\"%s\",129\n"`
unfoldable pub clcc_text : (ℕ → Bytes) → ℕ → ℕ → Bytes → Bytes
clcc_text asprintf_d dir state num =
    (b'+' ∷ b'C' ∷ b'L' ∷ b'C' ∷ b'C' ∷ b':' ∷ b' ' ∷ b'1' ∷ b',' ∷ [])
    ++ (asprintf_d dir
        ++ ((b',' ∷ [])
            ++ (asprintf_d state
                ++ ((b',' ∷ b'0' ∷ b',' ∷ b'0' ∷ b',' ∷ 34 ∷ [])
                    ++ (num ++ (34 ∷ b',' ∷ b'1' ∷ b'2' ∷ b'9' ∷ 10 ∷ []))))))

-- The branch of `AT+CLCC`: the reply, if there is a call, and the variables.
unfoldable pub current_calls : (ℕ → Bytes) → Ril → Option Bytes × Ril
unfolding clcc_text
current_calls asprintf_d r =
    let cur = upil_sm_get_current_state r.fsm in
    let dir = call_dir_of cur r.call_dir in
    let num = if dir == 0 then r.fsm.last_outgoing_num else r.fsm.last_incoming_num in
    if ltb SmState.idle cur
    then (some (clcc_text asprintf_d dir (call_state_of cur) num), record r { call_dir = dir })
    else (none, r)

-- `result` after the check of `ATE0`.
unfoldable pub checked : Bytes → Fsm → AtResult
checked buffer fsm =
    if str_starts_with buffer at_check && ltb (upil_sm_get_current_state fsm) SmState.idle
    then error
    else ok

-- What a command comes to, before the reply.
unfoldable pub executed : (ℕ → Bytes) → Bytes → Ril → Option Bytes × (AtResult × Ril)
unfolding checked current_calls drop_last
executed asprintf_d buffer r =
    let number = dial_num (drop_last (text_of (drop 3 buffer))) in
    let answered = upil_sm_send_msg Ctl.handfree_on none r.fsm in
    let listed = current_calls asprintf_d r in
    if str_starts_with buffer at_dial
    then (none, deferred (upil_sm_send_msg Ctl.handfree_on number r.fsm) r)
    else if str_starts_with buffer at_hangup
    then (none, deferred (upil_sm_send_msg Ctl.handfree_off none r.fsm) r)
    else if str_starts_with buffer at_answer
    then (none, (result_of answered.0, record r { fsm = answered.1 }))
    else if str_starts_with buffer at_current_calls
    then (listed.0, (checked buffer r.fsm, listed.1))
    else (none, (checked buffer r.fsm, r))

-- `!strcmp(buffer, "\r")`
abbrev pub is_blank : Bytes → Bool
is_blank buffer = elim (text_of buffer) [
  | [] ↦ false
  | c ∷ cs ↦ elim cs [ [] ↦ c == 13 | d ∷ ds ↦ false ]
]

-- `processCommandBuffer`
unfoldable pub process_command_buffer : (ℕ → Bytes) → Bytes → Ril → Ril
unfolding executed
process_command_buffer asprintf_d buffer r =
    let (reply, (result, r')) = executed asprintf_d buffer r in
    if is_blank buffer then r else process_reply result reply r'

abbrev pub ring_text : Bytes
ring_text = b'R' ∷ b'I' ∷ b'N' ∷ b'G' ∷ 10 ∷ 0 ∷ []

abbrev pub no_carrier_text : Bytes
no_carrier_text = b'N' ∷ b'O' ∷ b' ' ∷ b'C' ∷ b'A' ∷ b'R' ∷ b'R' ∷ b'I' ∷ b'E' ∷ b'R' ∷ 10 ∷ 0 ∷ []

-- The reply to a command that waits.
abbrev pub waited : Ril → Ril
waited r = record (process_reply ok none r) { wait_response = false }

-- `upil_ril_unsolicited`
unfoldable pub upil_ril_unsolicited : ℕ → Ril → Ril
unfolding process_reply
upil_ril_unsolicited msg r =
    if msg == Notice.incoming
    then write ring_text r
    else if msg == Notice.idle
    then (if r.wait_response then waited r else write no_carrier_text r)
    else if msg == Notice.dialing
    then (if r.wait_response then waited r else r)
    else r
