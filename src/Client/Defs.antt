-- ===== src/Client/Defs.antt =====
-- upil_ctrl.c: the requests of a client. A request is answered by the text that is received, of 511
-- bytes at most; `none` as the result of a definition is an access outside a buffer.
use upil.Common.{
  ℕ, Bool, true, false, Option, none, some, [], ◌∷◌, ◌++◌, ltb, ◌==◌, if◌then◌else◌, length, drop,
}
use upil.Common.Memory.{Bytes, ◌>>=◌}
use upil.Codes.SmState
use upil.Phone.Defs.{text_of}
use upil.Control.Commands.{
  starts_with, ctrl_get_ver, ctrl_dial, ctrl_hangup, ctrl_get_state, reply_success, reply_failure,
}

-- What `send`, `select` and `recv` make of a request: it is not sent, no answer comes within three
-- seconds or it cannot be received, or one is received.
pub data Answer : Type 0 where
  unsent unanswered : Answer
  got : Bytes → Answer

-- The results 0, -1, -2 and -3 of `upil_ctrl_request`.
pub data Result : Type 0 where
  done not_sent no_answer refused : Result

-- `strcpy` of a text into a buffer of `size` bytes
unfoldable pub strcpy : Bytes → ℕ → Option Bytes
strcpy text size = if ltb (length text) size then some text else none

-- `strcpy(reply, text)`, with the result that goes with it.
unfoldable pub stored : Result → Bytes → ℕ → Option (Result × Bytes)
stored r text reply_len = strcpy text reply_len >>= λ reply. some (r, reply)

-- The branches on what was received, a text that ends at its first zero byte.
unfoldable pub decode : Bytes → ℕ → Option (Result × Bytes)
unfolding stored
decode msg reply_len =
    if starts_with reply_success msg
    then stored done (drop 9 msg) reply_len
    else if starts_with reply_failure msg
    then stored refused (drop 9 msg) reply_len
    else stored refused msg reply_len

-- `upil_ctrl_request`: the result, and the reply in its buffer of `reply_len` bytes, which the
-- function itself does not look at.
unfoldable pub upil_ctrl_request : Answer → ℕ → Option (Result × Bytes)
upil_ctrl_request unsent reply_len = some (not_sent, [])
upil_ctrl_request unanswered reply_len = some (no_answer, [])
upil_ctrl_request (got msg) reply_len = decode (text_of msg) reply_len

-- `upil_ctrl_request(…) < 0`
abbrev pub is_failure : Result → Bool
is_failure done = false
is_failure not_sent = true
is_failure no_answer = true
is_failure refused = true

-- The results 0 and -1, as true and false.
abbrev pub succeeded : Option (Result × Bytes) → Option Bool
succeeded answered =
    answered >>= λ (result, reply). some (if is_failure result then false else true)

-- The command of `upil_ctrl_dial`, in `cmd[64]`; `none` for a number that is NULL.
unfoldable pub dial_cmd : Option Bytes → Option Bytes
dial_cmd none = strcpy ctrl_dial 64
dial_cmd (some number) = strcpy (ctrl_dial ++ number) 64

-- `upil_ctrl_dial`: `exchange` is what becomes of the command that is sent.
unfoldable pub upil_ctrl_dial : (Bytes → Answer) → Option Bytes → Option Bool
unfolding dial_cmd
upil_ctrl_dial exchange number =
    dial_cmd number >>= λ cmd. succeeded (upil_ctrl_request (exchange cmd) 10)

unfoldable pub upil_ctrl_hangup : (Bytes → Answer) → Option Bool
upil_ctrl_hangup exchange = succeeded (upil_ctrl_request (exchange ctrl_hangup) 128)

-- `if (reply[0])`: what a reply is read as, if there is one, and `old` otherwise.
unfoldable pub read_as {ℓ} : {A : Type ℓ} → (Bytes → A) → A → Bytes → A
read_as f old [] = old
read_as f old (c ∷ cs) = f (c ∷ cs)

-- `upil_ctrl_get_version`: whether it succeeds, and `version`, whose size is not looked at.
unfoldable pub upil_ctrl_get_version : (Bytes → Answer) → Bytes → Option (Bool × Bytes)
upil_ctrl_get_version exchange version =
    upil_ctrl_request (exchange ctrl_get_ver) 128 >>= λ (result, reply).
    some (if is_failure result then (false, version) else (true, read_as (λ t. t) version reply))

-- `upil_ctrl_get_state`: whether it succeeds, and `*p_state`. `atoi` is the library's.
unfoldable pub upil_ctrl_get_state : (Bytes → ℕ) → (Bytes → Answer) → ℕ → Option (Bool × ℕ)
upil_ctrl_get_state atoi exchange state =
    upil_ctrl_request (exchange ctrl_get_state) 128 >>= λ (result, reply).
    some (if is_failure result then (false, state) else (true, read_as atoi state reply))

-- `upil_is_device_exist`: `garbage` is what the variable `state` holds at first.
unfoldable pub upil_is_device_exist : (Bytes → ℕ) → (Bytes → Answer) → ℕ → Option Bool
upil_is_device_exist atoi exchange garbage =
    upil_ctrl_get_state atoi exchange garbage >>= λ (success, state).
    some (if success then (if state == SmState.offline then false else true) else false)

unfoldable pub upil_is_device_ready : (Bytes → ℕ) → (Bytes → Answer) → ℕ → Option Bool
upil_is_device_ready atoi exchange garbage =
    upil_ctrl_get_state atoi exchange garbage >>= λ (success, state).
    some (if success then (if ltb state SmState.idle then false else true) else false)

-- `upil_ril_write`: the call of `upil_ctrl_dial`, if there is one, whose result is not used; it
-- returns 0.
unfoldable pub upil_ril_write : (Bytes → Answer) → Bytes → Option ℕ
upil_ril_write exchange buffer =
    if starts_with (b'A' ∷ b'T' ∷ b'D' ∷ []) buffer
    then (upil_ctrl_dial exchange (some (text_of (drop 3 buffer))) >>= λ success. some 0)
    else some 0
