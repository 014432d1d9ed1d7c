-- ===== src/Client/Served.antt =====
-- upil_ctrl.c with upil_command.c: a client's request, and what the telephone makes of it.
use upil.Phone.Dialling.{text_of_self}
use upil.Common.{
  take_short, ℕ, ◌≤◌, ◌<◌, ◌≡◌, refl, ap, Bool, true, false, not, Option, none, some, [], ◌∷◌, ◌++◌,
  ltb, ◌==◌, if◌then◌else◌, length, arith, Bool-cases, inl, inr,
}
use upil.Common.Memory.{Bytes}
use upil.Codes.Ctl
use upil.Codes.SmState
use upil.StateMachine.Defs.{Fsm}
use upil.Phone.Defs.{text_of}
use upil.Phone.Table.{upil_sm_get_current_state}
use upil.Tpp.Sending.{NoZero}
use upil.Control.Commands.{
  starts_with, ctrl_dial, ctrl_get_state, reply_success, reply_failure, process_command,
  process_reply, dial_num, upil_sm_send_msg,
}
use upil.Control.Replies.{process_command_dial}
use upil.Client.Defs.{
  Answer, unanswered, got, done, strcpy, stored, decode, upil_ctrl_request, dial_cmd,
  upil_ctrl_dial, succeeded, read_as, upil_ctrl_get_state, upil_is_device_exist,
  upil_is_device_ready,
}

abbrev pub answer_of : Option Bytes → Answer
answer_of none = unanswered
answer_of (some reply) = got reply

-- The telephone answers the command of a client, whose buffer was cleared before.
unfoldable pub served : (ℕ → Bytes) → Fsm → Bytes → Answer
served asprintf_d fsm cmd = answer_of (process_command asprintf_d (cmd ++ (0 ∷ [])) fsm).0

-- The documented behaviour of `asprintf` with `%d` and of `atoi`: of an `int` that is not negative,
-- `asprintf` makes a text of one to ten characters, and `atoi` reads the number back from it.
pub record IsDecimal (asprintf_d : ℕ → Bytes) (atoi : Bytes → ℕ) : Type 0 where
  pub no_zero : (n : ℕ) → n < 2147483648 → NoZero (asprintf_d n)
  pub not_empty : (n : ℕ) → n < 2147483648 → 1 ≤ length (asprintf_d n)
  pub short : (n : ℕ) → n < 2147483648 → length (asprintf_d n) ≤ 10
  pub read_back : (n : ℕ) → n < 2147483648 → atoi (asprintf_d n) ≡ n

dial_cmd_lem :
    (number : Bytes)
    → dial_cmd (some number) ≡ (if ltb (length number) 60 then some (ctrl_dial ++ number) else none)
unfolding dial_cmd strcpy
dial_cmd_lem number = ground arith

dialed :
    (asprintf_d : ℕ → Bytes) (number : Bytes) (fsm : Fsm)
    → NoZero number
    → served asprintf_d fsm (ctrl_dial ++ number)
      ≡ got (
          if (upil_sm_send_msg Ctl.handfree_on (dial_num number) fsm).0
          then reply_success
          else reply_failure)
unfolding served
dialed asprintf_d number fsm h =
    ap (λ r. answer_of r.0) (process_command_dial asprintf_d number [] fsm h)

answered_dial :
    (ok : Bool)
    → succeeded (upil_ctrl_request (got (if ok then reply_success else reply_failure)) 10) ≡ some ok
unfolding upil_ctrl_request text_of decode starts_with stored strcpy
answered_dial true = refl
answered_dial false = refl

-- Dialling from a client: with a number of less than 60 characters, the call succeeds exactly if the
-- message that takes the telephone off the hook with this number was sent; a longer number is written
-- beyond the 64 bytes of the command.
pub upil_ctrl_dial-served :
    (asprintf_d : ℕ → Bytes) (number : Bytes) (fsm : Fsm)
    → NoZero number
    → upil_ctrl_dial (served asprintf_d fsm) (some number) ≡ (
        if ltb (length number) 60
        then some (upil_sm_send_msg Ctl.handfree_on (dial_num number) fsm).0
        else none)
unfolding upil_ctrl_dial
upil_ctrl_dial-served asprintf_d number fsm h =
    let sent = upil_sm_send_msg Ctl.handfree_on (dial_num number) fsm in
    rw (dial_cmd_lem number) (elim (Bool-cases (ltb (length number) 60)) [
      | inl short ↦ rw short (rw (dialed asprintf_d number fsm h) (answered_dial sent.0))
      | inr long ↦ rw long refl
    ])

-- A reply that is a text without zero bytes, and that is short, comes to the client as it is.
replied :
    (t : Bytes)
    → NoZero t
    → length t < 128
    → upil_ctrl_request (got (process_reply true t)) 128 ≡ some (done, t)
unfolding upil_ctrl_request process_reply decode starts_with stored strcpy text_of
replied t h short =
    rw (take_short 502 t (omega (arith, short)), text_of_self t h) (ground (arith, short))

asked_state :
    (asprintf_d : ℕ → Bytes) (fsm : Fsm)
    → served asprintf_d fsm ctrl_get_state
      ≡ got (process_reply true (asprintf_d (upil_sm_get_current_state fsm)))
unfolding served process_command starts_with
asked_state asprintf_d fsm = refl

read_state :
    (atoi : Bytes → ℕ) (old n : ℕ) (t : Bytes) → 1 ≤ length t → atoi t ≡ n → read_as atoi old t ≡ n
unfolding read_as
read_state atoi old n [] h e = absurd (omega (arith, h))
read_state atoi old n (c ∷ cs) h e = e

state_told :
    (asprintf_d : ℕ → Bytes) (atoi : Bytes → ℕ) (old : ℕ) (fsm : Fsm)
    → IsDecimal asprintf_d atoi
    → upil_sm_get_current_state fsm < 2147483648
    → upil_ctrl_get_state atoi (served asprintf_d fsm) old
      ≡ some (true, upil_sm_get_current_state fsm)
unfolding upil_ctrl_get_state
state_told asprintf_d atoi old fsm d int =
    let n = upil_sm_get_current_state fsm in
    rw (asked_state asprintf_d fsm) (
      rw (replied (asprintf_d n) (d.no_zero n int) (omega (arith, d.short n int))) (
        ap (λ k. some (true, k))
          (read_state atoi old n (asprintf_d n) (d.not_empty n int) (d.read_back n int))))

-- A client is told the current state of the telephone as it is: it learns that there is a device
-- exactly if the state is not offline, and that the device is ready exactly if it is neither offline
-- nor syncing, whatever its variable held before. This holds for a state that is an `int`, as those
-- of the table are, if `asprintf` and `atoi` do what their documentation says.
pub upil_ctrl_get_state-served :
    (asprintf_d : ℕ → Bytes) (atoi : Bytes → ℕ) (old : ℕ) (fsm : Fsm)
    → IsDecimal asprintf_d atoi
    → upil_sm_get_current_state fsm < 2147483648
    → let cur = upil_sm_get_current_state fsm in
      let exchange = served asprintf_d fsm in
      (upil_ctrl_get_state atoi exchange old ≡ some (true, cur))
      × (upil_is_device_exist atoi exchange old ≡ some (not (cur == SmState.offline)))
      × (upil_is_device_ready atoi exchange old ≡ some (not (ltb cur SmState.idle)))
unfolding upil_is_device_exist upil_is_device_ready
upil_ctrl_get_state-served asprintf_d atoi old fsm d int =
    let told = state_told asprintf_d atoi old fsm d int in
    (told, rw told (ground arith), rw told (ground arith))
