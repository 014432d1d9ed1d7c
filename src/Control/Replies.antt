-- ===== src/Control/Replies.antt =====
-- What a client of the command socket gets, and what its commands do to the machine.
use upil.Common.{
  ℕ, ◌+◌, ◌≡◌, refl, Bool, true, false, ◌&&◌, ◌||◌, Option, none, some, [], ◌∷◌, ◌++◌, take, drop,
  length, length-take, arith, ltb, if◌then◌else◌,
}
use upil.Common.Memory.{Bytes}
use upil.Codes.Ctl
use upil.Handler.Queue.{IsSound, sm_send_message_delay-IsSound}
use upil.StateMachine.Defs.{Fsm}
use upil.Phone.Defs.{text_of}
use upil.Phone.Table.{upil_sm_get_current_state}
use upil.Tpp.Sending.{NoZero}
use upil.Control.Commands.{
  ctrl_get_ver, ctrl_dial, ctrl_hangup, ctrl_get_state, reply_success, reply_failure, starts_with,
  upil_sm_send_msg, upil_sm_get_version, process_reply, dial_num, process_command,
}

-- No reply, or one of less than 512 characters that begins with one of the two words.
unfoldable pub is_reply : Option Bytes → Bool
is_reply none = true
is_reply (some t) =
    ltb (length t) 512 && (starts_with reply_success t || starts_with reply_failure t)

cut_short : (n : ℕ) (t : Bytes) → ltb (length (take n t)) (n + 1) ≡ true
cut_short n t = ground (arith, length-take n t)

both : (a b : Bool) → a ≡ true → b ≡ true → (a && b) ≡ true
both true b p q = q
both false b p q = p

process_reply-is_reply :
    (ok : Bool) (reply : Bytes) → is_reply (some (process_reply ok reply)) ≡ true
unfolding is_reply process_reply starts_with
process_reply-is_reply true reply = both _ true (cut_short 511 (reply_success ++ reply)) refl
process_reply-is_reply false reply = both _ true (cut_short 511 (reply_failure ++ reply)) refl

sent-IsSound :
    (event : ℕ) (payload : Option Bytes) (fsm : Fsm)
    → IsSound fsm.handler
    → IsSound (upil_sm_send_msg event payload fsm).1.handler
unfolding upil_sm_send_msg
sent-IsSound event payload fsm s = sm_send_message_delay-IsSound fsm.handler event payload 0 s

-- The outcome of a command: a sound handler, the state as it was, and a reply.
pub record IsServed (fsm : Fsm) (r : Option Bytes × Fsm) : Type 0 where
  pub sound : IsSound r.1.handler
  pub same_state : r.1.cur_state ≡ fsm.cur_state
  pub replied : is_reply r.0 ≡ true

served_if :
    {fsm : Fsm} (t : Bool) {a b : Option Bytes × Fsm}
    → IsServed fsm a
    → IsServed fsm b
    → IsServed fsm (if t then a else b)
served_if true p q = p
served_if false p q = q

answered :
    (reply : Bytes) (fsm : Fsm)
    → IsSound fsm.handler
    → IsServed fsm (some (process_reply true reply), fsm)
answered reply fsm s = record {
  sound = s;
  same_state = refl;
  replied = process_reply-is_reply true reply;
}

sent :
    (event : ℕ) (payload : Option Bytes) (fsm : Fsm)
    → IsSound fsm.handler
    → let r = upil_sm_send_msg event payload fsm in IsServed fsm (some (process_reply r.0 []), r.1)
unfolding upil_sm_send_msg
sent event payload fsm s = record {
  sound = sent-IsSound event payload fsm s;
  same_state = refl;
  replied = process_reply-is_reply _ [];
}

-- Whatever a client sends: the handler stays sound, the current state is as it was, and the reply,
-- if there is one, has less than 512 characters and begins with one of the two words for success
-- and failure.
pub process_command-IsServed :
    (asprintf_d : ℕ → Bytes) (buffer : Bytes) (fsm : Fsm)
    → IsSound fsm.handler
    → IsServed fsm (process_command asprintf_d buffer fsm)
unfolding process_command is_reply
process_command-IsServed asprintf_d buffer fsm s =
    let none_of_them : IsServed fsm (none, fsm) = record {
      sound = s;
      same_state = refl;
      replied = refl;
    } in
    let asked_state =
      served_if (starts_with (take 11 ctrl_get_state) buffer)
        (answered (asprintf_d (upil_sm_get_current_state fsm)) fsm s) none_of_them in
    let hung_up =
      served_if (starts_with ctrl_hangup buffer) (sent Ctl.handfree_off none fsm s) asked_state in
    let dialed =
      served_if (starts_with ctrl_dial buffer)
        (sent Ctl.handfree_on (dial_num (text_of (drop 4 buffer))) fsm s) hung_up in
    served_if (starts_with ctrl_get_ver buffer) (answered upil_sm_get_version fsm s) dialed

pub text_of-append : (t rest : Bytes) → NoZero t → text_of (t ++ (0 ∷ rest)) ≡ t
unfolding text_of
text_of-append [] rest h = refl
text_of-append (b ∷ t) rest h = ground (arith, text_of-append t rest h.1)

-- The command to dial a number, which ends at a zero byte: the number goes to the state machine with
-- the message to take the telephone off the hook, with none if it is empty, and the client is told
-- whether that message was sent.
pub process_command_dial :
    (asprintf_d : ℕ → Bytes) (number rest : Bytes) (fsm : Fsm)
    → NoZero number
    → process_command asprintf_d (ctrl_dial ++ (number ++ (0 ∷ rest))) fsm ≡ (
        let r = upil_sm_send_msg Ctl.handfree_on (dial_num number) fsm in
        (some (if r.0 then reply_success else reply_failure), r.1))
unfolding process_command starts_with process_reply
process_command_dial asprintf_d number rest fsm h = rw (text_of-append number rest h) (ground arith)
