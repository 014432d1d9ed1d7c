-- ===== src/Ril/Unanswered.antt =====
-- upil_ril.c with upil_sm.c: a telephone without its device that is told to dial.
use upil.Common.{
  ℕ, ◌≡◌, refl, ◌∙◌, Bool, true, false, some, [], ◌∷◌, ◌++◌, ltb, ◌+◌, ◌==◌, drop, arith,
}
use upil.Common.Memory.{Bytes}
use upil.Codes.Ctl
use upil.Codes.Notice
use upil.Codes.SmState
use upil.Handler.Defs
use upil.Handler.Defs.{Msg, stored, max_msg_queue_size, sm_send_message_delay}
use upil.Handler.Queue.{IsSound, new_msg, is_granted, sm_send_message_delay_lem}
use upil.StateMachine.Defs.{Fsm, sm_process_message, get_state}
use upil.Phone.Defs.{text_of, default_process}
use upil.Phone.Waiting.{offline_enter, offline_process}
use upil.Phone.Table.{my_state_table}
use upil.Phone.Calls.{in_state}
use upil.Phone.Fired.{sm_process_message_msg}
use upil.Control.Commands.{upil_sm_send_msg, dial_num}
use upil.Ril.Defs.{
  Ril, at_dial, str_starts_with, is_blank, drop_last, executed, process_reply,
  process_command_buffer, ok_text, upil_ril_unsolicited,
}

-- An offline telephone does nothing when it is told to dial.
offline_ignores :
    (msg : Msg) (fsm : Fsm)
    → fsm.cur_state ≡ some SmState.offline
    → msg.what ≡ Ctl.handfree_on
    → sm_process_message my_state_table msg fsm
      ≡ some (true, record fsm { handler = Defs.remove_from_list msg.id fsm.handler })
unfolding my_state_table get_state offline_process default_process
offline_ignores msg fsm e w =
    let taken : Fsm = record fsm { handler = Defs.remove_from_list msg.id fsm.handler } in
    sm_process_message_msg my_state_table msg fsm (ground (arith, w))
    ∙ in_state SmState.offline offline_enter offline_process msg taken taken e refl
        (ground (arith, w, e))

-- A command that dials is not blank.
is_blank-at_dial :
    (buffer : Bytes) → str_starts_with buffer at_dial ≡ true → is_blank buffer ≡ false
unfolding str_starts_with text_of
is_blank-at_dial [] h = absurd (ground (arith, h))
is_blank-at_dial (c ∷ cs) h =
    let first : c == b'A' ≡ true = ground (arith, h) in
    let not_end : c == 0 ≡ false = ground (arith, first) in
    rw (is_blank, not_end) (other (text_of cs) (ground (arith, first)))
  where
    other : (ds : Bytes) → c == 13 ≡ false → (elim ds [ [] ↦ c == 13 | d ∷ ds' ↦ false ]) ≡ false
    other [] n = n
    other (d ∷ ds') n = refl

abbrev number_of : Bytes → Ril → Bool × Fsm
number_of buffer r =
    upil_sm_send_msg Ctl.handfree_on (dial_num (drop_last (text_of (drop 3 buffer)))) r.fsm

-- `ATD` whose message is queued.
dial_deferred :
    (asprintf_d : ℕ → Bytes) (buffer : Bytes) (r : Ril)
    → str_starts_with buffer at_dial ≡ true
    → (number_of buffer r).0 ≡ true
    → process_command_buffer asprintf_d buffer r
      ≡ record r { fsm = (number_of buffer r).1; wait_response = true }
unfolding process_command_buffer executed process_reply
dial_deferred asprintf_d buffer r dials sent = rw (is_blank-at_dial buffer dials, dials, sent) refl

-- An offline telephone that is told to dial, with room and memory for the message: nothing is written
-- and the reply waits; the message, the last of the queue, is HANDLED when its timer fires, leaves the
-- machine offline, and has no effect; and a notice that the telephone is idle, whenever it comes next,
-- is taken for the reply.
pub process_command_buffer_unanswered :
    (asprintf_d : ℕ → Bytes) (buffer : Bytes) (r : Ril)
    → str_starts_with buffer at_dial ≡ true
    → r.fsm.cur_state ≡ some SmState.offline
    → IsSound r.fsm.handler
    → ltb (r.fsm.handler.msg_count + 1) max_msg_queue_size ≡ true
    → r.fsm.handler.grants r.fsm.handler.fresh ≡ true
    → let r' = process_command_buffer asprintf_d buffer r in
      (last : Msg) × (end : Fsm) × (r'.written ≡ r.written)
      × (r'.wait_response ≡ true)
      × (r'.fsm.handler.msg_queue ≡ r.fsm.handler.msg_queue ++ (last ∷ []))
      × (sm_process_message my_state_table last r'.fsm ≡ some (true, end))
      × (end.cur_state ≡ some SmState.offline)
      × (end.effects ≡ r.fsm.effects)
      × ((upil_ril_unsolicited Notice.idle (record r' { fsm = end })).written
          ≡ r.written ++ (ok_text ∷ []))
unfolding upil_sm_send_msg upil_ril_unsolicited process_reply
process_command_buffer_unanswered asprintf_d buffer r dials offline s room memory =
    let data_in = dial_num (drop_last (text_of (drop 3 buffer))) in
    let last : Msg = new_msg r.fsm.handler Ctl.handfree_on data_in in
    let granted : is_granted r.fsm.handler (stored data_in) ≡ true = ground (arith, memory) in
    let (ok, queue, count, sound) =
      sm_send_message_delay_lem r.fsm.handler Ctl.handfree_on data_in 0 s in
    let queued : (number_of buffer r).1.handler.msg_queue ≡ r.fsm.handler.msg_queue ++ (last ∷ []) =
      rw (room, granted) at queue in
    let sent : (number_of buffer r).0 ≡ true = rw (room, granted) at ok in
    rw (dial_deferred asprintf_d buffer r dials sent) (
      last,
      _,
      refl,
      refl,
      queued,
      offline_ignores last (number_of buffer r).1 offline refl,
      offline,
      refl,
      refl,
    )
