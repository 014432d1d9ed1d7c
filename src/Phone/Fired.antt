-- ===== src/Phone/Fired.antt =====
-- upil_sm.c with state_machine/state_machine.c: the timers that the event loop fires.
use upil.Common.{
  ℕ, ◌≡◌, refl, ap, ◌∙◌, inl, inr, Bool, true, false, ◌||◌, Option, none, some, List, ◌∷◌, ◌++◌,
  Bool-cases, Option-cases, arith, ltb, ◌==◌, if◌then◌else◌, length, length-append,
}
use upil.Codes.Evt
use upil.Handler.Defs
use upil.Handler.Defs.{Msg, Handler, process_defer_msg, process_defers}
use upil.Handler.Queue.{IsSound, remove_from_list-Removed}
use upil.Handler.Others.{IsDistinct-drop, in_queue-distinct}
use upil.StateMachine.Defs.{
  Fsm, FsmState, int_of, is_current, transition_to, process_msg, sm_process_message,
}
use upil.Phone.Table.{my_state_table}
use upil.Phone.Keeps.{fits, overflows, overflows_in}
use upil.Phone.Steps.{process_msg_returns, process_msg-overflows, transition_to_returns}

-- The message of a transition carries the four bytes of a state's identifier.
unfoldable pub carries_state : Msg → Bool
carries_state msg =
    if msg.what == Evt.sm_transition
    then elim (int_of msg.payload) [ none ↦ false | some id ↦ true ]
    else true

-- No state yet, or one of the table.
unfoldable pub is_known : Option ℕ → Bool
is_known o = elim o [ none ↦ true | some id ↦ ltb id 7 ]

-- A sound handler stays sound when one of its messages is taken out.
pub remove_from_list-IsSound :
    (h : Handler) (p : List Msg) (m : Msg) (q : List Msg)
    → h.msg_queue ≡ p ++ (m ∷ q)
    → IsSound h
    → IsSound (Defs.remove_from_list m.id h)
remove_from_list-IsSound h p m q e s =
    let d = rw e at s.distinct in
    let r = remove_from_list-Removed h p m q e (in_queue-distinct h.fresh p m q d) in
    record {
      no_defers = r.defers ∙ s.no_defers;
      counted =
          rw (r.count, r.queue)
            (omega (arith, s.counted, ap length e, length-append p (m ∷ q), length-append p q));
      capped = rw r.count (omega (arith, s.capped));
      distinct = rw (r.queue, r.same_fresh) (IsDistinct-drop h.fresh p m q d);
    }

transition_known :
    (id : ℕ) (fsm : Fsm)
    → is_known fsm.cur_state ≡ true
    → is_known (if is_current id fsm || ltb id 7 then some id else fsm.cur_state) ≡ true
unfolding is_known is_current
transition_known id fsm k = elim (Option-cases fsm.cur_state) [
  | inl e ↦ ground (arith, e)
  | inr (cur, e) ↦ ground (arith, e, k)
]

-- `taken` is the machine once the message has left the queue.
pub sm_process_message_msg :
    (table : List FsmState) (msg : Msg) (fsm : Fsm)
    → msg.what == Evt.sm_transition ≡ false
    → sm_process_message table msg fsm
      ≡ process_msg table msg (record fsm { handler = Defs.remove_from_list msg.id fsm.handler })
unfolding sm_process_message
sm_process_message_msg table msg fsm e = rw e refl

pub sm_process_message_move :
    (table : List FsmState) (msg : Msg) (fsm : Fsm) (id : ℕ)
    → msg.what == Evt.sm_transition ≡ true
    → int_of msg.payload ≡ some id
    → sm_process_message table msg fsm
      ≡ transition_to table id (record fsm { handler = Defs.remove_from_list msg.id fsm.handler })
unfolding sm_process_message
sm_process_message_move table msg fsm id e i = rw e (rw i refl)

carried :
    (msg : Msg)
    → msg.what == Evt.sm_transition ≡ true
    → carries_state msg ≡ true
    → (id : ℕ) × (int_of msg.payload ≡ some id)
unfolding carries_state
carried msg w c = elim (Option-cases (int_of msg.payload)) [
  | inl e ↦ absurd (ground (arith, e, w, c))
  | inr found ↦ found
]

-- When the timer of a queued message fires, whose text fits and which names a state if it asks for
-- a transition, and which is no number that is too long to be dialled, the call returns: the handler is sound afterwards, and the machine is in a state of
-- the table if it was in one.
pub sm_process_message_returns :
    (p q : List Msg) (msg : Msg) (fsm : Fsm)
    → fsm.handler.msg_queue ≡ p ++ (msg ∷ q)
    → IsSound fsm.handler
    → is_known fsm.cur_state ≡ true
    → fits msg ≡ true
    → carries_state msg ≡ true
    → overflows msg fsm ≡ false
    → (handled : Bool) × (fsm' : Fsm) × (sm_process_message my_state_table msg fsm
        ≡ some (handled, fsm'))
      × IsSound fsm'.handler
      × (is_known fsm'.cur_state ≡ true)
unfolding overflows
sm_process_message_returns p q msg fsm e s k f c fit =
    let taken : Fsm = record fsm { handler = Defs.remove_from_list msg.id fsm.handler } in
    let sound = remove_from_list-IsSound fsm.handler p msg q e s in
    elim (Bool-cases (msg.what == Evt.sm_transition)) [
      | inl move ↦
          let (id, at_id) = carried msg move c in
          let (fsm', done, sound', state') = transition_to_returns id taken sound in
          (
            _,
            fsm',
            sm_process_message_move my_state_table msg fsm id move at_id ∙ done,
            sound',
            ap is_known state' ∙ transition_known id taken k,
          )
      | inr other ↦
          let (fsm', done, sound', state') = process_msg_returns msg taken sound f fit in
          (
            true,
            fsm',
            sm_process_message_msg my_state_table msg fsm other ∙ done,
            sound',
            ap is_known state' ∙ k,
          )
    ]

-- A number that is too long leaves the buffers of `tpp_send_cmd` when its timer fires.
pub sm_process_message-overflows :
    (msg : Msg) (fsm : Fsm)
    → overflows msg fsm ≡ true
    → sm_process_message my_state_table msg fsm ≡ none
unfolding overflows
sm_process_message-overflows msg fsm over =
    sm_process_message_msg my_state_table msg fsm (number fsm.cur_state over)
    ∙ process_msg-overflows msg (record fsm { handler = Defs.remove_from_list msg.id fsm.handler })
        over
  where
    number :
        (o : Option ℕ)
        → (elim o [ none ↦ false | some id ↦ overflows_in id msg ]) ≡ true
        → msg.what == Evt.sm_transition ≡ false
    number none h = absurd (ground (arith, h))
    number (some id) h = unfold overflows_in in ground (arith, h)
