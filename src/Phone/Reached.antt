-- ===== src/Phone/Reached.antt =====
-- upil_sm.c with state_machine/: the machines that a telephone comes to be, and what holds of each.
use upil.Common.{
  ℕ, ◌<◌, ◌≡◌, refl, sym, ap, ◌∙◌, inl, inr, Bool, true, false, Option, none, some, List, ◌∷◌, ◌++◌,
  Bool-cases, Option-cases, arith, ltb, ◌==◌, length,
}
use upil.Common.Memory.{Bytes}
use upil.Common.Ensures.{Ensures, returns, Ensures-bind, of_ensures}
use upil.Codes.Evt
use upil.Codes.SmState
use upil.Loop.Defs.{Loop}
use upil.Handler.Defs
use upil.Handler.Defs.{Msg, Handler, sm_send_message_delay, process_defer_msg, start_handler}
use upil.Handler.Queue.{IsSound, sm_send_message_delay-IsSound}
use upil.StateMachine.Defs.{Fsm, int_of, is_current, transition_to, sm_process_message}
use upil.StateMachine.Pool.{prepared}
use upil.Phone.Table.{my_state_table}
use upil.Phone.Fired.{
  carries_state, is_known, remove_from_list-IsSound, sm_process_message_returns,
  sm_process_message-overflows, sm_process_message_msg, sm_process_message_move,
}
use upil.Phone.Keeps.{overflows}
use upil.Phone.Steps.{transition_to_returns, process_msg_returns}
use upil.Phone.Ready.{
  IsReady, IsReadyFrom, IsReadyFrom-IsReady, is_valid, names_state, is_sendable, all_valid,
  all_valid_middle, sent_valid, remove_from_list_valid,
}
use upil.Phone.Settled.{IsReadyThen, process_msg-IsReady, transition_to-IsReady}
use upil.Phone.Start.{prepared-IsSound}
use upil.Control.Commands.{upil_sm_send_msg}

-- The machines that a telephone comes to be: one that `upil_sm_start` put into its first state, and
-- what becomes of it as messages are sent, as the event loop changes its lists, and as the timers of
-- queued messages fire.
pub data Reachable : Fsm → Type 0 where
  started :
      (l : Loop) (old fsm : Fsm) (handled : Bool)
      → length old.last_outgoing_num < 128
      → transition_to my_state_table SmState.offline (prepared l old) ≡ some (handled, fsm)
      → Reachable fsm
  posted :
      (what : ℕ) (payload : Option Bytes) (fsm : Fsm)
      → is_sendable what payload ≡ true
      → Reachable fsm
      → Reachable (upil_sm_send_msg what payload fsm).1
  looped :
      (l : Loop) (fsm : Fsm)
      → Reachable fsm
      → Reachable (record fsm { handler = record fsm.handler { loop = l } })
  fired :
      (p q : List Msg) (msg : Msg) (fsm fsm' : Fsm) (handled : Bool)
      → fsm.handler.msg_queue ≡ p ++ (msg ∷ q)
      → sm_process_message my_state_table msg fsm ≡ some (handled, fsm')
      → Reachable fsm
      → Reachable fsm'

-- What holds of the machine between two calls.
pub record IsGood (fsm : Fsm) : Type 0 where
  pub sound : IsSound fsm.handler
  pub ready : IsReady fsm
  pub known : is_known fsm.cur_state ≡ true

pub started_ready :
    (l : Loop) (old fsm : Fsm) (handled : Bool)
    → length old.last_outgoing_num < 128
    → transition_to my_state_table SmState.offline (prepared l old) ≡ some (handled, fsm)
    → IsReadyFrom (prepared l old).handler fsm
unfolding start_handler all_valid
started_ready l old fsm handled h e = of_ensures (
    rw e at (
      transition_to-IsReady (prepared l old).handler SmState.offline (prepared l old)
        (record { queued = refl; short = h; tracks = λ t. t })))

started-IsGood :
    (l : Loop) (old fsm : Fsm) (handled : Bool)
    → length old.last_outgoing_num < 128
    → transition_to my_state_table SmState.offline (prepared l old) ≡ some (handled, fsm)
    → IsGood fsm
unfolding start_handler is_known all_valid
started-IsGood l old fsm handled h e =
    let (end, e', sound, state') =
      transition_to_returns SmState.offline (prepared l old) (prepared-IsSound l old) in
    let same : end ≡ fsm = cc (sym e' ∙ e) in
    record {
      sound = rw same at sound;
      ready =
          IsReadyFrom-IsReady (prepared l old).handler fsm (started_ready l old fsm handled h e);
      known = rw (rw same at state') (unfold is_current in refl);
    }

posted-IsGood :
    (what : ℕ) (payload : Option Bytes) (fsm : Fsm)
    → is_sendable what payload ≡ true
    → IsGood fsm
    → IsGood (upil_sm_send_msg what payload fsm).1
unfolding upil_sm_send_msg
posted-IsGood what payload fsm s g = record {
  sound = sm_send_message_delay-IsSound fsm.handler what payload 0 g.sound;
  ready = record {
    queued = sent_valid what payload 0 fsm.handler s g.ready.queued;
    short = g.ready.short;
  };
  known = g.known;
}

looped-IsGood :
    (l : Loop) (fsm : Fsm)
    → IsGood fsm
    → IsGood (record fsm { handler = record fsm.handler { loop = l } })
looped-IsGood l fsm g = record {
  sound = record {
    no_defers = g.sound.no_defers;
    counted = g.sound.counted;
    capped = g.sound.capped;
    distinct = g.sound.distinct;
  };
  ready = record { queued = g.ready.queued; short = g.ready.short };
  known = g.known;
}

names-carries : (msg : Msg) → names_state msg ≡ true → carries_state msg ≡ true
unfolding names_state carries_state
names-carries msg n = ground (arith, n)

pub processed-IsReady :
    (msg : Msg) (fsm : Fsm)
    → IsReady fsm
    → Ensures
        (IsReadyThen (Defs.remove_from_list msg.id fsm.handler))
        (sm_process_message my_state_table msg fsm)
unfolding sm_process_message
processed-IsReady msg fsm r =
    let taken : Fsm = record fsm { handler = Defs.remove_from_list msg.id fsm.handler } in
    let h0 : Handler = taken.handler in
    let r' : IsReadyFrom h0 taken = record {
      queued = remove_from_list_valid msg.id fsm.handler r.queued;
      short = r.short;
      tracks = λ t. t;
    } in
    elim (Bool-cases (msg.what == Evt.sm_transition)) [
      | inl move ↦
          rw move
            (Ensures-bind (int_of msg.payload) _ (λ id e. transition_to-IsReady h0 id taken r'))
      | inr other ↦ rw other (process_msg-IsReady h0 msg taken r')
    ]

named :
    (msg : Msg)
    → msg.what == Evt.sm_transition ≡ true
    → names_state msg ≡ true
    → (id : ℕ) × (int_of msg.payload ≡ some id) × (ltb id 7 ≡ true)
unfolding names_state
named msg w n = elim (Option-cases (int_of msg.payload)) [
  | inl e ↦ absurd (ground (arith, e, w, n))
  | inr (id, e) ↦ (id, e, ground (arith, e, w, n))
]

-- A valid message is HANDLED.
processed_handled :
    (msg : Msg) (fsm : Fsm)
    → is_valid msg ≡ true
    → overflows msg fsm ≡ false
    → IsSound (Defs.remove_from_list msg.id fsm.handler)
    → Ensures (λ (r : Bool × Fsm). r.0 ≡ true) (sm_process_message my_state_table msg fsm)
unfolding overflows
processed_handled msg fsm v fit s =
    let taken : Fsm = record fsm { handler = Defs.remove_from_list msg.id fsm.handler } in
    elim (Bool-cases (msg.what == Evt.sm_transition)) [
      | inl move ↦
          let (id, at_id, known) = named msg move (ground (arith, v)) in
          let (fsm', done, _, _) = transition_to_returns id taken s in
          rw (sm_process_message_move my_state_table msg fsm id move at_id ∙ done)
            (returns (ground (arith, known)))
      | inr other ↦
          let (fsm', done, _, _) = process_msg_returns msg taken s (ground (arith, v)) fit in
          rw (sm_process_message_msg my_state_table msg fsm other ∙ done) (returns refl)
    ]

-- Firing on a good machine.
fired-IsGood :
    (p q : List Msg) (msg : Msg) (fsm : Fsm)
    → fsm.handler.msg_queue ≡ p ++ (msg ∷ q)
    → IsGood fsm
    → overflows msg fsm ≡ false
    → (fsm' : Fsm) × (sm_process_message my_state_table msg fsm ≡ some (true, fsm')) × IsGood fsm'
fired-IsGood p q msg fsm e g fit =
    let valid : is_valid msg ≡ true = all_valid_middle p msg q (rw e at g.ready.queued) in
    let (handled, fsm', done, sound, known) =
      sm_process_message_returns p q msg fsm e g.sound g.known (ground (arith, valid))
        (names-carries msg (ground (arith, valid))) fit in
    let yes_handled : handled ≡ true = of_ensures (
      rw done at (
        processed_handled msg fsm valid fit
          (remove_from_list-IsSound fsm.handler p msg q e g.sound))) in
    (
      fsm',
      done ∙ ap (λ b. some (b, fsm')) yes_handled,
      record {
        sound = sound;
        ready =
            IsReadyFrom-IsReady (Defs.remove_from_list msg.id fsm.handler) fsm'
              (of_ensures (rw done at (processed-IsReady msg fsm g.ready)));
        known = known;
      },
    )

-- Firing that has returned.
returned-IsGood :
    (p q : List Msg) (msg : Msg) (fsm fsm' : Fsm) (handled : Bool)
    → fsm.handler.msg_queue ≡ p ++ (msg ∷ q)
    → sm_process_message my_state_table msg fsm ≡ some (handled, fsm')
    → IsGood fsm
    → IsGood fsm'
returned-IsGood p q msg fsm fsm' handled e done good = elim (Bool-cases (overflows msg fsm)) [
  | inl over ↦ absurd (faults (sm_process_message-overflows msg fsm over) done)
  | inr fit ↦
      let (end, done', good') = fired-IsGood p q msg fsm e good fit in
      let same : end ≡ fsm' = cc (sym done' ∙ done) in rw same at good'
]
  where
    faults : {m : Option (Bool × Fsm)} {r : Bool × Fsm} → m ≡ none → m ≡ some r → ⊥
    faults n d = ground (arith, sym n ∙ d)

pub Reachable-IsGood : (fsm : Fsm) → Reachable fsm → IsGood fsm
Reachable-IsGood _ (started l old fsm handled h e) = started-IsGood l old fsm handled h e
Reachable-IsGood _ (posted what payload fsm s r) =
    posted-IsGood what payload fsm s (Reachable-IsGood fsm r)
Reachable-IsGood _ (looped l fsm r) = looped-IsGood l fsm (Reachable-IsGood fsm r)
Reachable-IsGood fsm' (fired p q msg fsm _ handled e done r) =
    returned-IsGood p q msg fsm fsm' handled e done (Reachable-IsGood fsm r)

-- Where the number fits, the processing returns.
pub handled_reachable :
    (p q : List Msg) (msg : Msg) (fsm : Fsm)
    → Reachable fsm
    → fsm.handler.msg_queue ≡ p ++ (msg ∷ q)
    → overflows msg fsm ≡ false
    → (fsm' : Fsm) × (sm_process_message my_state_table msg fsm ≡ some (true, fsm'))
      × Reachable fsm'
handled_reachable p q msg fsm r e fit =
    let (fsm', done, good) = fired-IsGood p q msg fsm e (Reachable-IsGood fsm r) fit in
    (fsm', done, fired p q msg fsm fsm' true e done r)
