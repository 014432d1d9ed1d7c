-- ===== src/Phone/Readies.antt =====
-- upil_sm.c: the functions of a state queue valid messages only.
use upil.Common.{
  ℕ, ◌+◌, ◌≤◌, ◌<◌, ◌≡◌, refl, inl, inr, Bool, true, false, ◌||◌, Option, none, some, [], ◌∷◌,
  Bool-cases, arith, ltb, leb, ◌==◌, if◌then◌else◌, length,
}
use upil.Common.Memory.{Bytes, ◌>>=◌}
use upil.Common.Ensures.{Ensures, fault, returns, Ensures-bind}
use upil.Codes.Ctl
use upil.Codes.Evt
use upil.Codes.SmState
use upil.Tpp.Send.{tpp_send_cmd}
use upil.Handler.Defs.{Msg, Handler, stored}
use upil.StateMachine.Defs.{
  Effect, command, Fsm, Action, ◌>>◌, send, sm_transition_to, sm_remove_message_id, int_bytes,
  int_of,
}
use upil.Phone.Defs.{
  emit, data_of, send_cmd, skip, text_of, sprintf_num, set_incoming, set_outgoing, default_process,
  process_online, dial_delay,
}
use upil.Phone.Waiting.{forget_incoming, ring_again}
use upil.Phone.Calling.{dial_later}
use upil.Phone.Keeps.{fits}
use upil.Handler.Tracked.{sent-IsTracked}
use upil.Handler.Linked.{remove_message_id-IsTracked}
use upil.Phone.Ready.{IsReadyFrom, is_sendable, names_state, sent_valid, remove_message_id_valid}

-- Run on a ready machine, the action leaves a ready one, if it returns.
pub record Readies (a : Action) : Type 0 where
  pub ready : (h0 : Handler) (fsm : Fsm) → IsReadyFrom h0 fsm → Ensures (IsReadyFrom h0) (a fsm)

pub Readies-then : {a b : Action} → Readies a → Readies b → Readies (a >> b)
Readies-then {a} {b} p q = record { ready = λ h0 fsm r. then_ready h0 (a fsm) (p.ready h0 fsm r) }
  where
    then_ready :
        (h0 : Handler) (m : Option Fsm)
        → Ensures (IsReadyFrom h0) m
        → Ensures (IsReadyFrom h0) (m >>= b)
    then_ready h0 none e = fault
    then_ready h0 (some mid) (returns r) = q.ready h0 mid r

pub Readies-if : (t : Bool) {a b : Action} → Readies a → Readies b → Readies (if t then a else b)
Readies-if true p q = p
Readies-if false p q = q

Ensures-if :
    {h0 : Handler} (t : Bool) {m n : Option Fsm}
    → Ensures (IsReadyFrom h0) m
    → Ensures (IsReadyFrom h0) n
    → Ensures (IsReadyFrom h0) (if t then m else n)
Ensures-if true p q = p
Ensures-if false p q = q

pub Readies-emit : (e : Effect) → Readies (emit e)
unfolding emit
Readies-emit e = record {
  ready = λ h0 fsm r. returns (record { queued = r.queued; short = r.short; tracks = r.tracks });
}

pub Readies-send_cmd : (msg : Msg) → Readies (send_cmd msg)
unfolding send_cmd
Readies-send_cmd msg = record {
  ready = λ h0 fsm r.
      Ensures-bind (tpp_send_cmd (λ i. true) [] msg.what (data_of msg.payload)) _
        (λ sent e. (Readies-emit (command msg.what msg.payload)).ready h0 fsm r);
}

pub Readies-skip : Readies skip
Readies-skip = record { ready = λ h0 fsm r. returns r }

pub Readies-send :
    (what : ℕ) (data_in : Option Bytes) (msec : ℕ)
    → is_sendable what data_in ≡ true
    → Readies (send what data_in msec)
unfolding send
Readies-send what data_in msec s = record {
  ready = λ h0 fsm r. returns (record {
    queued = sent_valid what data_in msec fsm.handler s r.queued;
    short = r.short;
    tracks = λ t. sent-IsTracked what data_in msec fsm.handler (r.tracks t);
  });
}

-- Neither a caller's identification nor a transition: such a message needs no data.
unfoldable pub is_bare : ℕ → Bool
is_bare what = if what == Evt.call_id || what == Evt.sm_transition then false else true

bare_sendable : (what : ℕ) → is_bare what ≡ true → is_sendable what none ≡ true
unfolding is_bare is_sendable fits names_state stored
bare_sendable what b = ground (arith, b)

pub Readies-bare : (what msec : ℕ) → is_bare what ≡ true → Readies (send what none msec)
Readies-bare what msec b = Readies-send what none msec (bare_sendable what b)

pub text_of-length : (bs : Bytes) → length (text_of bs) ≤ length bs
unfolding text_of
text_of-length [] = omega arith
text_of-length (b ∷ bs) = ground (arith, text_of-length bs)

transition_sendable :
    (id : ℕ) → ltb id 7 ≡ true → is_sendable Evt.sm_transition (some (int_bytes id)) ≡ true
unfolding is_sendable fits names_state stored int_bytes int_of
transition_sendable id h = ground (arith, h, text_of-length (int_bytes id))

pub Readies-transition : (id : ℕ) → ltb id 7 ≡ true → Readies (sm_transition_to id)
Readies-transition id h = Readies-send _ _ 0 (transition_sendable id h)

pub Readies-remove : (what : ℕ) → Readies (sm_remove_message_id what)
unfolding sm_remove_message_id
Readies-remove what = record {
  ready = λ h0 fsm r. returns (record {
    queued = remove_message_id_valid what fsm.handler r.queued;
    short = r.short;
    tracks = λ t. remove_message_id-IsTracked what fsm.handler (r.tracks t);
  });
}

pub Readies-forget : Readies forget_incoming
unfolding forget_incoming
Readies-forget = record {
  ready = λ h0 fsm r. returns (record { queued = r.queued; short = r.short; tracks = r.tracks });
}

pub Readies-incoming : (msg : Msg) → Readies (set_incoming msg)
unfolding set_incoming
Readies-incoming msg = record {
  ready = λ h0 fsm r.
      Ensures-bind (sprintf_num msg.payload) _
        (λ num e. returns (record { queued = r.queued; short = r.short; tracks = r.tracks }));
}

sprintf_num_short : (o : Option Bytes) (num : Bytes) → sprintf_num o ≡ some num → length num < 128
unfolding sprintf_num
sprintf_num_short none num e = absurd (ground (arith, e))
sprintf_num_short (some bs) num e = elim (Bool-cases (ltb (length (text_of bs)) 128)) [
  | inl fit ↦
      let same : ◌≡◌ {A = Option Bytes} (some (text_of bs)) (some num) = rw fit at e in
      let here : text_of bs ≡ num = cc same in rw (← here) (ground (arith, fit))
  | inr long ↦ absurd (ground (arith, e, long))
]

set_outgoing-IsReady :
    (h0 : Handler) (o : Option Bytes) (fsm : Fsm)
    → IsReadyFrom h0 fsm
    → Ensures (IsReadyFrom h0) (elim o [
      | none ↦ some (record fsm { last_outgoing_num = [] })
      | some bs ↦ sprintf_num (some bs) >>= λ num. some (record fsm { last_outgoing_num = num })
    ])
set_outgoing-IsReady h0 none fsm r =
    returns (record { queued = r.queued; short = omega arith; tracks = r.tracks })
set_outgoing-IsReady h0 (some bs) fsm r = Ensures-bind (sprintf_num (some bs)) _ (λ num e.
    returns
      (record { queued = r.queued; short = sprintf_num_short (some bs) num e; tracks = r.tracks }))

pub Readies-outgoing : (msg : Msg) → Readies (set_outgoing msg)
unfolding set_outgoing
Readies-outgoing msg = record { ready = λ h0 fsm r. set_outgoing-IsReady h0 msg.payload fsm r }

pub Readies-ring : Readies ring_again
unfolding ring_again
Readies-ring = record {
  ready = λ h0 fsm r.
      let rung : Fsm = record fsm { ring_count = fsm.ring_count + 1 } in
      let r' : IsReadyFrom h0 rung = record {
        queued = r.queued;
        short = r.short;
        tracks = r.tracks;
      } in
      Ensures-if (leb 2 rung.ring_count)
        ((Readies-transition SmState.incoming refl).ready h0 rung r') (returns r');
}

number_sendable :
    (d : ℕ) (ds : Bytes)
    → length (d ∷ ds) < 128
    → is_sendable Ctl.ask_dtmf_tx (some (d ∷ ds)) ≡ true
unfolding is_sendable fits names_state stored
number_sendable d ds h = ground (arith, text_of-length (d ∷ ds))

dial_later-IsReady :
    (h0 : Handler) (num : Bytes) (fsm : Fsm)
    → length num < 128
    → IsReadyFrom h0 fsm
    → Ensures
        (IsReadyFrom h0)
        (elim num [ [] ↦ some fsm | d ∷ ds ↦ send Ctl.ask_dtmf_tx (some (d ∷ ds)) dial_delay fsm ])
dial_later-IsReady h0 [] fsm h r = returns r
dial_later-IsReady h0 (d ∷ ds) fsm h r =
    (Readies-send Ctl.ask_dtmf_tx (some (d ∷ ds)) dial_delay (number_sendable d ds h)).ready h0 fsm
      r

pub Readies-dial_later : Readies dial_later
unfolding dial_later
Readies-dial_later = record {
  ready = λ h0 fsm r. dial_later-IsReady h0 fsm.last_outgoing_num fsm r.short r;
}

pub ruleset moves = (
  Readies-then, Readies-if, Readies-emit, Readies-send_cmd, Readies-skip, Readies-bare,
  Readies-transition, Readies-remove,
)

Readies-online : (msg : Msg) → Readies (process_online msg)
unfolding process_online is_bare
Readies-online msg = search (moves) depth 12

pub Readies-default : (msg : Msg) → Readies (default_process msg)
unfolding default_process
Readies-default msg = record {
  ready = λ h0 fsm r.
      Ensures-bind _ _
        (λ offline e. Ensures-if offline (returns r) ((Readies-online msg).ready h0 fsm r));
}
