-- ===== src/Phone/Keeps.antt =====
-- What the functions of a state do to any machine: they return, with a sound handler and the same
-- current state.
use upil.Common.{
  ℕ, ◌+◌, ◌≡◌, refl, ap, ◌∙◌, inl, inr, Bool, true, false, not, ◌&&◌, Option, none, some, [], ◌∷◌,
  Bool-cases, Option-cases, arith, ltb, leb, ◌==◌, if◌then◌else◌, length,
}
use upil.Common.Memory.{Bytes, ◌>>=◌}
use upil.Codes.Ctl
use upil.Codes.Evt
use upil.Codes.SmState
use upil.Handler.Defs.{Msg}
use upil.Handler.Queue.{IsSound, sm_send_message_delay-IsSound}
use upil.Handler.Others.{remove_message_id-others}
use upil.Tpp.Send.{tpp_send_cmd}
use upil.StateMachine.Defs.{
  Effect, command, Fsm, Action, ◌>>◌, send, sm_remove_message_id, int_bytes,
}
use upil.Phone.Defs.{
  emit, data_of, send_cmd, skip, text_of, sprintf_num, set_incoming, set_outgoing, default_process,
  process_online, dial_delay,
}
use upil.Phone.Waiting.{forget_incoming, ring_again}
use upil.Phone.Calling.{dial_later}

-- The text that comes with the message fits the buffers it is copied to, and a number comes with
-- a caller's identification.
unfoldable pub fits : Msg → Bool
fits msg = elim msg.payload [
  | none ↦ if msg.what == Evt.call_id then false else true
  | some bs ↦ ltb (length (text_of bs)) 128
]

-- The call returns, with a sound handler and the same current state.
abbrev pub Kept : Fsm → Option Fsm → Type 0
Kept fsm m =
    (fsm' : Fsm) × (m ≡ some fsm') × IsSound fsm'.handler × (fsm'.cur_state ≡ fsm.cur_state)

-- Run on a machine with a sound handler that is in a state, the action returns, with a sound
-- handler, in that state.
pub record Keeps (a : Action) : Type 0 where
  pub kept : (fsm : Fsm) (id : ℕ) → fsm.cur_state ≡ some id → IsSound fsm.handler → Kept fsm (a fsm)

pub Keeps-then : {a b : Action} → Keeps a → Keeps b → Keeps (a >> b)
Keeps-then {a} {b} p q = record {
  kept = λ fsm id here s.
      let (mid, e, sound, same) = p.kept fsm id here s in
      let (end, f, sound', same') = q.kept mid id (same ∙ here) sound in
      (end, ap (λ m. m >>= b) e ∙ f, sound', same' ∙ same);
}

pub Keeps-if : (t : Bool) {a b : Action} → Keeps a → Keeps b → Keeps (if t then a else b)
Keeps-if true p q = p
Keeps-if false p q = q

Kept-if :
    (fsm : Fsm) (t : Bool) {m n : Option Fsm}
    → Kept fsm m
    → Kept fsm n
    → Kept fsm (if t then m else n)
Kept-if fsm true p q = p
Kept-if fsm false p q = q

pub Keeps-emit : (e : Effect) → Keeps (emit e)
unfolding emit
Keeps-emit e = record { kept = λ fsm id here s. (_, refl, s, refl) }

-- Sending the message's data to the device stays inside the buffers.
unfoldable pub is_sent : Msg → Bool
is_sent msg = elim (tpp_send_cmd (λ i. true) [] msg.what (data_of msg.payload)) [
  | none ↦ false
  | some sent ↦ true
]

-- The message is a number to dial that `tpp_send_cmd` cannot send inside its buffers, and comes in the
-- state that sends it.
unfoldable pub overflows_in : ℕ → Msg → Bool
overflows_in id msg = id == SmState.dialing && (msg.what == Ctl.ask_dtmf_tx && not (is_sent msg))

unfoldable pub overflows : Msg → Fsm → Bool
overflows msg fsm = elim fsm.cur_state [ none ↦ false | some id ↦ overflows_in id msg ]

pub Keeps-send_cmd : (msg : Msg) → is_sent msg ≡ true → Keeps (send_cmd msg)
unfolding send_cmd is_sent
Keeps-send_cmd msg ok = record {
  kept = λ fsm id here s.
      elim (Option-cases (tpp_send_cmd (λ i. true) [] msg.what (data_of msg.payload))) [
        | inl e ↦ absurd (ground (arith, e, ok))
        | inr (sent, e) ↦ rw e ((Keeps-emit (command msg.what msg.payload)).kept fsm id here s)
      ];
}

pub send_cmd_faults : (msg : Msg) (fsm : Fsm) → is_sent msg ≡ false → send_cmd msg fsm ≡ none
unfolding send_cmd is_sent
send_cmd_faults msg fsm not_sent =
    elim (Option-cases (tpp_send_cmd (λ i. true) [] msg.what (data_of msg.payload))) [
      | inl e ↦ rw e refl
      | inr (sent, e) ↦ absurd (ground (arith, e, not_sent))
    ]

pub Keeps-skip : Keeps skip
Keeps-skip = record { kept = λ fsm id here s. (fsm, refl, s, refl) }

pub Keeps-send : (what : ℕ) (data_in : Option Bytes) (msec : ℕ) → Keeps (send what data_in msec)
unfolding send
Keeps-send what data_in msec = record {
  kept = λ fsm id here s.
      (_, refl, sm_send_message_delay-IsSound fsm.handler what data_in msec s, refl);
}

pub Keeps-remove : (what : ℕ) → Keeps (sm_remove_message_id what)
unfolding sm_remove_message_id
Keeps-remove what = record {
  kept = λ fsm id here s. (_, refl, (remove_message_id-others what fsm.handler s).1, refl);
}

pub ruleset steps = (Keeps-then, Keeps-emit, Keeps-skip, Keeps-send, Keeps-remove)

sprintf_num-fits :
    (msg : Msg) (bs : Bytes)
    → msg.payload ≡ some bs
    → fits msg ≡ true
    → sprintf_num msg.payload ≡ some (text_of bs)
unfolding sprintf_num fits
sprintf_num-fits msg bs e f =
    let fit : ltb (length (text_of bs)) 128 ≡ true = rw e at f in rw (e, fit) refl

-- Under the test that the message identifies a caller.
pub Keeps-incoming :
    (msg : Msg) → fits msg ≡ true → msg.what == Evt.call_id ≡ true → Keeps (set_incoming msg)
unfolding set_incoming fits
Keeps-incoming msg f call = record {
  kept = λ fsm id here s. elim (Option-cases msg.payload) [
    | inl e ↦ absurd (ground (arith, e, f, call))
    | inr (bs, e) ↦ (
      record fsm { last_incoming_num = text_of bs },
      ap (λ m. m >>= λ num. some (record fsm { last_incoming_num = num }))
          (sprintf_num-fits msg bs e f),
      s,
      refl,
    )
  ];
}

pub Keeps-if_call :
    (t : Bool) {a b : Action} → (t ≡ true → Keeps a) → Keeps b → Keeps (if t then a else b)
Keeps-if_call true p q = p refl
Keeps-if_call false p q = q

pub Keeps-outgoing : (msg : Msg) → fits msg ≡ true → Keeps (set_outgoing msg)
unfolding set_outgoing sprintf_num
Keeps-outgoing msg f = record {
  kept = λ fsm id here s. elim (Option-cases msg.payload) [
    | inl e ↦ rw e (record fsm { last_outgoing_num = [] }, refl, s, refl)
    | inr (bs, e) ↦ rw e (
      record fsm { last_outgoing_num = text_of bs },
      ap (λ m. m >>= λ num. some (record fsm { last_outgoing_num = num }))
          (rw e at (sprintf_num-fits msg bs e f)),
      s,
      refl,
    )
  ];
}

pub Keeps-forget : Keeps forget_incoming
unfolding forget_incoming
Keeps-forget = record { kept = λ fsm id here s. (_, refl, s, refl) }

pub Keeps-ring : Keeps ring_again
unfolding ring_again send
Keeps-ring = record {
  kept = λ fsm id here s. elim (Bool-cases (leb 2 (fsm.ring_count + 1))) [
    | inl again ↦ rw again (
        (Keeps-send Evt.sm_transition (some (int_bytes SmState.incoming)) 0).kept
          (record fsm { ring_count = fsm.ring_count + 1 }) id here s)
    | inr first ↦ rw first ((_, refl, s, refl))
  ];
}

Keeps-online : (msg : Msg) → Keeps (process_online msg)
unfolding process_online
Keeps-online msg = search (Keeps-if, steps) depth 12

default_process_in :
    (msg : Msg) (fsm : Fsm) (id : ℕ)
    → fsm.cur_state ≡ some id
    → default_process msg fsm ≡ (if id == SmState.offline then some fsm else process_online msg fsm)
unfolding default_process
default_process_in msg fsm id here =
    ap
      (λ o. (o >>= λ cur. some (cur == SmState.offline)) >>= λ offline.
        if offline then some fsm else process_online msg fsm)
      here

pub Keeps-default : (msg : Msg) → Keeps (default_process msg)
Keeps-default msg = record {
  kept = λ fsm id here s.
      let (end, e, sound, same) =
        Kept-if fsm (id == SmState.offline) (fsm, refl, s, refl)
          ((Keeps-online msg).kept fsm id here s) in
      (end, default_process_in msg fsm id here ∙ e, sound, same);
}

dial_later-Kept :
    (num : Bytes) (fsm : Fsm) (id : ℕ)
    → fsm.cur_state ≡ some id
    → IsSound fsm.handler
    → Kept fsm
        (elim num [ [] ↦ some fsm | d ∷ ds ↦ send Ctl.ask_dtmf_tx (some (d ∷ ds)) dial_delay fsm ])
dial_later-Kept [] fsm id here s = (_, refl, s, refl)
dial_later-Kept (d ∷ ds) fsm id here s =
    (Keeps-send Ctl.ask_dtmf_tx (some (d ∷ ds)) dial_delay).kept fsm id here s

pub Keeps-dial_later : Keeps dial_later
unfolding dial_later
Keeps-dial_later = record {
  kept = λ fsm id here s. dial_later-Kept fsm.last_outgoing_num fsm id here s;
}
