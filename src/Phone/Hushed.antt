-- ===== src/Phone/Hushed.antt =====
-- upil_sm.c: what the functions of the states do last, of the effects of one kind.
use upil.Common.{
  ℕ, ◌+◌, ◌≡◌, refl, ap, ◌∙◌, Bool, true, false, not, ◌||◌, Option, none, some, List, [], ◌∷◌, ◌++◌,
  leb, if◌then◌else◌, arith,
}
use upil.Common.Memory.{Bytes, ◌>>=◌}
use upil.Common.Ensures.{Ensures, fault, returns, Ensures-bind}
use upil.Codes.Ctl
use upil.Tpp.Send.{tpp_send_cmd}
use upil.Handler.Defs.{Msg}
use upil.StateMachine.Defs.{Effect, command, Fsm, Action, ◌>>◌, send, sm_remove_message_id}
use upil.Phone.Defs.{
  emit, data_of, send_cmd, skip, is_offline, sprintf_num, set_incoming, set_outgoing,
  default_process, process_online, dial_delay,
}
use upil.Phone.Waiting.{forget_incoming, ring_again}
use upil.Phone.Calling.{dial_later}

module _ (kind : Effect → Bool) where
  -- The last effect of this kind.
  unfoldable pub last_of : List Effect → Option Effect
  last_of [] = none
  last_of (e ∷ es) =
      let own = if kind e then some e else none in
      elim (last_of es) [ none ↦ own | some later ↦ some later ]

  last_of-append :
      (es : List Effect) (e : Effect)
      → last_of (es ++ (e ∷ [])) ≡ (if kind e then some e else last_of es)
  unfolding last_of
  last_of-append [] e = refl
  last_of-append (x ∷ es) e =
      let own = if kind x then some x else none in
      ap (λ o. elim o [ none ↦ own | some later ↦ some later ]) (last_of-append es e)
      ∙ pulled (kind e) own (last_of es)
    where
      pulled :
          (t : Bool) (own o : Option Effect)
          → (elim (if t then some e else o) [ none ↦ own | some later ↦ some later ])
            ≡ (if t then some e else (elim o [ none ↦ own | some later ↦ some later ]))
      pulled true own o = refl
      pulled false own o = refl

  -- An effect that is not of the kind, where that is asked for.
  unfoldable pub is_allowed : Bool → Effect → Bool
  is_allowed strict e = not (kind e) || not strict

  -- The current state is kept; so is the last effect of the kind, if `strict`.
  pub record IsHushed (strict : Bool) (fsm fsm' : Fsm) : Type 0 where
    pub same_state : fsm'.cur_state ≡ fsm.cur_state
    pub same_last : strict ≡ true → last_of fsm'.effects ≡ last_of fsm.effects

  still :
      (s : Bool) (fsm fsm' : Fsm)
      → fsm'.cur_state ≡ fsm.cur_state
      → fsm'.effects ≡ fsm.effects
      → IsHushed s fsm fsm'
  still s fsm fsm' e f = record { same_state = e; same_last = λ strict. ap last_of f }

  pub record Hushes (strict : Bool) (a : Action) : Type 0 where
    pub hushed : (fsm : Fsm) → Ensures (IsHushed strict fsm) (a fsm)

  -- After the action the last effect of the kind is `e`.
  pub record IsLast (e : Effect) (fsm fsm' : Fsm) : Type 0 where
    pub same_state : fsm'.cur_state ≡ fsm.cur_state
    pub last : last_of fsm'.effects ≡ some e

  pub record Ends (e : Effect) (a : Action) : Type 0 where
    pub ends : (fsm : Fsm) → Ensures (IsLast e fsm) (a fsm)

  IsHushed-trans : {s : Bool} {a b c : Fsm} → IsHushed s a b → IsHushed s b c → IsHushed s a c
  IsHushed-trans p q = record {
    same_state = q.same_state ∙ p.same_state;
    same_last = λ e. q.same_last e ∙ p.same_last e;
  }

  then-IsHushed :
      (s : Bool) (fsm : Fsm) (m : Option Fsm) (b : Action)
      → Ensures (IsHushed s fsm) m
      → Hushes s b
      → Ensures (IsHushed s fsm) (m >>= b)
  then-IsHushed s fsm none b e q = fault
  then-IsHushed s fsm (some mid) b (returns p) q = onward (b mid) (q.hushed mid)
    where
      onward : (m : Option Fsm) → Ensures (IsHushed s mid) m → Ensures (IsHushed s fsm) m
      onward none e = fault
      onward (some end) (returns r) = returns (IsHushed-trans p r)

  pub Hushes-then : (s : Bool) {a b : Action} → Hushes s a → Hushes s b → Hushes s (a >> b)
  Hushes-then s {a} {b} p q = record {
    hushed = λ fsm. then-IsHushed s fsm (a fsm) b (p.hushed fsm) q;
  }

  pub Hushes-if :
      (s t : Bool) {a b : Action} → Hushes s a → Hushes s b → Hushes s (if t then a else b)
  Hushes-if s true p q = p
  Hushes-if s false p q = q

  pub Hushes-skip : (s : Bool) → Hushes s skip
  Hushes-skip s = record { hushed = λ fsm. returns (still s fsm _ refl refl) }

  pub Hushes-emit : (s : Bool) (e : Effect) → is_allowed s e ≡ true → Hushes s (emit e)
  unfolding emit is_allowed
  Hushes-emit s e ok = record {
    hushed = λ fsm. returns (record {
      same_state = refl;
      same_last = λ strict. last_of-append fsm.effects e ∙ quiet (kind e) s fsm.effects ok strict;
    });
  }
    where
      quiet :
          (t s : Bool) (es : List Effect)
          → (not t || not s) ≡ true
          → s ≡ true
          → (if t then some e else last_of es) ≡ last_of es
      quiet false s es h strict = refl
      quiet true true es h strict = absurd (ground (arith, h))
      quiet true false es h strict = absurd (ground (arith, strict))

  pub Hushes-send_cmd :
      (s : Bool) (msg : Msg)
      → is_allowed s (command msg.what msg.payload) ≡ true
      → Hushes s (send_cmd msg)
  unfolding send_cmd
  Hushes-send_cmd s msg ok = record {
    hushed = λ fsm.
        Ensures-bind (tpp_send_cmd (λ i. true) [] msg.what (data_of msg.payload)) _
          (λ sent e. (Hushes-emit s (command msg.what msg.payload) ok).hushed fsm);
  }

  pub Hushes-send :
      (s : Bool) (what : ℕ) (data_in : Option Bytes) (msec : ℕ) → Hushes s (send what data_in msec)
  unfolding send
  Hushes-send s what data_in msec = record { hushed = λ fsm. returns (still s fsm _ refl refl) }

  pub Hushes-remove : (s : Bool) (what : ℕ) → Hushes s (sm_remove_message_id what)
  unfolding sm_remove_message_id
  Hushes-remove s what = record { hushed = λ fsm. returns (still s fsm _ refl refl) }

  pub Hushes-forget : (s : Bool) → Hushes s forget_incoming
  unfolding forget_incoming
  Hushes-forget s = record { hushed = λ fsm. returns (still s fsm _ refl refl) }

  pub Hushes-incoming : (s : Bool) (msg : Msg) → Hushes s (set_incoming msg)
  unfolding set_incoming
  Hushes-incoming s msg = record {
    hushed = λ fsm.
        Ensures-bind (sprintf_num msg.payload) _ (λ num e. returns (still s fsm _ refl refl));
  }

  outgoing-IsHushed :
      (s : Bool) (o : Option Bytes) (fsm : Fsm)
      → Ensures (IsHushed s fsm) (elim o [
        | none ↦ some (record fsm { last_outgoing_num = [] })
        | some bs ↦ sprintf_num (some bs) >>= λ num. some (record fsm { last_outgoing_num = num })
      ])
  outgoing-IsHushed s none fsm = returns (still s fsm _ refl refl)
  outgoing-IsHushed s (some bs) fsm =
      Ensures-bind (sprintf_num (some bs)) _ (λ num e. returns (still s fsm _ refl refl))

  pub Hushes-outgoing : (s : Bool) (msg : Msg) → Hushes s (set_outgoing msg)
  unfolding set_outgoing
  Hushes-outgoing s msg = record { hushed = λ fsm. outgoing-IsHushed s msg.payload fsm }

  Ensures-if :
      {s : Bool} {fsm : Fsm} (t : Bool) {m n : Option Fsm}
      → Ensures (IsHushed s fsm) m
      → Ensures (IsHushed s fsm) n
      → Ensures (IsHushed s fsm) (if t then m else n)
  Ensures-if true p q = p
  Ensures-if false p q = q

  pub Hushes-ring : (s : Bool) → Hushes s ring_again
  unfolding ring_again send
  Hushes-ring s = record {
    hushed = λ fsm.
        Ensures-if (leb 2 (fsm.ring_count + 1)) (returns (still s fsm _ refl refl))
          (returns (still s fsm _ refl refl));
  }

  dial-IsHushed :
      (s : Bool) (num : Bytes) (fsm : Fsm)
      → Ensures (IsHushed s fsm) (elim num [
        | [] ↦ some fsm
        | d ∷ ds ↦ send Ctl.ask_dtmf_tx (some (d ∷ ds)) dial_delay fsm
      ])
  unfolding send
  dial-IsHushed s [] fsm = returns (still s fsm _ refl refl)
  dial-IsHushed s (d ∷ ds) fsm = returns (still s fsm _ refl refl)

  pub Hushes-dial : (s : Bool) → Hushes s dial_later
  unfolding dial_later
  Hushes-dial s = record { hushed = λ fsm. dial-IsHushed s fsm.last_outgoing_num fsm }

  pub Ends-emit : (e : Effect) → kind e ≡ true → Ends e (emit e)
  unfolding emit
  Ends-emit e is = record {
    ends = λ fsm.
        returns (record { same_state = refl; last = last_of-append fsm.effects e ∙ rw is refl });
  }

  pub Ends-then : {e : Effect} {a b : Action} → Ends e a → Hushes true b → Ends e (a >> b)
  Ends-then {e} {a} {b} p q = record { ends = λ fsm. first_ends fsm (a fsm) (p.ends fsm) }
    where
      after :
          (fsm mid : Fsm)
          → IsLast e fsm mid
          → (m : Option Fsm) → Ensures (IsHushed true mid) m
          → Ensures (IsLast e fsm) m
      after fsm mid l none f = fault
      after fsm mid l (some end) (returns h) =
          returns
            (record { same_state = h.same_state ∙ l.same_state; last = h.same_last refl ∙ l.last })

      first_ends :
          (fsm : Fsm) (m : Option Fsm) → Ensures (IsLast e fsm) m → Ensures (IsLast e fsm) (m >>= b)
      first_ends fsm none f = fault
      first_ends fsm (some mid) (returns l) = after fsm mid l (b mid) (q.hushed mid)

  pub then-Ends : {e : Effect} {a b : Action} → Hushes false a → Ends e b → Ends e (a >> b)
  then-Ends {e} {a} {b} p q = record { ends = λ fsm. hushed_first fsm (a fsm) (p.hushed fsm) }
    where
      after :
          (fsm mid : Fsm)
          → IsHushed false fsm mid
          → (m : Option Fsm) → Ensures (IsLast e mid) m
          → Ensures (IsLast e fsm) m
      after fsm mid h none f = fault
      after fsm mid h (some end) (returns l) =
          returns (record { same_state = l.same_state ∙ h.same_state; last = l.last })

      hushed_first :
          (fsm : Fsm) (m : Option Fsm)
          → Ensures (IsHushed false fsm) m
          → Ensures (IsLast e fsm) (m >>= b)
      hushed_first fsm none f = fault
      hushed_first fsm (some mid) (returns h) = after fsm mid h (b mid) (q.ends mid)

pub ruleset hushing = (
  Hushes-then, Hushes-if, Hushes-skip, Hushes-emit, Hushes-send_cmd, Hushes-send, Hushes-remove,
  Hushes-forget, Hushes-incoming, Hushes-outgoing, Hushes-ring, Hushes-dial,
)

-- The commands to the device are not of the kind.
abbrev pub IsNoCommand : (Effect → Bool) → Type 0
IsNoCommand kind = (req : ℕ) (payload : Option Bytes) → kind (command req payload) ≡ false

online-Hushes :
    (kind : Effect → Bool) (s : Bool) (msg : Msg)
    → IsNoCommand kind
    → Hushes kind s (process_online msg)
unfolding process_online
online-Hushes kind s msg other =
    let allowed : (req : ℕ) (payload : Option Bytes)
        → is_allowed kind s (command req payload) ≡ true =
      λ req payload. unfold is_allowed in rw (other req payload) refl in
    search (hushing, allowed) depth 12

pub Hushes-default :
    (kind : Effect → Bool) (s : Bool) (msg : Msg)
    → IsNoCommand kind
    → Hushes kind s (default_process msg)
unfolding default_process
Hushes-default kind s msg other = record {
  hushed = λ fsm.
      Ensures-bind (is_offline fsm)
        (λ offline. if offline then some fsm else process_online msg fsm)
        (λ offline e.
          Ensures-if kind offline (returns (still kind s fsm _ refl refl))
            ((online-Hushes kind s msg other).hushed fsm));
}
