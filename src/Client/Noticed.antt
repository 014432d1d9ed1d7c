-- ===== src/Client/Noticed.antt =====
-- upil_client.c with upil_monitor.c and upil_sm.c: what the terminal shows of the telephone.
use upil.Common.{
  ℕ, ◌+◌, ◌≡◌, refl, ap, ◌∙◌, sym, Bool, true, false, ◌&&◌, Option, none, some, List, [], ◌∷◌, ◌++◌,
  map, leb, if◌then◌else◌, arith, append_assoc, append-nil,
}
use upil.Common.Memory.{Bytes}
use upil.Common.Ensures.{of_ensures}
use upil.Codes.Notice
use upil.StateMachine.Defs.{
  Effect, command, notice, audio_start, audio_stop, audio_play_file, audio_record_file, Fsm,
}
use upil.Phone.Hushed.{last_of}
use upil.Phone.Lasting.{right_at}
use upil.Phone.Told.{is_state, is_own, Reachable-told_right}
use upil.Phone.Reached.{Reachable}
use upil.Control.Sent.{texts_sent, all_fit, IsClean, monitor_text-IsClean, monitor_text-IsFormed}
use upil.Control.Monitor.{monitor_text, cid_text, event_told, event_told-monitor_text}
use upil.Client.Connection.{Arrival, received, Client, upil_monitor_recv}
use upil.Client.Terminal.{read_loop}

-- Each text comes with a `recv` of its own.
abbrev pub arrivals : List Bytes → List Arrival
arrivals = map (λ t. received (some t))

abbrev own_code : ℕ → Option ℕ
own_code code = if leb Notice.offline code && leb code Notice.memo then some code else none

-- The last state among texts that were shown.
unfoldable pub state_shown : List Bytes → Option ℕ
state_shown [] = none
state_shown (t ∷ ts) = elim (state_shown ts) [
  | none ↦ own_code (event_told t)
  | some later ↦ some later
]

-- The state that an effect tells of.
abbrev pub code_of : Option Effect → Option ℕ
code_of o = elim o [ none ↦ none | some e ↦ elim e [ notice what payload ↦ some what | _ ↦ none ] ]

-- The texts of some effects: they are sent, the terminal shows them, and the last state that it shows
-- is the last that they tell of.
record IsRead (es : List Effect) : Type 0 where
  pub texts : List Bytes
  pub same : texts_sent es ≡ some texts
  pub read :
      (c : Client) (shown : List Bytes)
      → (c' : Client) × (read_loop (arrivals texts) c shown ≡ some (false, (shown ++ texts, c')))
  pub told : state_shown texts ≡ code_of (last_of is_state es)

-- A text that is not empty is received and shown.
read_on :
    (b : ℕ) (t : Bytes) (ts : List Bytes) (c : Client) (shown : List Bytes)
    → IsClean (b ∷ t)
    → ((c : Client) (shown : List Bytes)
        → (c' : Client) × (read_loop (arrivals ts) c shown ≡ some (false, (shown ++ ts, c'))))
    → (c' : Client) × (read_loop (arrivals ((b ∷ t) ∷ ts)) c shown
        ≡ some (false, (shown ++ ((b ∷ t) ∷ ts), c')))
unfolding read_loop upil_monitor_recv
read_on b t ts c shown clean rest =
    let (c', e) = rest (record c { fd_wakeup = some 0 }) (shown ++ ((b ∷ t) ∷ [])) in
    (
      c',
      ap (λ u. read_loop (arrivals ts) (record c { fd_wakeup = some 0 }) (shown ++ (u ∷ []))) clean
          ∙ (e ∙ ap (λ us. some (false, (us, c'))) (append_assoc shown ((b ∷ t) ∷ []) ts)),
    )

-- What is not sent tells of no state.
not_state :
    (what : ℕ) (payload : Option Bytes)
    → monitor_text what payload ≡ some []
    → is_state (notice what payload) ≡ false
unfolding monitor_text cid_text
not_state what none e = ground (arith, e)
not_state what (some bs) e = ground (arith, e)

quiet_last :
    (x : Effect) (b : Bool)
    → b ≡ false
    → (o : Option Effect)
    → code_of o ≡ code_of (elim o [ none ↦ if b then some x else none | some later ↦ some later ])
quiet_last x true h o = absurd (ground (arith, h))
quiet_last x false h none = refl
quiet_last x false h (some e) = refl

-- No effect of the kind, or one that is a notice.
data IsNotice : Option Effect → Type 0 where
  nothing : IsNotice none
  tells : (what : ℕ) (payload : Option Bytes) → IsNotice (some (notice what payload))

later_or :
    (own o : Option Effect)
    → IsNotice own
    → IsNotice o
    → IsNotice (elim o [ none ↦ own | some later ↦ some later ])
later_or own _ p nothing = p
later_or own _ p (tells what payload) = tells what payload

own-IsNotice : (e : Effect) → IsNotice (if is_state e then some e else none)
own-IsNotice (command req payload) = nothing
own-IsNotice (notice what payload) = own (leb Notice.offline what && leb what Notice.memo)
  where
    own : (b : Bool) → IsNotice (if b then some (notice what payload) else none)
    own true = tells what payload
    own false = nothing
own-IsNotice audio_start = nothing
own-IsNotice audio_stop = nothing
own-IsNotice audio_play_file = nothing
own-IsNotice audio_record_file = nothing

last_of-IsNotice : (es : List Effect) → IsNotice (last_of is_state es)
unfolding last_of
last_of-IsNotice [] = nothing
last_of-IsNotice (e ∷ es) =
    later_or (if is_state e then some e else none) (last_of is_state es) (own-IsNotice e)
      (last_of-IsNotice es)

told_last :
    (b : Bool) (what : ℕ) (payload : Option Bytes) (o : Option Effect)
    → IsNotice o
    → (elim (code_of o) [ none ↦ if b then some what else none | some later ↦ some later ])
      ≡ code_of (elim o [
        | none ↦ if b then some (notice what payload) else none
        | some later ↦ some later
      ])
told_last true what payload _ nothing = refl
told_last false what payload _ nothing = refl
told_last b what payload _ (tells w p) = refl

-- One more notice.
noticed :
    (what : ℕ) (payload : Option Bytes) (es : List Effect) (t : Bytes)
    → monitor_text what payload ≡ some t
    → IsRead es
    → IsRead (notice what payload ∷ es)
unfolding texts_sent state_shown last_of
noticed what payload es [] e r = record {
  texts = r.texts;
  same = rw (e, r.same) refl;
  read = r.read;
  told =
      r.told
      ∙ quiet_last (notice what payload) (is_state (notice what payload)) (not_state what payload e)
          (last_of is_state es);
}
noticed what payload es (b ∷ t) e r = record {
  texts = (b ∷ t) ∷ r.texts;
  same = rw (e, r.same) refl;
  read = λ c shown.
      read_on b t r.texts c shown (of_ensures (rw e at (monitor_text-IsClean what payload))) r.read;
  told =
      ap (λ code. elim (state_shown r.texts) [ none ↦ own_code code | some later ↦ some later ])
        (event_told-monitor_text what payload b t e)
      ∙ (ap (λ o. elim o [ none ↦ own_code what | some later ↦ some later ]) r.told
          ∙ told_last (leb Notice.offline what && leb what Notice.memo) what payload
              (last_of is_state es) (last_of-IsNotice es));
}

-- An effect that is no notice sends nothing.
IsRead-quiet :
    (e : Effect) (es : List Effect)
    → texts_sent (e ∷ es) ≡ texts_sent es
    → is_state e ≡ false
    → IsRead es
    → IsRead (e ∷ es)
unfolding last_of
IsRead-quiet e es sends quiet r = record {
  texts = r.texts;
  same = sends ∙ r.same;
  read = r.read;
  told = r.told ∙ quiet_last e (is_state e) quiet (last_of is_state es);
}

all-IsRead : (es : List Effect) → all_fit es ≡ true → IsRead es
unfolding texts_sent read_loop state_shown last_of
all-IsRead [] h = record {
  texts = [];
  same = refl;
  read = λ c shown. (c, ap (λ ts. some (false, (ts, c))) (sym (append-nil shown)));
  told = refl;
}
all-IsRead (notice what payload ∷ es) h =
    let f = monitor_text-IsFormed what payload (ground (arith, h)) in
    noticed what payload es f.text f.same (all-IsRead es (ground (arith, h)))
all-IsRead (command req payload ∷ es) h =
    IsRead-quiet _ es refl refl (all-IsRead es (ground (arith, h)))
all-IsRead (audio_start ∷ es) h = IsRead-quiet _ es refl refl (all-IsRead es (ground (arith, h)))
all-IsRead (audio_stop ∷ es) h = IsRead-quiet _ es refl refl (all-IsRead es (ground (arith, h)))
all-IsRead (audio_play_file ∷ es) h =
    IsRead-quiet _ es refl refl (all-IsRead es (ground (arith, h)))
all-IsRead (audio_record_file ∷ es) h =
    IsRead-quiet _ es refl refl (all-IsRead es (ground (arith, h)))

-- For every machine that a telephone comes to be, in a state and with numbers of callers that fit the
-- monitor's buffer: all that it has told of was sent, and a terminal that receives each text by itself
-- has shown exactly these texts, goes on, and the last state it has shown is the one of the telephone.
pub read_loop-current :
    (fsm : Fsm) (id : ℕ) (c : Client)
    → Reachable fsm
    → fsm.cur_state ≡ some id
    → all_fit fsm.effects ≡ true
    → (texts : List Bytes) × (c' : Client) × (texts_sent fsm.effects ≡ some texts)
      × (read_loop (arrivals texts) c [] ≡ some (false, (texts, c')))
      × (state_shown texts ≡ some (Notice.offline + id))
unfolding is_own
read_loop-current fsm id c reached here fit =
    let r = all-IsRead fsm.effects fit in
    let own : is_own id (last_of is_state fsm.effects) ≡ true =
      ap (λ s. right_at is_state is_own s (last_of is_state fsm.effects)) (sym here)
      ∙ Reachable-told_right fsm reached in
    let (c', read) = r.read c [] in
    (r.texts, c', r.same, read, r.told ∙ own_code_of (last_of is_state fsm.effects) own)
  where
    own_code_of : (o : Option Effect) → is_own id o ≡ true → code_of o ≡ some (Notice.offline + id)
    own_code_of none h = absurd (ground (arith, h))
    own_code_of (some (notice what payload)) h =
        let same : what ≡ Notice.offline + id = ground (arith, h) in ap some same
    own_code_of (some (command req payload)) h = absurd (ground (arith, h))
    own_code_of (some audio_start) h = absurd (ground (arith, h))
    own_code_of (some audio_stop) h = absurd (ground (arith, h))
    own_code_of (some audio_play_file) h = absurd (ground (arith, h))
    own_code_of (some audio_record_file) h = absurd (ground (arith, h))
