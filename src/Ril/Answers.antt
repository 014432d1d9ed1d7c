-- ===== src/Ril/Answers.antt =====
-- upil_ril.c: every AT command gets one final result, at once or with a later notice.
use upil.Common.{
  ℕ, suc, ◌+◌, ◌≡◌, refl, ap, ◌∙◌, inl, inr, Bool, true, false, ◌||◌, Option, none, some, List, [],
  ◌∷◌, ◌++◌, ltb, if◌then◌else◌, arith, Bool-cases,
}
use upil.Common.Memory.{Bytes, same_text}
use upil.Codes.SmState
use upil.StateMachine.Defs.{Fsm}
use upil.Phone.Table.{upil_sm_get_current_state}
use upil.Ril.Defs.{
  Ril, AtResult, ok, error, later, write_reply, ok_text, error_text, process_reply, executed,
  deferred, result_of, checked, current_calls, clcc_text, is_blank, process_command_buffer,
  upil_ril_unsolicited, ring_text, no_carrier_text, waited,
}

-- The two final results of a command.
unfoldable pub is_final : Bytes → Bool
unfolding same_text
is_final text = same_text text ok_text || same_text text error_text

-- How many final results are among the texts.
unfoldable pub finals : List Bytes → ℕ
unfolding is_final
finals [] = 0
finals (text ∷ texts) = let rest = finals texts in if is_final text then suc rest else rest

-- How many commands wait for theirs.
abbrev pub waiting : Ril → ℕ
waiting r = if r.wait_response then 1 else 0

-- What an AT session comes to be, with the number of commands it was given: a command comes only
-- when none waits, notices come at any time, and the machine moves on.
pub data Session (asprintf_d : ℕ → Bytes) : ℕ → Ril → Type 0 where
  opened : (r : Ril) → r.written ≡ [] → r.wait_response ≡ false → Session asprintf_d 0 r
  commanded :
      (n : ℕ) (buffer : Bytes) (r : Ril)
      → r.wait_response ≡ false
      → is_blank buffer ≡ false
      → Session asprintf_d n r
      → Session asprintf_d (suc n) (process_command_buffer asprintf_d buffer r)
  noticed :
      (n msg : ℕ) (r : Ril)
      → Session asprintf_d n r
      → Session asprintf_d n (upil_ril_unsolicited msg r)
  moved :
      (n : ℕ) (fsm : Fsm) (r : Ril)
      → Session asprintf_d n r
      → Session asprintf_d n (record r { fsm = fsm })

finals-append :
    (texts : List Bytes) (text : Bytes)
    → finals (texts ++ (text ∷ [])) ≡ finals texts + finals (text ∷ [])
unfolding finals
finals-append [] text = omega arith
finals-append (t ∷ texts) text = ground (arith, finals-append texts text)

-- A reply that is no final result.
abbrev IsReply : Option Bytes → Type 0
IsReply none = Unit
IsReply (some text) = is_final text ≡ false

-- Whether the result of a command waits.
abbrev is_later : AtResult → Bool
is_later ok = false
is_later error = false
is_later later = true

-- What a command comes to: nothing is written yet, and the command waits exactly if its result comes
-- later.
record IsExecuted (r : Ril) (x : Option Bytes × (AtResult × Ril)) : Type 0 where
  pub reply : IsReply x.0
  pub unwritten : x.1.1.written ≡ r.written
  pub waits : x.1.1.wait_response ≡ (r.wait_response || is_later x.1.0)

IsExecuted-if :
    {r : Ril} (t : Bool) {x y : Option Bytes × (AtResult × Ril)}
    → IsExecuted r x
    → IsExecuted r y
    → IsExecuted r (if t then x else y)
IsExecuted-if true p q = p
IsExecuted-if false p q = q

IsExecuted-deferred : (r : Ril) (sent : Bool × Fsm) → IsExecuted r (none, deferred sent r)
IsExecuted-deferred r (true, fsm) = record { reply = tt; unwritten = refl; waits = ground arith }
IsExecuted-deferred r (false, fsm) = record { reply = tt; unwritten = refl; waits = ground arith }

IsExecuted-answered :
    (r : Ril) (sent : Bool × Fsm)
    → IsExecuted r (none, (result_of sent.0, record r { fsm = sent.1 }))
IsExecuted-answered r (true, fsm) = record { reply = tt; unwritten = refl; waits = ground arith }
IsExecuted-answered r (false, fsm) = record { reply = tt; unwritten = refl; waits = ground arith }

at_once : (buffer : Bytes) (fsm : Fsm) → is_later (checked buffer fsm) ≡ false
unfolding checked
at_once buffer fsm = ground arith

IsExecuted-calls :
    (asprintf_d : ℕ → Bytes) (buffer : Bytes) (r : Ril)
    → let listed = current_calls asprintf_d r in
      IsExecuted r (listed.0, (checked buffer r.fsm, listed.1))
unfolding current_calls clcc_text is_final same_text
IsExecuted-calls asprintf_d buffer r =
    elim (Bool-cases (ltb SmState.idle (upil_sm_get_current_state r.fsm))) [
      | inl call ↦
          rw call (record {
            reply = refl;
            unwritten = refl;
            waits = ground (arith, at_once buffer r.fsm);
          })
      | inr no_call ↦
          rw no_call
            (record { reply = tt; unwritten = refl; waits = ground (arith, at_once buffer r.fsm) })
    ]

IsExecuted-checked : (buffer : Bytes) (r : Ril) → IsExecuted r (none, (checked buffer r.fsm, r))
IsExecuted-checked buffer r = record {
  reply = tt;
  unwritten = refl;
  waits = ground (arith, at_once buffer r.fsm);
}

executed-IsExecuted :
    (asprintf_d : ℕ → Bytes) (buffer : Bytes) (r : Ril)
    → IsExecuted r (executed asprintf_d buffer r)
unfolding executed
executed-IsExecuted asprintf_d buffer r =
    search
      (
        IsExecuted-if, IsExecuted-deferred, IsExecuted-answered, IsExecuted-calls,
        IsExecuted-checked,
      )
      depth 12

-- The final results and the commands that wait.
abbrev pub settled : Ril → ℕ
settled r = finals r.written + waiting r

one_more :
    (texts : List Bytes) (text : Bytes)
    → is_final text ≡ true
    → finals (texts ++ (text ∷ [])) ≡ finals texts + 1
one_more texts text f = finals-append texts text ∙ unfold finals in ground (arith, f)

no_more :
    (texts : List Bytes) (text : Bytes)
    → is_final text ≡ false
    → finals (texts ++ (text ∷ [])) ≡ finals texts
no_more texts text f = finals-append texts text ∙ unfold finals in ground (arith, f)

replied :
    (reply : Option Bytes) (r : Ril)
    → IsReply reply
    → finals (write_reply reply r).written ≡ finals r.written
replied none r h = refl
replied (some text) r h = no_more r.written text h

same_wait : (reply : Option Bytes) (r : Ril) → (write_reply reply r).wait_response ≡ r.wait_response
same_wait none r = refl
same_wait (some text) r = refl

process_reply-finals :
    (result : AtResult) (reply : Option Bytes) (r : Ril)
    → IsReply reply
    → (finals (process_reply result reply r).written
        ≡ finals r.written + (if is_later result then 0 else 1))
      × ((process_reply result reply r).wait_response ≡ r.wait_response)
unfolding process_reply
process_reply-finals ok reply r h = (
  one_more (write_reply reply r).written ok_text (unfold is_final same_text in refl)
      ∙ ap (λ n. n + 1) (replied reply r h),
  same_wait reply r,
)
process_reply-finals error reply r h = (
  one_more (write_reply reply r).written error_text (unfold is_final same_text in refl)
      ∙ ap (λ n. n + 1) (replied reply r h),
  same_wait reply r,
)
process_reply-finals later reply r h = (omega (arith, replied reply r h), same_wait reply r)

commanded_settled :
    (asprintf_d : ℕ → Bytes) (buffer : Bytes) (r : Ril)
    → r.wait_response ≡ false
    → is_blank buffer ≡ false
    → settled (process_command_buffer asprintf_d buffer r) ≡ settled r + 1
unfolding process_command_buffer
commanded_settled asprintf_d buffer r idle b =
    let x = executed asprintf_d buffer r in
    let e = executed-IsExecuted asprintf_d buffer r in
    let (answered, wait) = process_reply-finals x.1.0 x.0 x.1.1 e.reply in
    rw b (ground (arith, answered, wait, ap finals e.unwritten, e.waits, idle))

settled-waited : (r : Ril) → r.wait_response ≡ true → settled (waited r) ≡ settled r
settled-waited r w =
    let (answered, wait) = process_reply-finals ok none r tt in ground (arith, answered, w)

noticed_settled : (msg : ℕ) (r : Ril) → settled (upil_ril_unsolicited msg r) ≡ settled r
unfolding upil_ril_unsolicited
noticed_settled msg r = elim (Bool-cases r.wait_response) [
  | inl wait ↦ ground (
    arith,
    wait,
    settled-waited r wait,
    no_more r.written ring_text (unfold is_final same_text in refl),
  )
  | inr idle ↦ ground (
    arith,
    idle,
    no_more r.written ring_text (unfold is_final same_text in refl),
    no_more r.written no_carrier_text (unfold is_final same_text in refl),
  )
]

-- In every AT session, the final results that were written, and the command that waits for its own
-- if one does, are together as many as the commands that were given: none is left without a result
-- but the last, and none has two.
pub Session-settled :
    (asprintf_d : ℕ → Bytes) (n : ℕ) (r : Ril)
    → Session asprintf_d n r
    → finals r.written + waiting r ≡ n
Session-settled asprintf_d _ r (opened _ w idle) = unfold finals in rw (w, idle) refl
Session-settled asprintf_d _ _ (commanded n buffer r idle b s) =
    commanded_settled asprintf_d buffer r idle b ∙ omega (arith, Session-settled asprintf_d n r s)
Session-settled asprintf_d _ _ (noticed n msg r s) =
    noticed_settled msg r ∙ Session-settled asprintf_d n r s
Session-settled asprintf_d _ _ (moved n fsm r s) = Session-settled asprintf_d n r s
