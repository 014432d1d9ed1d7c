-- ===== src/Client/Typed.antt =====
-- upil_client.c with upil_ctrl.c and upil_command.c: what is typed at a terminal, and the telephone.
use upil.Common.{
  sym, ℕ, zero, suc, ◌-◌, ◌≤◌, ◌<◌, ◌≡◌, refl, ap, ◌∙◌, inl, inr, Bool, true, false, not, ◌&&◌,
  Option, none, some, List, [], ◌∷◌, ◌++◌, map, ltb, leb, if◌then◌else◌, length, take, drop, min,
  arith, Bool-cases, length-take, length-drop, append_assoc, append-nil,
}
use upil.Common.Memory.{Bytes, same_text}
use upil.StateMachine.Defs.{Fsm}
use upil.Phone.Defs.{text_of}
use upil.Phone.Readies.{text_of-length}
use upil.Phone.Reached.{Reachable}
use upil.Phone.Fed.{process_command-Reachable}
use upil.Control.Commands.{
  starts_with, process_command, process_reply, reply_success, reply_failure,
}
use upil.Client.Defs.{
  Answer, Result, no_answer, done, refused, strcpy, stored, decode, upil_ctrl_request,
}
use upil.Client.Served.{answer_of}
use upil.Client.Terminal.{
  Shown, help, exit_word, help_word, show_reply, command_loop, max_response_bytes,
}

-- The lines before the first that `p` holds of.
abbrev pub until {ℓ} : {A : Type ℓ} → (A → Bool) → List A → List A
until p [] = []
until p (x ∷ xs) = let rest = until p xs in if p x then [] else x ∷ rest

abbrev pub those {ℓ} : {A : Type ℓ} → (A → Bool) → List A → List A
those p [] = []
those p (x ∷ xs) = let rest = those p xs in if p x then x ∷ rest else rest

-- The commands that are typed: the texts before EXIT, but for HELP and the empty ones.
abbrev pub typed : List Bytes → List Bytes
typed lines =
    those (λ t. not (same_text t help_word) && not (same_text t []))
      (until (λ t. same_text t exit_word) (map text_of lines))

-- Lines that end before the number in them has 128 characters.
abbrev pub all_short : List Bytes → Bool
all_short [] = true
all_short (line ∷ lines) = ltb (length line) 132 && all_short lines

-- The other end with a record of the commands that it was given: the command socket's callback, and
-- whatever happens to the machine until the next command.
abbrev pub Desk : Type 0
Desk = Fsm × List Bytes

abbrev pub telephone : (ℕ → Bytes) → (Fsm → Fsm) → Desk → Bytes → Answer × Desk
telephone asprintf_d moved desk cmd =
    let r = process_command asprintf_d (cmd ++ (0 ∷ [])) desk.0 in
    (answer_of r.0, (moved r.1, desk.1 ++ (cmd ∷ [])))

-- What is received fits the buffer of 512 bytes.
abbrev received_fits : Option Bytes → Bool
received_fits none = true
received_fits (some text) = leb (length text) 511

record IsReceived (r : Option Bytes × Fsm) : Type 0 where
  pub short : received_fits r.0 ≡ true

IsReceived-if :
    (t : Bool) {a b : Option Bytes × Fsm}
    → IsReceived a
    → IsReceived b
    → IsReceived (if t then a else b)
IsReceived-if true p q = p
IsReceived-if false p q = q

cut_fits : (text : Bytes) → leb (length (take 511 text)) 511 ≡ true
cut_fits text = rw (length-take 511 text) (min_fits (length text))
  where
    min_fits : (n : ℕ) → leb (min 511 n) 511 ≡ true
    min_fits n = let le : min 511 n ≤ 511 = omega arith in ground (arith, le)

IsReceived-reply :
    (ok : Bool) (text : Bytes) (fsm : Fsm) → IsReceived (some (process_reply ok text), fsm)
unfolding process_reply
IsReceived-reply ok text fsm = record {
  short = cut_fits ((if ok then reply_success else reply_failure) ++ text);
}

IsReceived-none : (fsm : Fsm) → IsReceived (none, fsm)
IsReceived-none fsm = record { short = refl }

process_command-IsReceived :
    (asprintf_d : ℕ → Bytes) (buffer : Bytes) (fsm : Fsm)
    → IsReceived (process_command asprintf_d buffer fsm)
unfolding process_command
process_command-IsReceived asprintf_d buffer fsm =
    search (IsReceived-if, IsReceived-reply, IsReceived-none) depth 12

-- A buffer takes the text, and so there is a result.
record Returns (m : Option (Result × Bytes)) : Type 0 where
  pub answer : Result × Bytes
  pub same : m ≡ some answer

stored-Returns :
    (r : Result) (text : Bytes) → length text ≤ 511 → Returns (stored r text max_response_bytes)
unfolding stored strcpy
stored-Returns r text h = record { answer = (r, text); same = ground (arith, h) }

Returns-if :
    (t : Bool) {m n : Option (Result × Bytes)}
    → Returns m
    → Returns n
    → Returns (if t then m else n)
Returns-if true p q = p
Returns-if false p q = q

decode-Returns : (text : Bytes) → length text ≤ 511 → Returns (decode text max_response_bytes)
unfolding decode
decode-Returns text h =
    let rest : length (drop 9 text) ≤ 511 = omega (arith, h, length-drop 9 text) in
    let success = stored-Returns done (drop 9 text) rest in
    let failure = stored-Returns refused (drop 9 text) rest in
    let other = stored-Returns refused text h in
    Returns-if (starts_with reply_success text) success
      (Returns-if (starts_with reply_failure text) failure other)

-- A reply that was received fits the buffer of the terminal.
request-Returns :
    (answer : Option Bytes)
    → received_fits answer ≡ true
    → Returns (upil_ctrl_request (answer_of answer) max_response_bytes)
unfolding upil_ctrl_request
request-Returns none h = record { answer = (no_answer, []); same = refl }
request-Returns (some msg) h =
    let short : length msg ≤ 511 = ground (arith, h) in
    decode-Returns (text_of msg) (omega (arith, text_of-length msg, short))

-- The zero byte at the end is not in the text.
closed : (n : ℕ) (text : Bytes) → length (text_of (drop n (text ++ (0 ∷ [])))) ≤ length text - n
unfolding text_of
closed zero [] = omega arith
closed zero (c ∷ cs) = ground (arith, closed zero cs)
closed (suc zero) [] = omega arith
closed (suc (suc n)) [] = omega arith
closed (suc n) (c ∷ cs) = omega (arith, closed n cs)

-- A command leaves the telephone a machine that processes its messages.
command-Reachable :
    (asprintf_d : ℕ → Bytes) (line : Bytes) (fsm : Fsm)
    → ltb (length line) 132 ≡ true
    → Reachable fsm
    → Reachable (process_command asprintf_d (text_of line ++ (0 ∷ [])) fsm).1
command-Reachable asprintf_d line fsm h r =
    let cmd = text_of line ++ (0 ∷ []) in
    let before : length line < 132 = ground (arith, h) in
    let number : length (text_of (drop 4 cmd)) < 128 =
      omega (arith, before, text_of-length line, closed 4 (text_of line)) in
    process_command-Reachable asprintf_d cmd fsm number r

-- A line that is a command.
command_loop_asked :
    {S : Type 0} (exchange : S → Bytes → Answer × S) (line : Bytes) (lines : List Bytes) (s : S)
    (shown : List Shown) (r : Result) (text : Bytes)
    → ltb (length line) 512 ≡ true
    → same_text (text_of line) exit_word ≡ false
    → same_text (text_of line) help_word ≡ false
    → same_text (text_of line) [] ≡ false
    → upil_ctrl_request (exchange s (text_of line)).0 max_response_bytes ≡ some (r, text)
    → command_loop exchange (line ∷ lines) s shown
      ≡ command_loop exchange lines (exchange s (text_of line)).1 (show_reply text shown)
unfolding command_loop
command_loop_asked exchange line lines s shown r text within on no_help asks e =
    rw (within, on) (rw (no_help, asks) (rw e refl))

typed_asked :
    (line : Bytes) (lines : List Bytes)
    → same_text (text_of line) exit_word ≡ false
    → same_text (text_of line) help_word ≡ false
    → same_text (text_of line) [] ≡ false
    → typed (line ∷ lines) ≡ text_of line ∷ typed lines
typed_asked line lines on no_help asks = rw on (rw (no_help, asks) refl)

-- What is typed at a terminal whose lines are shorter than 132 characters: whatever happens to the
-- telephone between two commands, if it stays a machine that can come to be, the loop ends without a
-- write beyond a buffer, the telephone was given exactly the lines before EXIT that are neither HELP
-- nor empty, in their order, and it still is such a machine.
pub command_loop-typed :
    (asprintf_d : ℕ → Bytes) (moved : Fsm → Fsm) (lines : List Bytes) (fsm : Fsm)
    (given : List Bytes) (shown : List Shown)
    → ((f : Fsm) → Reachable f → Reachable (moved f))
    → all_short lines ≡ true
    → Reachable fsm
    → (shown' : List Shown) × (fsm' : Fsm) × (command_loop
          (telephone asprintf_d moved)
          lines
          (fsm, given)
          shown
        ≡ some (shown', (fsm', given ++ typed lines)))
      × Reachable fsm'
unfolding command_loop
command_loop-typed asprintf_d moved [] fsm given shown k h r =
    (shown, fsm, rw (append-nil given) refl, r)
command_loop-typed asprintf_d moved (line ∷ lines) fsm given shown k h r =
    let cmd = text_of line in
    let within : ltb (length line) 512 ≡ true = ground (arith, h) in
    let rest_short : all_short lines ≡ true = ground (arith, h) in
    elim (Bool-cases (same_text cmd exit_word)) [
      | inl exit ↦ (shown, fsm, rw (within, exit) (rw (append-nil given) refl), r)
      | inr on ↦ elim (Bool-cases (same_text cmd help_word)) [
        | inl helps ↦
            let (shown', fsm', done', r') =
              command_loop-typed asprintf_d moved lines fsm given (shown ++ (help ∷ [])) k
                rest_short r in
            (shown', fsm', rw (within, on) (rw helps done'), r')
        | inr no_help ↦ elim (Bool-cases (same_text cmd [])) [
          | inl blank ↦
              let (shown', fsm', done', r') =
                command_loop-typed asprintf_d moved lines fsm given shown k rest_short r in
              (shown', fsm', rw (within, on) (rw (no_help, blank) done'), r')
          | inr asks ↦
              let answered = process_command asprintf_d (cmd ++ (0 ∷ [])) fsm in
              let returned =
                request-Returns answered.0
                  (process_command-IsReceived asprintf_d (cmd ++ (0 ∷ [])) fsm).short in
              let (shown', fsm', done', r') =
                command_loop-typed asprintf_d moved lines (moved answered.1) (given ++ (cmd ∷ []))
                  (show_reply returned.answer.1 shown) k rest_short
                  (k answered.1 (command-Reachable asprintf_d line fsm (ground (arith, h)) r)) in
              (
                shown',
                fsm',
                command_loop_asked (telephone asprintf_d moved) line lines (fsm, given) shown _ _
                      within on no_help asks returned.same
                    ∙ (done'
                        ∙ ap (λ t. some (shown', (fsm', t)))
                            (append_assoc given (cmd ∷ []) (typed lines)
                              ∙ ap (λ t. given ++ t)
                                  (sym (typed_asked line lines on no_help asks)))),
                r',
              )
        ]
      ]
    ]
