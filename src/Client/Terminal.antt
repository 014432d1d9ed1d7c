-- ===== src/Client/Terminal.antt =====
-- upil_client.c: the program that reads commands from a terminal. The lines are what `gets` reads,
-- each without its end; `exchange` is what becomes of a command that is sent, and of what is at the
-- other end.
use upil.Common.{
  ℕ, Bool, true, false, Option, none, some, List, [], ◌∷◌, ◌++◌, ltb, if◌then◌else◌, length,
}
use upil.Common.Memory.{Bytes, ◌>>=◌, same_text}
use upil.Phone.Defs.{text_of}
use upil.Client.Connection.{Arrival, Client, upil_monitor_recv}
use upil.Client.Defs.{Answer, upil_ctrl_request}

abbrev pub max_command_bytes : ℕ
max_command_bytes = 512

abbrev pub max_response_bytes : ℕ
max_response_bytes = 1024

-- What is shown: the text of `print_help`, or the reply to a command.
pub data Shown : Type 0 where
  help : Shown
  reply : Bytes → Shown

abbrev pub exit_word : Bytes
exit_word = b'E' ∷ b'X' ∷ b'I' ∷ b'T' ∷ []

abbrev pub help_word : Bytes
help_word = b'H' ∷ b'E' ∷ b'L' ∷ b'P' ∷ []

-- `if (response_buf[0])`
abbrev pub show_reply : Bytes → List Shown → List Shown
show_reply [] shown = shown
show_reply (c ∷ cs) shown = shown ++ (reply (c ∷ cs) ∷ [])

-- The loop of `main`, on the lines left to read. `gets` does not look at the size of its buffer.
unfoldable pub command_loop {ℓ} :
    {S : Type ℓ} → (S → Bytes → Answer × S) → List Bytes → S → List Shown → Option (List Shown × S)
command_loop exchange [] s shown = some (shown, s)
command_loop exchange (line ∷ lines) s shown =
    let cmd = text_of line in
    let (answer, s') = exchange s cmd in
    let helped = command_loop exchange lines s (shown ++ (help ∷ [])) in
    let skipped = command_loop exchange lines s shown in
    let asked = upil_ctrl_request answer max_response_bytes >>= λ (result, text).
    command_loop exchange lines s' (show_reply text shown) in
    if ltb (length line) max_command_bytes
    then (if same_text cmd exit_word
        then some (shown, s)
        else if same_text cmd help_word
        then helped
        else if same_text cmd []
        then skipped
        else asked)
    else none

-- `readLoop`, on what arrives: whether it has ended, which kills the process group, and the texts that
-- it has shown.
unfoldable pub read_loop :
    List Arrival → Client → List Bytes → Option (Bool × (List Bytes × Client))
read_loop [] c shown = some (false, (shown, c))
read_loop (a ∷ arrivals) c shown = upil_monitor_recv a c >>= λ (ret, (buf, c')). elim ret [
  | none ↦ some (true, (shown, c'))
  | some n ↦ read_loop arrivals c' (shown ++ (text_of buf ∷ []))
]

-- `main`, once `upil_connect` has returned 0 or not; `none` within the result for -1.
unfoldable pub client_main {ℓ} :
    {S : Type ℓ}
    → Bool
    → (S → Bytes → Answer × S)
    → List Bytes
    → S
    → Option (Option (List Shown) × S)
client_main connected exchange lines s =
    let run = command_loop exchange lines s [] >>= λ (shown, s'). some (some shown, s') in
    if connected then run else some (none, s)
