-- ===== src/Audio/Uses.antt =====
-- upil_sm.c with upil_audio/upil_audio.cpp: what the states do to the audio, call by call.
use upil.Common.{ℕ, ◌+◌, Bool, not, ◌&&◌, Option, some, List, [], ◌∷◌}
use upil.Common.Memory.{Bytes, ◌>>=◌}
use upil.StateMachine.Defs.{
  Effect, command, notice, audio_start, audio_stop, audio_play_file, audio_record_file,
}
use upil.Audio.Control.{
  Audio, Created, upil_audio_stop, upil_audio_start, upil_audio_play_file, upil_audio_record_file,
}

abbrev pub welcome : Bytes
welcome =
    b'/' ∷ b'd' ∷ b'a' ∷ b't' ∷ b'a' ∷ b'/' ∷ b'w' ∷ b'e' ∷ b'l' ∷ b'c' ∷ b'o' ∷ b'm' ∷ b'e' ∷ b'.'
    ∷ b'w' ∷ b'a' ∷ b'v' ∷ []

abbrev pub recording : Bytes
recording =
    b'/' ∷ b'd' ∷ b'a' ∷ b't' ∷ b'a' ∷ b'/' ∷ b'r' ∷ b'e' ∷ b'c' ∷ b'o' ∷ b'r' ∷ b'd' ∷ b'.' ∷ b'w'
    ∷ b'a' ∷ b'v' ∷ []

-- What the system does in one call, and whether a thread has cleared `s_audio_running` behind it.
pub record World : Type 0 where
  pub first : Created
  pub second : Created
  pub ready : ℕ → Bool
  pub alive : ℕ → ℕ → Bool
  pub cleared : Bool

-- One effect of a state on the audio.
unfoldable pub perform : World → Effect → Audio → Option Audio
perform w (command req payload) a = some a
perform w (notice what payload) a = some a
perform w audio_start a = some (upil_audio_start w.first w.second w.ready w.alive a).1
perform w audio_stop a = some (upil_audio_stop w.alive a).1
perform w audio_play_file a = upil_audio_play_file w.first welcome a >>= λ r. some r.1
perform w audio_record_file a = upil_audio_record_file w.first recording 30 a >>= λ r. some r.1

-- A thread that ends clears the flag.
unfoldable pub ended : Bool → Audio → Audio
ended cleared a = record a { running = a.running && not cleared }

-- The effects from number `i` on, in the world `w i`.
unfoldable pub replay : (ℕ → World) → ℕ → List Effect → Audio → Option Audio
unfolding perform ended
replay w i [] a = some a
replay w i (e ∷ es) a = perform (w i) e a >>= λ a'. replay w (i + 1) es (ended (w i).cleared a')
