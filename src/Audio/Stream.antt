-- ===== src/Audio/Stream.antt =====
-- upil_audio/upil_audio.cpp: `usba_to_hosta` and `hosta_to_usba`, the threads of a call. The rounds are
-- those that begin with `s_audio_running` set; behind the last it is found cleared.
use upil.Common.{
  ℕ, ◌+◌, Bool, true, false, Option, none, some, List, [], ◌∷◌, ◌++◌, leb, min, if◌then◌else◌,
  length,
}
use upil.Common.Memory.{Bytes, ◌>>=◌, read_n}
use upil.Audio.Host.{Room, Sound, hosta_write_data, hosta_read_data}

-- A round of `usba_to_hosta`: what `usb_audio_read` gives, and the track in this round.
pub record Heard : Type 0 where
  pub read : Option Bytes
  pub track : ℕ → ℕ → Room

-- What the track was given, `send_track_count` and `s_track_ready`.
pub record Sent : Type 0 where
  pub out : Bytes
  pub send_track_count : ℕ
  pub track_ready : Bool

-- A buffer that was sent: the track is ready with the fifth.
unfoldable pub counted : Sent → Sent
counted s =
    let n = s.send_track_count + 1 in
    if s.track_ready then s else record s { send_track_count = n; track_ready = leb 5 n }

-- The loop of `usba_to_hosta`.
unfoldable pub hear_loop : ℕ → List Heard → Sent → Option Sent
unfolding counted
hear_loop frame_size [] s = some s
hear_loop frame_size (t ∷ turns) s = elim t.read [
  | none ↦ some s
  | some bytes ↦ hosta_write_data t.track frame_size bytes (length bytes) >>= λ (ok, written).
      let s' = record s { out = s.out ++ written } in
      let rest = hear_loop frame_size turns (counted s') in if ok then rest else some s'
]

-- `usba_to_hosta`: whether `s_audio_running` stays as it is, and what it did. `device` and `track` tell
-- whether `usba_setup_record` and `hosta_setup_track` succeed.
unfoldable pub usba_to_hosta : Bool → Bool → ℕ → List Heard → Bool → Option (Bool × Sent)
unfolding hear_loop
usba_to_hosta device track frame_size turns track_ready =
    let begun : Sent = record { out = []; send_track_count = 0; track_ready = track_ready } in
    let run = hear_loop frame_size turns begun >>= λ s. some (false, s) in
    if device then (if track then run else some (true, begun)) else some (true, begun)

-- A round of `hosta_to_usba`: the record in this round, and whether `usb_audio_write` succeeds.
pub record Spoken : Type 0 where
  pub record_source : ℕ → ℕ → Sound
  pub accepted : Bool

-- The loop of `hosta_to_usba` with its buffer: what is given to `usb_audio_write`.
unfoldable pub speak_loop : ℕ → ℕ → List Spoken → Bytes → Bytes → Option Bytes
speak_loop frame_size buf_size [] buf out = some out
speak_loop frame_size buf_size (t ∷ turns) buf out =
    hosta_read_data t.record_source frame_size buf buf_size >>= λ (ok, buf').
    let written = read_n buf' 0 buf_size >>= λ bytes.
    let rest = speak_loop frame_size buf_size turns buf' (out ++ bytes) in
    if t.accepted then rest else some (out ++ bytes) in
    if ok then written else some out

-- `hosta_to_usba`: `size_in` and `size_out` are the sizes that the two set-ups give, `none` if they
-- fail, and `buf` what the buffer of 131072 bytes holds at first.
unfoldable pub hosta_to_usba : Option ℕ → Option ℕ → ℕ → List Spoken → Bytes → Option (Bool × Bytes)
unfolding speak_loop
hosta_to_usba size_in size_out frame_size turns buf = elim size_in [
  | none ↦ some (true, [])
  | some n ↦ elim size_out [
    | none ↦ some (true, [])
    | some m ↦ speak_loop frame_size (min n m) turns buf [] >>= λ out. some (false, out)
  ]
]
