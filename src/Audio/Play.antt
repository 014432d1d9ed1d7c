-- ===== src/Audio/Play.antt =====
-- upil_audio/upil_audio.cpp: `file_to_usba`, the thread that plays a file to the telephone.
use upil.Common.{
  ℕ, zero, suc, ◌+◌, Bool, true, false, Option, none, some, List, [], ◌∷◌, leb, if◌then◌else◌,
  length, take, drop,
}
use upil.Common.Memory.{Bytes, ◌>>=◌}
use upil.Audio.Wav.{file_setup_record}

abbrev pub max_buf_size : ℕ
max_buf_size = 131072

-- The loop from round `i` on, on fuel: what is given to `usb_audio_write`, call by call. `running i`
-- is what `s_audio_running` is found to be, and `writes i` whether `usb_audio_write` succeeds. `none`
-- is a write beyond the buffer, or the end of the fuel.
unfoldable pub play_loop : (ℕ → Bool) → (ℕ → Bool) → ℕ → ℕ → ℕ → Bytes → Option (List Bytes)
play_loop running writes buf_size zero i rest = none
play_loop running writes buf_size (suc fuel) i rest =
    let r_bytes = take buf_size rest in
    let next = play_loop running writes buf_size fuel (i + 1) (drop buf_size rest) in
    let more = next >>= λ chunks. some (r_bytes ∷ chunks) in
    if running i
    then (if leb (length r_bytes) max_buf_size
        then elim r_bytes [
          | [] ↦ some []
          | b ∷ bs ↦ if writes i then more else some ((b ∷ bs) ∷ [])
        ]
        else none)
    else some []

-- A file that was played: as what, the bytes given to the device, and whether `s_play_endfunc` was
-- called.
pub record Playback : Type 0 where
  pub rate : ℕ
  pub channel : ℕ
  pub chunks : List Bytes
  pub ended : Bool

-- `file_to_usba`: whether `s_audio_running` stays as it is, and what was played, if anything. `file` is
-- `none` if it cannot be opened. `setup` is `usba_setup_track`, with the size that it gives if it
-- succeeds, and `at_end` what `s_audio_running` is found to be behind the loop.
unfoldable pub file_to_usba :
    (ℕ → ℕ → Option ℕ)
    → (ℕ → Bool)
    → Bool
    → (ℕ → Bool)
    → ℕ
    → Bytes
    → Option Bytes
    → Option (Bool × Option Playback)
unfolding play_loop
file_to_usba setup running at_end writes fuel garbage file =
    elim (file >>= file_setup_record garbage) [
      | none ↦ some (true, none)
      | some source ↦ elim (setup source.rate source.channel) [
        | none ↦ some (true, none)
        | some buf_size ↦ play_loop running writes buf_size fuel 0 source.rest >>= λ chunks. some (
          false,
          some (record {
            rate = source.rate;
            channel = source.channel;
            chunks = chunks;
            ended = at_end;
          }),
        )
      ]
    ]
