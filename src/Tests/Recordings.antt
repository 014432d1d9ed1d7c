-- ===== src/Tests/Recordings.antt =====
-- upil_audio/upil_audio.cpp: a recording of five bytes in two rounds.
use upil.Common.{
  ◌++◌, ℕ, suc, ◌*◌, ◌/◌, ◌≤◌, ◌≡◌, refl, inl, inr, Bool, true, false, not, ◌&&◌, Option, some,
  List, [], ◌∷◌, ◌==◌, if◌then◌else◌, length, take, arith, Bool-cases,
}
use upil.Common.Memory.{Bytes, ◌>>=◌}
use upil.Loop.Time.{Timeval, zero_time}
use upil.Audio.Defs.{Turn, Recording, usba_to_file}
use upil.Audio.RoundTrip.{joined, file_of, file_to_usba-usba_to_file}
use upil.Audio.Play.{Playback, file_to_usba}
use upil.Audio.Host.{Room, room, hosta_write_data}
use upil.Audio.Frames.{hosta_write_data_lem}
use upil.Audio.Device.{
  UsbAudio, usba_setup_track, usb_audio_open, usb_audio_set_resample, usb_audio_set_volume,
}

abbrev late : Timeval
late = record { tv_sec = 31; tv_usec = 0 }

abbrev rounds : List Turn
rounds =
    record { read = some (1 ∷ 2 ∷ 3 ∷ []); written = 3; now = zero_time }
    ∷ record { read = some (4 ∷ 5 ∷ []); written = 2; now = late }
    ∷ []

-- A device that is there, with a buffer of three bytes.
abbrev set_up : ℕ → ℕ → Option ℕ
set_up rate channel =
    usba_setup_track true true true true (λ i. true) 2 rate channel >>= λ u. some 3

file_to_usba-usba_to_file_example :
    (f : Recording) × (usba_to_file true true 7 zero_time 30 zero_time rounds ≡ (false, some f))
    × ((p : Playback) × (file_to_usba set_up
            (λ i. true)
            true
            (λ i. true)
            (suc (length f.contents))
            []
            (some (file_of f))
          ≡ some (false, some p))
        × (p.rate ≡ 44100)
        × (p.channel ≡ 2)
        × (joined p.chunks ≡ f.contents)
        × (p.ended ≡ true))
unfolding usba_setup_track usb_audio_open usb_audio_set_resample usb_audio_set_volume
file_to_usba-usba_to_file_example =
    file_to_usba-usba_to_file set_up [] 7 3 30 zero_time zero_time rounds refl (omega arith)
      (omega arith)

-- A track that takes one frame at a time.
abbrev narrow : ℕ → ℕ → Room
narrow c n = room (if n == 0 then 0 else 1)

narrow-IsFair : (c n k : ℕ) → narrow c n ≡ room k → k ≤ n
narrow-IsFair c n k e = elim (Bool-cases (n == 0)) [
  | inl nothing ↦ ground (arith, e, nothing)
  | inr some_left ↦ ground (arith, e, some_left)
]

hosta_write_data_example :
    (ok : Bool) × (sent : ℕ) × (hosta_write_data narrow 2 (1 ∷ 2 ∷ 3 ∷ 4 ∷ 5 ∷ []) 5
      ≡ some (ok, take (sent * 2) (1 ∷ 2 ∷ 3 ∷ 4 ∷ 5 ∷ [])))
    × (sent ≤ 5 / 2)
    × ((ok && not (sent == 5 / 2)) ≡ false)
hosta_write_data_example =
    hosta_write_data_lem narrow 2 (1 ∷ 2 ∷ 3 ∷ 4 ∷ 5 ∷ []) 5 narrow-IsFair
      (λ c n e. absurd (ground (arith, e))) (omega arith)

-- The device of the recordings.
abbrev microphone : UsbAudio
microphone = record {
  capture = true;
  config_rate = 8000;
  config_channels = 1;
  resampler = true;
  need_resample = true;
  source_channels = 1;
  target_channels = 2;
}

-- A resampler that gives the sound three times over.
abbrev thrice : Bytes → Bytes
thrice bytes = bytes ++ (bytes ++ bytes)
