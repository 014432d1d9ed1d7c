-- ===== src/Audio/RoundTrip.antt =====
-- upil_audio/upil_audio.cpp: what `usba_to_file` records, `file_to_usba` plays.
use upil.Common.{
  ℕ, zero, suc, ◌+◌, ◌*◌, ◌/◌, ◌%◌, ◌≤◌, ◌<◌, ◌≡◌, refl, Bool, true, false, Option, some, List, [],
  ◌∷◌, ◌++◌, length, take, drop, arith, length-take, length-drop, take-append-drop,
}
use upil.Common.Memory.{Bytes}
use upil.Loop.Time.{Timeval}
use upil.Audio.Defs.{Turn, Recorded, Recording, record_loop, file_setup_track, usba_to_file}
use upil.Audio.Wav.{header_bytes, header_of, is_pcm, Source, file_setup_record}
use upil.Audio.Play.{play_loop, Playback, file_to_usba}

-- The bytes one after the other.
abbrev pub joined : List Bytes → Bytes
joined [] = []
joined (c ∷ cs) = c ++ joined cs

-- The file of a recording.
abbrev pub file_of : Recording → Bytes
file_of f = header_bytes f.header ++ f.contents

-- A header as the recording makes it is read as one of PCM data, at 44100 with two channels.
read_back :
    (garbage : Bytes) (size before : ℕ) (contents : Bytes)
    → file_setup_record garbage
        (header_bytes (record (file_setup_track before 44100 2) { data_sz = size }) ++ contents)
      ≡ some (record { rest = contents; rate = 44100; channel = 2 })
unfolding file_setup_record header_bytes header_of is_pcm file_setup_track
read_back garbage size before contents = refl

-- A loop that goes on to the end of the file gives all of it.
play_loop_all :
    (buf_size fuel i : ℕ) (rest : Bytes)
    → 1 ≤ buf_size
    → buf_size ≤ 131072
    → length rest < fuel
    → (chunks : List Bytes) × (play_loop (λ j. true) (λ j. true) buf_size fuel i rest ≡ some chunks)
      × (joined chunks ≡ rest)
unfolding play_loop
play_loop_all zero fuel i rest lo hi enough = absurd (omega (arith, lo))
play_loop_all (suc k) zero i rest lo hi enough = absurd (omega (arith, enough))
play_loop_all (suc k) (suc fuel) i [] lo hi enough = ([], refl, refl)
play_loop_all (suc k) (suc fuel) i (b ∷ bs) lo hi enough =
    let short : length (take (suc k) (b ∷ bs)) ≤ 131072 =
      omega (arith, hi, length-take (suc k) (b ∷ bs)) in
    let (chunks, done, all) =
      play_loop_all (suc k) fuel (i + 1) (drop (suc k) (b ∷ bs)) lo hi
        (omega (arith, enough, length-drop (suc k) (b ∷ bs))) in
    (
      take (suc k) (b ∷ bs) ∷ chunks,
      rw done (ground (arith, short)),
      rw all (take-append-drop (suc k) (b ∷ bs)),
    )

file_to_usba_lem :
    (setup : ℕ → ℕ → Option ℕ) (running : ℕ → Bool) (at_end : Bool) (writes : ℕ → Bool)
    (fuel buf_size : ℕ) (garbage file : Bytes) (source : Source) (chunks : List Bytes)
    → file_setup_record garbage file ≡ some source
    → setup source.rate source.channel ≡ some buf_size
    → play_loop running writes buf_size fuel 0 source.rest ≡ some chunks
    → file_to_usba setup running at_end writes fuel garbage (some file)
      ≡ some (
        false,
        some (record {
          rate = source.rate;
          channel = source.channel;
          chunks = chunks;
          ended = at_end;
        }),
      )
unfolding file_to_usba
file_to_usba_lem setup running at_end writes fuel buf_size garbage file source chunks e fits done =
    rw (e, file_to_usba) (rw (fits, file_to_usba) (rw done refl))

-- A recording can be played: with enough rounds, the thread that plays the file takes it as sound at
-- 44100 in two channels, gives the device exactly the bytes that the recording put behind the header,
-- in order, and calls `s_play_endfunc`. This holds while the sound is not stopped, if the device can
-- be set up for such sound and takes all that it is given, with a buffer of 1 to 131072 bytes.
pub file_to_usba-usba_to_file :
    (setup : ℕ → ℕ → Option ℕ) (garbage : Bytes) (before buf_size timeout : ℕ)
    (diff start : Timeval) (turns : List Turn)
    → setup 44100 2 ≡ some buf_size
    → 1 ≤ buf_size
    → buf_size ≤ 131072
    → (f : Recording) × (usba_to_file true true before diff timeout start turns ≡ (false, some f))
      × ((p : Playback) × (file_to_usba setup
              (λ i. true)
              true
              (λ i. true)
              (suc (length f.contents))
              garbage
              (some (file_of f))
            ≡ some (false, some p))
          × (p.rate ≡ 44100)
          × (p.channel ≡ 2)
          × (joined p.chunks ≡ f.contents)
          × (p.ended ≡ true))
unfolding usba_to_file
file_to_usba-usba_to_file setup garbage before buf_size timeout diff start turns fits lo hi =
    let begun : Recorded = record { contents = []; bytes_read = 0; diff = diff } in
    let r : Recorded = record_loop timeout start turns begun in
    let size : ℕ = r.bytes_read / 4 * 4 % 4294967296 in
    let source : Source = record { rest = r.contents; rate = 44100; channel = 2 } in
    let (chunks, done, all) =
      play_loop_all buf_size (suc (length r.contents)) 0 r.contents lo hi (omega arith) in
    let p : Playback = record { rate = 44100; channel = 2; chunks = chunks; ended = true } in
    (
      _,
      refl,
      (
        p,
        file_to_usba_lem setup (λ i. true) true (λ i. true) (suc (length r.contents)) buf_size
            garbage _ source chunks (read_back garbage size before r.contents) fits done,
        refl,
        refl,
        all,
        refl,
      ),
    )
