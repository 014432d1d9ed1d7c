-- ===== src/Audio/Defs.antt =====
-- upil_audio/upil_audio.cpp: `usba_to_file`, the thread that records a call. What the device, the
-- file and the clock give in each round is a parameter; an `unsigned int` wraps around at 2 ^ 32.
use upil.Common.{
  ℕ, ◌+◌, ◌-◌, ◌*◌, ◌/◌, ◌%◌, Bool, true, false, ◌&&◌, Option, none, some, List, [], ◌∷◌, ◌++◌, ltb,
  leb, ◌==◌, if◌then◌else◌, length, take,
}
use upil.Common.Memory.{Bytes}
use upil.Loop.Time.{Timeval}

-- `struct wav_header`, but for the fields that are never set.
pub record WavHeader : Type 0 where
  pub riff_id : ℕ
  pub riff_sz : ℕ
  pub riff_fmt : ℕ
  pub fmt_id : ℕ
  pub fmt_sz : ℕ
  pub audio_format : ℕ
  pub num_channels : ℕ
  pub sample_rate : ℕ
  pub byte_rate : ℕ
  pub block_align : ℕ
  pub bits_per_sample : ℕ
  pub data_id : ℕ
  pub data_sz : ℕ

-- `file_setup_track`, if the file was opened; `garbage` is what `data_sz` holds before it is set.
unfoldable pub file_setup_track : ℕ → ℕ → ℕ → WavHeader
file_setup_track garbage rate channels = record {
  riff_id = 0x46464952;
  riff_sz = 0;
  riff_fmt = 0x45564157;
  fmt_id = 0x20746d66;
  fmt_sz = 16;
  audio_format = 1;
  num_channels = channels;
  sample_rate = rate;
  byte_rate = 16 / 8 * channels * rate % 4294967296;
  block_align = channels * (16 / 8) % 65536;
  bits_per_sample = 16;
  data_id = 0x61746164;
  data_sz = garbage;
}

-- `tim_subtract`: `*result`, or `none` if it is not set and -1 is returned.
unfoldable pub tim_subtract : Timeval → Timeval → Option Timeval
tim_subtract x y =
    if ltb y.tv_sec x.tv_sec
    then none
    else if (x.tv_sec == y.tv_sec) && ltb y.tv_usec x.tv_usec
    then none
    else if ltb y.tv_usec x.tv_usec
    then some
        (record { tv_sec = y.tv_sec - x.tv_sec - 1; tv_usec = y.tv_usec + 1000000 - x.tv_usec })
    else some (record { tv_sec = y.tv_sec - x.tv_sec; tv_usec = y.tv_usec - x.tv_usec })

-- A round that begins with `s_audio_running` set: what `usb_audio_read` gives, `none` for a negative
-- number, how many bytes `fwrite` writes of it, and the time then.
pub record Turn : Type 0 where
  pub read : Option Bytes
  pub written : ℕ
  pub now : Timeval

-- What is in the file behind the header, `bytes_read`, and `diff`.
pub record Recorded : Type 0 where
  pub contents : Bytes
  pub bytes_read : ℕ
  pub diff : Timeval

-- A round that read and wrote `bytes`, with the time since `start` where it is looked at.
unfoldable pub kept : ℕ → Timeval → Bytes → Timeval → Recorded → Recorded
unfolding tim_subtract
kept timeout start bytes now r = record {
  contents = r.contents ++ bytes;
  bytes_read = (r.bytes_read + length bytes) % 4294967296;
  diff =
      if ltb 0 timeout
      then elim (tim_subtract start now) [ none ↦ r.diff | some d ↦ d ]
      else r.diff;
}

-- The loop of `usba_to_file`; behind the last turn `s_audio_running` is found cleared.
unfoldable pub record_loop : ℕ → Timeval → List Turn → Recorded → Recorded
unfolding kept
record_loop timeout start [] r = r
record_loop timeout start (t ∷ turns) r = elim t.read [
  | none ↦ r
  | some bytes ↦
      let r' = kept timeout start bytes t.now r in
      let rest = record_loop timeout start turns r' in
      if length bytes == t.written
      then (if ltb 0 timeout && leb timeout r'.diff.tv_sec then r' else rest)
      else record r { contents = r.contents ++ take t.written bytes }
]

-- A file that was recorded, and whether `s_record_endfunc` was called.
pub record Recording : Type 0 where
  pub header : WavHeader
  pub contents : Bytes
  pub ended : Bool

-- `usba_to_file`: whether `s_audio_running` stays set, and the file, if there is one. `device` and
-- `opened` tell whether `usba_setup_record` and `fopen` succeed; `diff` is not set at
-- first, and holds some numbers from 0 on.
unfoldable pub usba_to_file :
    Bool → Bool → ℕ → Timeval → ℕ → Timeval → List Turn → Bool × Option Recording
unfolding record_loop file_setup_track
usba_to_file device opened garbage diff timeout start turns =
    let r =
      record_loop timeout start turns (record { contents = []; bytes_read = 0; diff = diff }) in
    let header = file_setup_track garbage 44100 2 in
    if device && opened
    then (
      false,
      some (record {
        header = record header { data_sz = r.bytes_read / 4 * header.block_align % 4294967296 };
        contents = r.contents;
        ended = leb timeout r.diff.tv_sec;
      }),
    )
    else (true, none)
