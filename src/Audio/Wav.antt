-- ===== src/Audio/Wav.antt =====
-- upil_audio/upil_audio.cpp: `struct wav_header` as it lies in memory and in a file, on a machine that
-- puts the low byte first, and `file_setup_record`, which reads it.
use upil.Common.{
  ℕ, ◌+◌, ◌*◌, ◌/◌, ◌%◌, Bool, ◌&&◌, Option, none, some, [], ◌∷◌, ◌++◌, ◌==◌, if◌then◌else◌, length,
  take, drop,
}
use upil.Common.Memory.{Bytes}
use upil.Audio.Defs.{WavHeader}

-- `uint16_t` and `uint32_t`
abbrev pub uint16_bytes : ℕ → Bytes
uint16_bytes n = n % 256 ∷ n / 256 % 256 ∷ []

abbrev pub uint32_bytes : ℕ → Bytes
uint32_bytes n = n % 256 ∷ n / 256 % 256 ∷ n / 65536 % 256 ∷ n / 16777216 % 256 ∷ []

abbrev pub header_size : ℕ
header_size = 44

-- The bytes of the structure.
unfoldable pub header_bytes : WavHeader → Bytes
header_bytes h =
    uint32_bytes h.riff_id
    ++ (uint32_bytes h.riff_sz
        ++ (uint32_bytes h.riff_fmt
            ++ (uint32_bytes h.fmt_id
                ++ (uint32_bytes h.fmt_sz
                    ++ (uint16_bytes h.audio_format
                        ++ (uint16_bytes h.num_channels
                            ++ (uint32_bytes h.sample_rate
                                ++ (uint32_bytes h.byte_rate
                                    ++ (uint16_bytes h.block_align
                                        ++ (uint16_bytes h.bits_per_sample
                                            ++ (uint32_bytes h.data_id
                                                ++ uint32_bytes h.data_sz)))))))))))

-- The number of `n` bytes at an offset, low byte first; bytes that are not there count as 0.
abbrev pub number_of : Bytes → ℕ
number_of [] = 0
number_of (b ∷ bs) = b + 256 * number_of bs

abbrev pub field : ℕ → ℕ → Bytes → ℕ
field off n bytes = number_of (take n (drop off bytes))

-- The structure that these bytes are.
unfoldable pub header_of : Bytes → WavHeader
header_of bytes = record {
  riff_id = field 0 4 bytes;
  riff_sz = field 4 4 bytes;
  riff_fmt = field 8 4 bytes;
  fmt_id = field 12 4 bytes;
  fmt_sz = field 16 4 bytes;
  audio_format = field 20 2 bytes;
  num_channels = field 22 2 bytes;
  sample_rate = field 24 4 bytes;
  byte_rate = field 28 4 bytes;
  block_align = field 32 2 bytes;
  bits_per_sample = field 34 2 bytes;
  data_id = field 36 4 bytes;
  data_sz = field 40 4 bytes;
}

-- `fread(&header, …)`: `garbage` are the bytes that the variable holds before; a short file leaves the
-- last of them.
abbrev pub fread_header : Bytes → Bytes → Bytes
fread_header garbage file = let got = take header_size file in got ++ drop (length got) garbage

unfoldable pub is_pcm : WavHeader → Bool
is_pcm h =
    h.riff_id == 0x46464952
    && (h.riff_fmt == 0x45564157
        && (h.fmt_id == 0x20746d66 && (h.audio_format == 1 && h.fmt_sz == 16)))

-- What `file_setup_record` returns: what is left to read of the file, `rate` and `channel`.
pub record Source : Type 0 where
  pub rest : Bytes
  pub rate : ℕ
  pub channel : ℕ

-- `file_setup_record`, of a file that was opened; `none` for -1.
unfoldable pub file_setup_record : Bytes → Bytes → Option Source
unfolding header_of is_pcm
file_setup_record garbage file =
    let h = header_of (fread_header garbage file) in
    if is_pcm h
    then (if h.bits_per_sample == 16
        then some (record {
          rest = drop header_size file;
          rate = h.sample_rate;
          channel = h.num_channels;
        })
        else none)
    else none
