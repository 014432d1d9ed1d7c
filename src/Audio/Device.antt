-- ===== src/Audio/Device.antt =====
-- upil_audio/usb_audio_pcm.c from line 944 on, which adds resampling and the conversion between one
-- channel and two to the `pcm` and `mixer` of tinyalsa, and the set-up of upil_audio/upil_audio.cpp.
-- tinyalsa and the resampler are parameters. `none` as the result of a definition is an access outside
-- a buffer.
use upil.Common.{
  ℕ, zero, suc, ◌+◌, Bool, true, false, not, ◌&&◌, ◌||◌, Option, none, some, List, [], ◌∷◌, leb,
  ltb, ◌==◌, if◌then◌else◌, length, take,
}
use upil.Common.Memory.{Bytes, ◌>>=◌}

-- The size of `buffer_resample`, `buffer_channels` and `buffer_read`.
abbrev pub max_buf_size : ℕ
max_buf_size = 131072

-- A sample is an `int16_t`, two bytes.
abbrev pub Sample : Type 0
Sample = ℕ × ℕ

abbrev pub samples_of : Bytes → List Sample
samples_of [] = []
samples_of (a ∷ []) = []
samples_of (a ∷ b ∷ bytes) = (a, b) ∷ samples_of bytes

abbrev pub bytes_of : List Sample → Bytes
bytes_of [] = []
bytes_of ((a, b) ∷ samples) = a ∷ b ∷ bytes_of samples

unfoldable pub stereo_to_mono : List Sample → List Sample
stereo_to_mono [] = []
stereo_to_mono (l ∷ []) = l ∷ []
stereo_to_mono (l ∷ r ∷ samples) = l ∷ stereo_to_mono samples

unfoldable pub mono_to_stereo : List Sample → List Sample
mono_to_stereo [] = []
mono_to_stereo (s ∷ samples) = s ∷ s ∷ mono_to_stereo samples

-- `struct usb_audio_pcm`, with the rate and the channels of the device's configuration; `capture` is
-- `flags&PCM_IN`, and `resampler` tells whether there is one.
pub record UsbAudio : Type 0 where
  pub capture : Bool
  pub config_rate : ℕ
  pub config_channels : ℕ
  pub resampler : Bool
  pub need_resample : Bool
  pub source_channels : ℕ
  pub target_channels : ℕ

-- `usb_audio_open`, by whether `pcm_open`, `mixer_open` and `calloc` succeed: the device, and whether
-- the pcm and the mixer are open afterwards.
unfoldable pub usb_audio_open : Bool → ℕ → ℕ → Bool → Bool → Bool → Option UsbAudio × (Bool × Bool)
usb_audio_open capture rate channels pcm mixer memory =
    let device : UsbAudio = record {
      capture = capture;
      config_rate = rate;
      config_channels = channels;
      resampler = false;
      need_resample = false;
      source_channels = channels;
      target_channels = channels;
    } in
    if pcm && mixer
    then (if memory then (some device, (true, true)) else (none, (false, false)))
    else (none, (pcm, mixer))

-- `usb_audio_set_resample`: the result, true for 0. `created` is what `create_resampler` does.
unfoldable pub usb_audio_set_resample : Bool → ℕ → ℕ → UsbAudio → Bool × UsbAudio
usb_audio_set_resample created rate channels u =
    let needs = not u.resampler && not (rate == u.config_rate) in
    let u' = if needs then record u { resampler = true; need_resample = true } else u in
    if needs && not created then (false, u) else (
      true,
      record u' {
        source_channels = if u.capture then u.config_channels else channels;
        target_channels = if u.capture then channels else u.config_channels;
      },
    )

-- The conversion of channels, into `buffer_channels`.
unfoldable pub convert : UsbAudio → Bytes → Option Bytes
unfolding stereo_to_mono mono_to_stereo
convert u bytes =
    let samples = samples_of bytes in
    let out =
      bytes_of
        (if u.target_channels == 1 then stereo_to_mono samples else mono_to_stereo samples) in
    if u.target_channels == u.source_channels
    then some bytes
    else if leb (length out) max_buf_size
    then some out
    else none

-- The resampler, into `buffer_resample`.
unfoldable pub resampled : (Bytes → Bytes) → UsbAudio → Bytes → Option Bytes
resampled resample u bytes =
    if u.need_resample
    then (if leb (length (resample bytes)) max_buf_size then some (resample bytes) else none)
    else some bytes

-- `usb_audio_read`: what is stored in the caller's buffer of `data_size` bytes, if the read succeeds.
-- `pcm_read n` fills `n` bytes, or fails.
unfoldable pub usb_audio_read :
    (ℕ → Option Bytes) → (Bytes → Bytes) → UsbAudio → ℕ → ℕ → Option (Option Bytes)
unfolding convert resampled
usb_audio_read pcm_read resample u data_size count =
    let need_copy_data = u.need_resample || not (u.target_channels == u.source_channels) in
    if leb count (if need_copy_data then max_buf_size else data_size)
    then elim (pcm_read count) [
      | none ↦ some none
      | some bytes ↦ resampled resample u bytes >>= λ frames.
          convert u frames >>= λ out. some (some (take data_size out))
    ]
    else none

-- `usb_audio_write`: what is given to `pcm_write`, and the result, `none` for -1.
unfoldable pub usb_audio_write :
    (Bytes → Bool) → (Bytes → Bytes) → UsbAudio → Bytes → Option (Bytes × Option ℕ)
unfolding convert resampled
usb_audio_write pcm_write resample u bytes = convert u bytes >>= λ samples.
    resampled resample u samples >>= λ out.
    some (out, if pcm_write out then some (length out) else none)

-- `usb_audio_mixer_set_value`, for the values from `i` on, by those left: how many are set. The first
-- that `mixer_ctl_set_value` refuses ends the loop.
unfoldable pub set_values : (ℕ → Bool) → ℕ → ℕ → ℕ
set_values accepts zero i = i
set_values accepts (suc n) i =
    let next = set_values accepts n (i + 1) in if accepts i then next else i

-- `usb_audio_set_volume`, of a volume from 0 on: the result, true for 0, and how many of the mixer's
-- values are set.
unfoldable pub usb_audio_set_volume : (ℕ → Bool) → ℕ → ℕ → Bool × ℕ
unfolding set_values
usb_audio_set_volume accepts num_values volume =
    if ltb 44 volume then (false, 0) else (true, set_values accepts num_values 0)

-- `usba_setup_record`: a device that was opened is closed again if it cannot be set up.
unfoldable pub usba_setup_record : Bool → Bool → Bool → Bool → Option UsbAudio
unfolding usb_audio_open usb_audio_set_resample
usba_setup_record pcm mixer memory created =
    (usb_audio_open true 8000 1 pcm mixer memory).0 >>= λ u.
    let (ok, u') = usb_audio_set_resample created 44100 2 u in if ok then some u' else none

-- `usba_setup_track`, with the mixer's values as for the volume.
unfoldable pub usba_setup_track :
    Bool → Bool → Bool → Bool → (ℕ → Bool) → ℕ → ℕ → ℕ → Option UsbAudio
unfolding usb_audio_open usb_audio_set_resample usb_audio_set_volume
usba_setup_track pcm mixer memory created accepts num_values rate channel =
    (usb_audio_open false 48000 2 pcm mixer memory).0 >>= λ u.
    let (ok, u') = usb_audio_set_resample created rate channel u in
    let (loud, set) = usb_audio_set_volume accepts num_values 12 in
    if ok && loud then some u' else none
