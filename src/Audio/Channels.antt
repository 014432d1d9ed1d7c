-- ===== src/Audio/Channels.antt =====
-- upil_audio/usb_audio_pcm.c: sound of one channel that is recorded as two.
use upil.Common.{ℕ, zero, suc, Bool, true, false}

-- A buffer of whole samples.
abbrev pub is_even : ℕ → Bool
is_even zero = true
is_even (suc zero) = false
is_even (suc (suc n)) = is_even n
