-- ===== src/Audio.antt =====
-- upil_audio/upil_audio.cpp and the part of upil_audio/usb_audio_pcm.c that it stands on: the sound of a
-- call, and the files that are played and recorded.
pub mod Defs
pub mod Sizes
pub mod Wav
pub mod Play
pub mod RoundTrip
pub mod Host
pub mod Stream
pub mod Frames
pub mod Device
pub mod Channels
pub mod Control
pub mod Uses
