-- ===== src/Audio.antt =====
-- Parts of the audio package that compute: pkg/audio.
pub mod Vad
