-- ===== src/Voice.antt =====
-- service/voiceconversation/turn.go: the detector of speech, one turn's audio, its WAV file, and the
-- sentences that are spoken while an answer is streamed.
pub mod Vad
pub mod Turn
pub mod Wav
pub mod Utf8
pub mod Sentences
pub mod Phrases
pub mod Spoken
pub mod Riff
pub mod Detector
pub mod Recording
mod Tests
