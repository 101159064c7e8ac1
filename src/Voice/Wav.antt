-- ===== src/Voice/Wav.antt =====
-- service/voiceconversation/turn.go: PCM16LEToWAV. A byte is a number below 256.
use haruka_ai.Base.{
  ℕ, ◌+◌, ◌*◌, ◌/◌, ◌%◌, ◌^◌, ◌==◌, ltb, if◌then◌else◌, not, ◌||◌, List, [], ◌∷◌, ◌++◌, length,
  codes, Option, none, some, ℤ, positive_or,
}
use haruka_ai.Voice.Turn.{max_turn_audio_bytes}

-- `byte(value)`, `byte(value >> 8)` and so on.
unfoldable pub put_uint16le : ℕ → List ℕ
put_uint16le value = value % 256 ∷ (value / 2 ^ 8) % 256 ∷ []

unfoldable pub put_uint32le : ℕ → List ℕ
put_uint32le value =
    value % 256 ∷ (value / 2 ^ 8) % 256 ∷ (value / 2 ^ 16) % 256 ∷ (value / 2 ^ 24) % 256 ∷ []

-- The 44 bytes before the samples; `uint32(x)` is `x % 2 ^ 32`.
unfoldable pub wav_header : ℕ → ℕ → List ℕ
unfolding put_uint16le put_uint32le
wav_header data_length sample_rate =
    codes "RIFF"
    ++ put_uint32le ((36 + data_length) % 2 ^ 32)
    ++ codes "WAVE"
    ++ codes "fmt "
    ++ put_uint32le 16
    ++ put_uint16le 1
    ++ put_uint16le 1
    ++ put_uint32le (sample_rate % 2 ^ 32)
    ++ put_uint32le ((sample_rate * 2) % 2 ^ 32)
    ++ put_uint16le 2
    ++ put_uint16le 16
    ++ codes "data"
    ++ put_uint32le (data_length % 2 ^ 32)

unfoldable pub pcm16le_to_wav : List ℕ → ℤ → Option (List ℕ)
unfolding wav_header positive_or
pcm16le_to_wav pcm sample_rate =
    if length pcm == 0 || not (length pcm % 2 == 0) || ltb max_turn_audio_bytes (length pcm)
    then none
    else (let rate = positive_or 16000 sample_rate in
        if not (rate == 16000) then none else some (wav_header (length pcm) rate ++ pcm))
