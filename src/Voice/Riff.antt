-- ===== src/Voice/Riff.antt =====
-- service/voiceconversation/turn.go: what a reader of RIFF files finds in the file of a recording.
use haruka_ai.Base.{
  ℕ, zero, suc, ◌+◌, ◌*◌, ◌^◌, ◌/◌, ◌%◌, ◌==◌, ◌<◌, ◌≤◌, ◌≡◌, refl, sym, ap, ◌∙◌, if◌then◌else◌,
  not, List, [], ◌∷◌, ◌++◌, length, take, codes, Str, Option, none, some, ℤ, arith,
}
use haruka_ai.Voice.Turn.{max_turn_audio_bytes}
use haruka_ai.Voice.Wav.{put_uint16le, put_uint32le, wav_header, pcm16le_to_wav}

-- A reader that is written from the format alone: a number of `n` bytes, the least significant
-- first.
abbrev pub number : ℕ → List ℕ → Option (ℕ × List ℕ)
number zero bytes = some (0, bytes)
number (suc n) [] = none
number (suc n) (b ∷ bytes) = elim (number n bytes) [
  | none ↦ none
  | some r ↦ some (b + 256 * r.0, r.1)
]

abbrev pub tag : Str → List ℕ → Option (List ℕ)
tag [] bytes = some bytes
tag (c ∷ s) [] = none
tag (c ∷ s) (b ∷ bytes) = let rest = tag s bytes in if b == c then rest else none

-- The fields of a file that holds one format chunk and one data chunk.
pub record WavFile : Type 0 where
  pub riff_size : ℕ
  pub format : ℕ
  pub channels : ℕ
  pub rate : ℕ
  pub byte_rate : ℕ
  pub block_align : ℕ
  pub bits : ℕ
  pub samples : List ℕ

infixl 5 ◌>>=◌
abbrev ◌>>=◌ : {A B : Type 0} → Option A → (A → Option B) → Option B
none >>= k = none
some a >>= k = k a

abbrev pub read_wav : List ℕ → Option WavFile
read_wav bytes = tag (codes "RIFF") bytes >>= λ bytes. number 4 bytes >>= λ size.
    tag (codes "WAVEfmt ") size.1 >>= λ bytes. number 4 bytes >>= λ chunk.
    if not (chunk.0 == 16)
    then none
    else number 2 chunk.1 >>= λ format. number 2 format.1 >>= λ channels.
        number 4 channels.1 >>= λ rate. number 4 rate.1 >>= λ byte_rate.
        number 2 byte_rate.1 >>= λ align. number 2 align.1 >>= λ bits.
        tag (codes "data") bits.1 >>= λ bytes. number 4 bytes >>= λ length. some (record {
          riff_size = size.0;
          format = format.0;
          channels = channels.0;
          rate = rate.0;
          byte_rate = byte_rate.0;
          block_align = align.0;
          bits = bits.0;
          samples = take length.0 length.1;
        })

uint32_lem :
    (value : ℕ)
    → value < 2 ^ 32
    → value % 2 ^ 32 % 256
        + 256
          * (value % 2 ^ 32 / 2 ^ 8 % 256
              + 256 * (value % 2 ^ 32 / 2 ^ 16 % 256 + 256 * (value % 2 ^ 32 / 2 ^ 24 % 256 + 0)))
      ≡ value
uint32_lem value h = omega arith

take-all : (xs : List ℕ) → take (length xs) xs ≡ xs
take-all [] = refl
take-all (x ∷ xs) = ap (◌∷◌ x) (take-all xs)

-- The header for a length and a rate that fit their fields, before any bytes.
read_wav-header :
    (n : ℕ) (rate : ℕ) (bytes : List ℕ)
    → n < 2 ^ 24
    → rate < 2 ^ 24
    → read_wav (wav_header n rate ++ bytes)
      ≡ some (record {
        riff_size = 36 + n;
        format = 1;
        channels = 1;
        rate = rate;
        byte_rate = rate * 2;
        block_align = 2;
        bits = 16;
        samples = take n bytes;
      })
unfolding wav_header put_uint16le put_uint32le
read_wav-header n rate bytes hn hr =
    let size = uint32_lem (36 + n) (omega arith) in
    let second = uint32_lem rate (omega arith) in
    let flow = uint32_lem (rate * 2) (omega arith) in
    let count = uint32_lem n (omega arith) in
    λ i. some (record {
      riff_size = size i;
      format = 1;
      channels = 1;
      rate = second i;
      byte_rate = flow i;
      block_align = 2;
      bits = 16;
      samples = take (count i) bytes;
    })

pcm16le_to_wav-some :
    (pcm : List ℕ) (sample_rate : ℤ) (file : List ℕ)
    → pcm16le_to_wav pcm sample_rate ≡ some file
    → (length pcm ≤ max_turn_audio_bytes) × (wav_header (length pcm) 16000 ++ pcm ≡ file)
unfolding pcm16le_to_wav
pcm16le_to_wav-some pcm sample_rate file h = ground arith

-- A recording that is accepted is given back by a reader of the format: one channel of 16 bits at
-- 16000 samples a second, the samples themselves, and sizes that count the bytes of the file.
pub read_wav-pcm16le_to_wav :
    (pcm : List ℕ) (sample_rate : ℤ) (file : List ℕ)
    → pcm16le_to_wav pcm sample_rate ≡ some file
    → (read_wav file
        ≡ some (record {
          riff_size = 36 + length pcm;
          format = 1;
          channels = 1;
          rate = 16000;
          byte_rate = 32000;
          block_align = 2;
          bits = 16;
          samples = pcm;
        }))
      × (length file ≡ 36 + length pcm + 8)
read_wav-pcm16le_to_wav pcm sample_rate file h =
    let (short, whole) = pcm16le_to_wav-some pcm sample_rate file h in
    (
      ap read_wav (sym whole)
          ∙ read_wav-header (length pcm) 16000 pcm (omega arith) (omega arith)
          ∙ ap
              (λ xs. some (record {
                riff_size = 36 + length pcm;
                format = 1;
                channels = 1;
                rate = 16000;
                byte_rate = 32000;
                block_align = 2;
                bits = 16;
                samples = xs;
              }))
              (take-all pcm),
      sym (ap length whole) ∙ unfold wav_header put_uint16le put_uint32le in omega arith,
    )
