-- ===== src/Voice/Tests.antt =====
-- The voice conversation on concrete turns.
use haruka_ai.Base.{
  ℕ, ◌+◌, ◌<◌, ◌≡◌, refl, inl, true, false, List, [], ◌∷◌, ◌++◌, length, codes, none, some, ℤ,
  pos as int, negsuc, ◌*◌, ◌/◌, ◌==◌, leb, All, visible,
}
use haruka_ai.Voice.Vad.{
  Floats, EnergyVad, new_energy_vad, default_energy_vad_config, loud, frame_invalid,
  observe_pcm16le, observed,
}
use haruka_ai.Voice.Turn.{new_turn, append_pcm16le, commit}
use haruka_ai.Voice.Wav.{pcm16le_to_wav, wav_header}
use haruka_ai.Voice.Sentences.{new_sentence_buffer, max_runes_or, push, flush}
use haruka_ai.Voice.Utf8.{position_after, concat, to_valid_utf8, valid_text, Uncut}
use haruka_ai.Voice.Phrases.{pushes, pushes-eq-push}
use haruka_ai.Voice.Spoken.{Fits, pushes-Fits, pushes-flush-visible}
use haruka_ai.Voice.Riff.{read_wav, read_wav-pcm16le_to_wav}
use haruka_ai.Voice.Detector.{history, speaks, latest, turned, after, after-history}
use haruka_ai.Voice.Recording.{
  Call, append_call, commit_call, cancel_call, begin, calls, Held, calls-new-Held, Closed,
  calls-Closed,
}

abbrev magnitude : ℤ → ℕ
magnitude (int n) = n
magnitude (negsuc n) = n + 1

-- Millionths without a sign. Roots are left out, so the threshold is a square.
instance floats : Floats
floats = record {
  Float = ℕ;
  unusable = λ x. x == 0;
  default_threshold = 20;
  zero_float = 0;
  of_int = λ n. magnitude n * 1000000;
  add = λ a b. a + b;
  mul = λ a b. a * b / 1000000;
  div = λ a b. a * 1000000 / b;
  sqrt = λ x. x;
  at_least = λ a b. leb b a;
}

-- A full stop of three bytes.
abbrev full_stop : List ℕ
full_stop = 0xe3 ∷ 0x80 ∷ 0x82 ∷ []

-- It is read whole, and not in parts; an overlong form, a surrogate and a lone byte are dropped.
valid_bytes :
    (to_valid_utf8 (65 ∷ full_stop) ≡ 65 ∷ 0x3002 ∷ [])
    × (valid_text ((0xe3 ∷ 0x80 ∷ []) ∷ (0x82 ∷ 65 ∷ []) ∷ []) ≡ 65 ∷ [])
    × (to_valid_utf8 (0xc0 ∷ 0x80 ∷ 0xed ∷ 0xa0 ∷ 0x80 ∷ 0xff ∷ 66 ∷ []) ≡ 66 ∷ [])
    × (to_valid_utf8 (0xf0 ∷ 0x9f ∷ 0x98 ∷ 0x80 ∷ 0xf0 ∷ 0x9f ∷ 67 ∷ []) ≡ 0x1f600 ∷ 67 ∷ [])
unfolding to_valid_utf8
valid_bytes = (refl, refl, refl, refl)

abbrev deltas : List (List ℕ)
deltas = codes "Hello" ∷ codes " there! How" ∷ (codes " are you" ++ full_stop) ∷ codes " Well" ∷ []

pushes-eq-push_example :
    pushes deltas (new_sentence_buffer (int 60))
    ≡ push (concat deltas) (new_sentence_buffer (int 60))
unfolding position_after
pushes-eq-push_example = pushes-eq-push (int 60) deltas (refl, (refl, (refl, tt)))

pushes-Fits_example :
    All (Fits (max_runes_or (int 60))) (pushes deltas (new_sentence_buffer (int 60))).1
    × (length (pushes deltas (new_sentence_buffer (int 60))).0.buffer < max_runes_or (int 60))
pushes-Fits_example = pushes-Fits (int 60) deltas

pushes-flush-visible_example :
    (visible (
        concat (pushes deltas (new_sentence_buffer (int 60))).1
        ++ concat (flush (pushes deltas (new_sentence_buffer (int 60))).0).1)
      ≡ visible (valid_text deltas))
    × (Uncut deltas → visible (valid_text deltas) ≡ visible (to_valid_utf8 (concat deltas)))
    × ((flush (pushes deltas (new_sentence_buffer (int 60))).0).0.buffer ≡ [])
pushes-flush-visible_example = pushes-flush-visible (int 60) deltas

greeting_lem :
    (pushes deltas (new_sentence_buffer (int 60))).1
    ≡ codes "Hello there!" ∷ (codes "How are you" ++ 0x3002 ∷ []) ∷ []
unfolding pushes new_sentence_buffer
greeting_lem = refl

abbrev hiss : List ℕ
hiss = 0 ∷ 0 ∷ 1 ∷ 0 ∷ []

abbrev word : List ℕ
word = 7 ∷ 1 ∷ 1 ∷ 0 ∷ []

abbrev wav : List ℕ
wav = wav_header 4 16000 ++ word

wav_lem : pcm16le_to_wav word (int 16000) ≡ some wav
unfolding pcm16le_to_wav
wav_lem = refl

read_wav-pcm16le_to_wav_example :
    (read_wav wav
      ≡ some (record {
        riff_size = 36 + length word;
        format = 1;
        channels = 1;
        rate = 16000;
        byte_rate = 32000;
        block_align = 2;
        bits = 16;
        samples = word;
      }))
    × (length wav ≡ 36 + length word + 8)
read_wav-pcm16le_to_wav_example = read_wav-pcm16le_to_wav word (int 16000) wav wav_lem

abbrev vad : EnergyVad
vad = new_energy_vad default_energy_vad_config

word_lem : frame_invalid word ≡ false
unfolding frame_invalid
word_lem = refl

loud_lem : (loud vad word ≡ true) × (loud vad hiss ≡ false)
unfolding loud new_energy_vad default_energy_vad_config floats
loud_lem = (refl, refl)

after-history_example :
    let h = history vad (word ∷ hiss ∷ []) in
    let now = after vad (word ∷ hiss ∷ []) in
    let next = loud vad word ∷ h in
    (now.speaking ≡ speaks vad.start_frames vad.end_frames h)
    × (now.speech_frames ≡ latest true h)
    × (now.silence_frames ≡ latest false h)
    × (observe_pcm16le now word
        ≡ observed (after vad (word ∷ word ∷ hiss ∷ [])) (
            turned
              (speaks vad.start_frames vad.end_frames h)
              (speaks vad.start_frames vad.end_frames next)))
after-history_example = after-history default_energy_vad_config word (word ∷ hiss ∷ []) word_lem

abbrev session : List Call
session =
    append_call hiss
    ∷ append_call (3 ∷ [])
    ∷ append_call word
    ∷ commit_call
    ∷ commit_call
    ∷ append_call word
    ∷ []

calls-new-Held_example : Held (calls (begin (codes "turn") none) session)
calls-new-Held_example = calls-new-Held (codes "turn") none session

session_lem : (calls (begin (codes "turn") none) session).given ≡ (hiss ++ word) ∷ []
unfolding calls new_turn append_pcm16le commit
session_lem = refl

committed_lem : (calls (begin (codes "turn") none) session).turn.committed ≡ true
unfolding calls new_turn append_pcm16le commit
committed_lem = refl

calls-Closed_example :
    let s = calls (begin (codes "turn") none) session in
    let s' = calls s (append_call hiss ∷ cancel_call ∷ commit_call ∷ []) in
    (s'.turn.audio ≡ s.turn.audio) × (s'.taken ≡ s.taken) × (s'.given ≡ s.given) × Closed s'
calls-Closed_example =
    calls-Closed (calls (begin (codes "turn") none) session)
      (append_call hiss ∷ cancel_call ∷ commit_call ∷ []) (inl committed_lem)
