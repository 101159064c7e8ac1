-- ===== src/Voice/Sentences.antt =====
-- service/voiceconversation/turn.go: SentenceBuffer. A delta is a list of bytes; the buffer, which
-- holds valid UTF-8 only, is a list of code points. A nil buffer is not modelled.
use haruka_ai.Base.{
  ℕ, ◌==◌, ltb, leb, if◌then◌else◌, Bool, true, false, ◌||◌, List, [], ◌∷◌, ◌++◌, length, Str,
  trim_space, is_empty, ℤ, pos as int, negsuc,
}
use haruka_ai.Voice.Utf8.{to_valid_utf8}

pub record SentenceBuffer : Type 0 where
  pub max_runes : ℕ
  pub buffer : Str

-- `if maxRunes < 40 { maxRunes = 180 }`
unfoldable pub max_runes_or : ℤ → ℕ
max_runes_or (int n) = if ltb n 40 then 180 else n
max_runes_or (negsuc n) = 180

unfoldable pub new_sentence_buffer : ℤ → SentenceBuffer
unfolding max_runes_or
new_sentence_buffer max_runes = record { max_runes = max_runes_or max_runes; buffer = [] }

-- 。 ！ ？ ! ? and the line feed.
unfoldable pub is_sentence_boundary : ℕ → Bool
is_sentence_boundary r = r == 0x3002 || r == 0xff01 || r == 0xff1f || r == 33 || r == 63 || r == 10

unfoldable pub normalize_sentence : Str → Str
unfolding trim_space
normalize_sentence value = trim_space value

-- A segment that is blank is dropped.
unfoldable pub emit : Str → List Str → List Str
unfolding normalize_sentence is_empty
emit segment parts =
    if is_empty (normalize_sentence segment) then parts else normalize_sentence segment ∷ parts

-- The loop over the runes: `current` is `runes[start:index]`; the parts, and `runes[start:]` at the
-- end.
unfoldable pub scan : ℕ → Str → Str → List Str × Str
unfolding emit is_sentence_boundary
scan max_runes current [] = ([], current)
scan max_runes current (r ∷ rs) =
    let segment = current ++ r ∷ [] in
    let cut = is_sentence_boundary r || leb max_runes (length segment) in
    let rest = scan max_runes (if cut then [] else segment) rs in
    (if cut then emit segment rest.0 else rest.0, rest.1)

unfoldable pub drain : Bool → SentenceBuffer → SentenceBuffer × List Str
unfolding scan emit
drain force b =
    let (parts, rest) = scan b.max_runes [] b.buffer in
    if force
    then (record b { buffer = [] }, parts ++ emit rest [])
    else (record b { buffer = rest }, parts)

-- A delta loses the bytes that are not valid UTF-8 by themselves.
unfoldable pub push : List ℕ → SentenceBuffer → SentenceBuffer × List Str
unfolding drain is_empty to_valid_utf8
push delta b =
    if is_empty delta
    then (b, [])
    else drain false (record b { buffer = b.buffer ++ to_valid_utf8 delta })

unfoldable pub flush : SentenceBuffer → SentenceBuffer × List Str
unfolding drain
flush b = drain true b
