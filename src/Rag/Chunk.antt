-- ===== src/Rag/Chunk.antt =====
-- common/rag/chunk.go: the loop over a document, and the name of a chunk. SHA-256 in hexadecimal is
-- an argument.
use haruka_ai.Base.{
  ℕ, zero, suc, ◌+◌, ◌-◌, ◌/◌, ◌%◌, ltb, leb, min, if◌then◌else◌, List, [], ◌∷◌, ◌++◌, length, take,
  drop, Str, Option, none, some,
}
use haruka_ai.Rag.Boundaries.{
  ChunkOptions, ChunkSizes, normalized_chunk_options, choose_chunk_end, skip_spaces,
  trim_rune_range,
}
use haruka_ai.Rag.Headings.{MarkdownHeading, parse_markdown_headings, heading_path_at}

pub record TextChunk : Type 0 where
  pub id : Str
  pub content : Str
  pub heading : Str
  pub index : ℕ
  pub start_rune : ℕ
  pub end_rune : ℕ

-- `strconv.Itoa` of a number that is not negative, with as many digits as the number has at most.
unfoldable pub digits : ℕ → ℕ → Str
digits zero n = []
digits (suc fuel) n =
    let rest = digits fuel (n / 10) in
    if ltb n 10 then (b'0' + n) ∷ [] else rest ++ (b'0' + n % 10) ∷ []

unfoldable pub itoa : ℕ → Str
unfolding digits
itoa n = digits (suc n) n

-- What is hashed.
unfoldable pub identity : Str → ℕ → ℕ → Str → Str
unfolding itoa
identity document start end content =
    document ++ 0 ∷ (itoa start ++ b':' ∷ (itoa end ++ 0 ∷ content))

abbrev pub before : {A : Type 0} → A → Option (List A) → Option (List A)
before c none = none
before c (some cs) = some (c ∷ cs)

-- `runes[start:end]`
abbrev pub slice : Str → ℕ → ℕ → Str
slice runes start end = take (end - start) (drop start runes)

module _ (sha256_hex : Str → Str) where
  unfoldable pub stable_chunk_id : Str → ℕ → ℕ → Str → Str
  unfolding identity
  stable_chunk_id document start end content = sha256_hex (identity document start end content)

  module _ (document runes : Str) (headings : List MarkdownHeading) (sizes : ChunkSizes) where
    unfoldable pub new_chunk : ℕ → ℕ × ℕ → TextChunk
    unfolding stable_chunk_id heading_path_at
    new_chunk index (start, end) =
        let text = slice runes start end in
        record {
          id = stable_chunk_id document start end text;
          content = text;
          heading = heading_path_at headings start;
          index = index;
          start_rune = start;
          end_rune = end;
        }

    -- Where the search for the next chunk starts.
    unfoldable pub next_start : ℕ → ℕ → ℕ
    unfolding skip_spaces
    next_start start raw_end =
        let back = raw_end - sizes.overlap in
        let next = if leb back start then raw_end else back in
        skip_spaces runes (min raw_end (length runes) - next) next

    -- The loop from a start on, with the number of chunks so far; `none` when the fuel is gone.
    unfoldable pub chunks_from : ℕ → ℕ → ℕ → Option (List TextChunk)
    unfolding choose_chunk_end trim_rune_range new_chunk next_start
    chunks_from zero index start = none
    chunks_from (suc fuel) index start =
        let raw_end = choose_chunk_end runes start sizes in
        let range = trim_rune_range runes start raw_end in
        let kept = ltb range.0 range.1 in
        let later =
          chunks_from fuel (if kept then suc index else index) (next_start start raw_end) in
        let rest = if leb (length runes) raw_end then some [] else later in
        if ltb start (length runes)
        then (if kept then before (new_chunk index range) rest else rest)
        else some []

  unfoldable pub chunk_markdown : Str → Str → ChunkOptions → Option (List TextChunk)
  unfolding chunks_from normalized_chunk_options parse_markdown_headings
  chunk_markdown document runes options =
      chunks_from document runes (parse_markdown_headings runes) (normalized_chunk_options options)
        (suc (length runes)) 0 0
