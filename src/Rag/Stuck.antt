-- ===== src/Rag/Stuck.antt =====
-- common/rag/chunk.go: a limit of one rune, with which the loop can stand still.
use haruka_ai.Base.{
  ℕ, zero, suc, ◌==◌, ◌≡◌, ◌≢◌, refl, min, ltb, leb, true, false, List, ◌∷◌, Str, length, none,
  arith, ℤ, pos as int, not_negative, is_space,
}
use haruka_ai.Rag.Boundaries.{
  ChunkSizes, normalized_chunk_options, choose_chunk_end, search_back, or_else, after_paragraph,
  after_line, normalized_min, overlap_below, overlap_or_default,
}
use haruka_ai.Rag.Headings.{MarkdownHeading, parse_markdown_headings}
use haruka_ai.Rag.Chunk.{chunks_from}

abbrev one : ChunkSizes
one = record { max_size = 1; min_size = 0; overlap = 0 }

min-one : (n : ℕ) → normalized_min 1 n ≡ 0
unfolding normalized_min
min-one n = ground arith

overlap-one : (n : ℕ) → overlap_below 1 (overlap_or_default 1 n) ≡ 0
unfolding overlap_below overlap_or_default
overlap-one n = ground arith

sizes-one :
    (a b : ℤ)
    → normalized_chunk_options (record { max_runes = int 1; min_runes = a; overlap_runes = b })
      ≡ one
unfolding normalized_chunk_options
sizes-one a b = λ i. record {
  max_size = 1;
  min_size = min-one (not_negative a) i;
  overlap = overlap-one (not_negative b) i;
}

module _ (c d : ℕ) (rest : Str) (other : (c == 10) ≡ false) where
  abbrev text : Str
  text = 10 ∷ c ∷ d ∷ rest

  end-at-one : choose_chunk_end text 1 one ≡ 1
  unfolding choose_chunk_end after_paragraph after_line search_back or_else
  end-at-one =
      let two : min (length text) 2 ≡ 2 = omega arith in
      let short : (2 == length text) ≡ false = ground arith in rw two (rw short (rw other refl))

  end-at-zero : choose_chunk_end text 0 one ≡ 1
  unfolding choose_chunk_end after_paragraph after_line search_back or_else
  end-at-zero =
      let two : min (length text) 1 ≡ 1 = omega arith in
      let short : (1 == length text) ≡ false = ground arith in rw two (rw short refl)

  module _ (h : Str → Str) (document : Str) (headings : List MarkdownHeading) where
    stays : (fuel index : ℕ) → chunks_from h document text headings one fuel index 1 ≡ none
    unfolding chunks_from
    stays zero index = refl
    stays (suc fuel) index =
        let inside : ltb 1 (length text) ≡ true = ground arith in
        let on : leb (length text) 1 ≡ false = ground arith in
        let near : min 1 (length text) ≡ 1 = omega arith in
        rw (inside, end-at-one) (rw on (rw near (stays fuel index)))

    never : (fuel index : ℕ) → chunks_from h document text headings one fuel index 0 ≡ none
    unfolding chunks_from is_space
    never zero index = refl
    never (suc fuel) index =
        let inside : ltb 0 (length text) ≡ true = ground arith in
        let on : leb (length text) 1 ≡ false = ground arith in
        let near : min 1 (length text) ≡ 1 = omega arith in
        rw (inside, end-at-zero) (rw on (rw near (stays fuel index)))

-- With a limit of one rune, whatever the other options, a document that starts with a line feed,
-- another rune and one more is never cut to an end: no number of rounds is enough.
pub chunks_from-stuck :
    (sha256_hex : Str → Str) (document : Str) (c d : ℕ) (rest : Str) (min overlap : ℤ) (fuel : ℕ)
    → c ≢ 10
    → let text = 10 ∷ c ∷ d ∷ rest in
      chunks_from sha256_hex document text
        (parse_markdown_headings text)
        (normalized_chunk_options
          (record { max_runes = int 1; min_runes = min; overlap_runes = overlap }))
        fuel
        0
        0
      ≡ none
chunks_from-stuck sha256_hex document c d rest min overlap fuel h =
    let text = 10 ∷ c ∷ d ∷ rest in
    let other : (c == 10) ≡ false = ground (arith, h) in
    rw (sizes-one min overlap)
      (never c d rest other sha256_hex document (parse_markdown_headings text) fuel 0)
