-- ===== src/Rag/Cutting.antt =====
-- common/rag/chunk.go: the loop ends, covers the document, and keeps the chunks within their bounds.
use haruka_ai.Base.{
  ℕ, zero, suc, ◌-◌, ◌≤◌, ◌<◌, ltb, leb, ltb→lt, leb→le, ◌≡◌, refl, if◌then◌else◌, true, false,
  List, [], Str, length, Option, none, some, Bool-cases, inl, inr, arith,
}
use haruka_ai.Rag.Boundaries.{ChunkSizes, choose_chunk_end, trim_rune_range}
use haruka_ai.Rag.Headings.{MarkdownHeading}
use haruka_ai.Rag.Chunk.{TextChunk, new_chunk, next_start, before, chunks_from}
use haruka_ai.Rag.Round.{Good, Good-nil, Round, Good-kept, Good-blank, Round-at}

module _ (sha256_hex : Str → Str) (document runes : Str) (headings : List MarkdownHeading)
    (sizes : ChunkSizes) where
  abbrev range : ℕ → ℕ × ℕ
  range start = trim_rune_range runes start (choose_chunk_end runes start sizes)

  abbrev next : ℕ → ℕ
  next start =
      next_start sha256_hex document runes headings sizes start (choose_chunk_end runes start sizes)

  abbrev new : ℕ → ℕ × ℕ → TextChunk
  new index range = new_chunk sha256_hex document runes headings sizes index range

  abbrev pub loop : ℕ → ℕ → ℕ → Option (List TextChunk)
  loop fuel index start = chunks_from sha256_hex document runes headings sizes fuel index start

  -- What follows a round: nothing at the end of the document, the loop before.
  later : ℕ → ℕ → ℕ → Option (List TextChunk)
  later fuel index start =
      let rest = chunks_from sha256_hex document runes headings sizes fuel index (next start) in
      if leb (length runes) (choose_chunk_end runes start sizes) then some [] else rest

  loop-past :
      (fuel index start : ℕ)
      → ltb start (length runes) ≡ false
      → loop (suc fuel) index start ≡ some []
  unfolding chunks_from
  loop-past fuel index start h = simp h refl

  loop-kept :
      (fuel index start : ℕ)
      → ltb start (length runes) ≡ true
      → ltb (range start).0 (range start).1 ≡ true
      → loop (suc fuel) index start
        ≡ before (new index (range start)) (later fuel (suc index) start)
  unfolding chunks_from later
  loop-kept fuel index start h k = simp (h, k) refl

  loop-blank :
      (fuel index start : ℕ)
      → ltb start (length runes) ≡ true
      → ltb (range start).0 (range start).1 ≡ false
      → loop (suc fuel) index start ≡ later fuel index start
  unfolding chunks_from later
  loop-blank fuel index start h k = simp (h, k) refl

  abbrev pub GoodResult : ℕ → ℕ → ℕ → Option (List TextChunk) → Type 0
  GoodResult index low start none = Unit
  GoodResult index low start (some cs) =
      Good sha256_hex document runes headings sizes index low start cs

  abbrev raw : ℕ → ℕ
  raw start = choose_chunk_end runes start sizes

  -- What follows a round is good behind it, if what the loop gives from the next start is good.
  later-Good :
      (fuel index start : ℕ)
      → next start ≤ raw start
      → GoodResult index (next start) (next start) (loop fuel index (next start))
      → GoodResult index (next start) (raw start) (later fuel index start)
  unfolding later
  later-Good fuel index start within g = elim (Bool-cases (leb (length runes) (raw start))) [
    | inl end ↦ rw end (
        Good-nil sha256_hex document runes headings sizes index (next start) (raw start)
          (leb→le (length runes) (raw start) end))
    | inr on ↦ rw on (weaken (loop fuel index (next start)) g)
  ]
    where
      weaken :
          (o : Option (List TextChunk))
          → GoodResult index (next start) (next start) o
          → GoodResult index (next start) (raw start) o
      weaken none g = tt
      weaken (some cs) g = record {
        pieces = g.pieces;
        covers = λ i l u s. g.covers i (omega (arith, l, within)) u s;
      }

  abbrev RoundAt : ℕ → Type 0
  RoundAt start =
      Round sha256_hex document runes headings sizes start (raw start) (range start).0
        (range start).1 (next start)

  before-Good :
      (index start : ℕ) (o : Option (List TextChunk))
      → RoundAt start
      → ltb (range start).0 (range start).1 ≡ true
      → GoodResult (suc index) (next start) (raw start) o
      → GoodResult index start start (before (new index (range start)) o)
  before-Good index start none r kept g = tt
  before-Good index start (some rest) r kept g =
      Good-kept sha256_hex document runes headings sizes index rest r
        (ltb→lt (range start).0 (range start).1 kept) g

  blank-Good :
      (index start : ℕ) (o : Option (List TextChunk))
      → RoundAt start
      → ltb (range start).0 (range start).1 ≡ false
      → GoodResult index (next start) (raw start) o
      → GoodResult index start start o
  blank-Good index start none r blank g = tt
  blank-Good index start (some rest) r blank g =
      Good-blank sha256_hex document runes headings sizes index rest r (ground (arith, blank)) g

  module _ (m : sizes.min_size ≤ sizes.max_size) where
    pub loop-Good : (fuel index start : ℕ) → GoodResult index start start (loop fuel index start)
    loop-Good zero index start = unfold chunks_from in tt
    loop-Good (suc fuel) index start = elim (Bool-cases (ltb start (length runes))) [
      | inr past ↦ rw (loop-past fuel index start past) (
          Good-nil sha256_hex document runes headings sizes index start start
            (ground (arith, past)))
      | inl within ↦
          let round =
            Round-at sha256_hex document runes headings sizes start m
              (ltb→lt start (length runes) within) in
          elim (Bool-cases (ltb (range start).0 (range start).1)) [
            | inl kept ↦ rw (loop-kept fuel index start within kept) (
                before-Good index start (later fuel (suc index) start) round kept (
                  later-Good fuel (suc index) start round.goes.within
                    (loop-Good fuel (suc index) (next start))))
            | inr blank ↦ rw (loop-blank fuel index start within blank) (
                blank-Good index start (later fuel index start) round blank (
                  later-Good fuel index start round.goes.within
                    (loop-Good fuel index (next start))))
          ]
    ]

  abbrev pub Returns : Option (List TextChunk) → Type 0
  Returns none = ⊥
  Returns (some cs) = Unit

  later-Returns :
      (fuel index start : ℕ)
      → Returns (loop fuel index (next start))
      → Returns (later fuel index start)
  unfolding later
  later-Returns fuel index start h = elim (Bool-cases (leb (length runes) (raw start))) [
    | inl end ↦ rw end tt
    | inr on ↦ rw on h
  ]

  before-Returns : (c : TextChunk) (o : Option (List TextChunk)) → Returns o → Returns (before c o)
  before-Returns c (some cs) h = tt
  before-Returns c none h = h

  -- A chunk's end is past its start, so that the start moves on.
  advances :
      (start : ℕ)
      → 0 < sizes.min_size
      → sizes.min_size ≤ sizes.max_size
      → start < length runes
      → start < next start
  advances start p m within =
      let round = Round-at sha256_hex document runes headings sizes start m within in
      round.goes.advances (omega (arith, p, within, round.chosen.long))

  module _ (p : 0 < sizes.min_size) (m : sizes.min_size ≤ sizes.max_size) where
    pub loop-Returns :
        (fuel index start : ℕ) → length runes - start < fuel → Returns (loop fuel index start)
    loop-Returns zero index start h = absurd (omega (arith, h))
    loop-Returns (suc fuel) index start h = elim (Bool-cases (ltb start (length runes))) [
      | inr past ↦ rw (loop-past fuel index start past) tt
      | inl within ↦
          let more = advances start p m (ltb→lt start (length runes) within) in
          elim (Bool-cases (ltb (range start).0 (range start).1)) [
            | inl kept ↦ rw (loop-kept fuel index start within kept) (
                before-Returns (new index (range start)) (later fuel (suc index) start) (
                  later-Returns fuel (suc index) start (
                    loop-Returns fuel (suc index) (next start)
                      (omega (arith, h, more, ltb→lt start (length runes) within)))))
            | inr blank ↦ rw (loop-blank fuel index start within blank) (
                later-Returns fuel index start (
                  loop-Returns fuel index (next start)
                    (omega (arith, h, more, ltb→lt start (length runes) within))))
          ]
    ]
