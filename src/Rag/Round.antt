-- ===== src/Rag/Round.antt =====
-- common/rag/chunk.go: one round of the loop over a document, and what a list of chunks is to be.
use haruka_ai.Base.{
  ℕ, suc, ◌+◌, ◌-◌, ◌≤◌, ◌<◌, ltb, leb, ltb→lt, min, ◌≡◌, refl, List, [], ◌∷◌, Str, length,
  Bool-cases, inl, inr, arith, ◌⊎◌,
}
use haruka_ai.Rag.Boundaries.{ChunkSizes, choose_chunk_end, skip_spaces, trim_rune_range}
use haruka_ai.Rag.Headings.{MarkdownHeading}
use haruka_ai.Rag.Chunk.{TextChunk, new_chunk, next_start}
use haruka_ai.Rag.Ranges.{Seen, skip_spaces-Skipped, Trimmed, trim_rune_range-Trimmed}
use haruka_ai.Rag.Ends.{Chosen, choose_chunk_end-Chosen}

-- A chunk holds the rune at an offset.
abbrev pub Holds : ℕ → List TextChunk → Type 0
Holds i [] = ⊥
Holds i (c ∷ cs) = ((c.start_rune ≤ i) × (i < c.end_rune)) ⊎ Holds i cs

-- Every rune from an offset on that is not white space is in a chunk.
abbrev pub Covered : Str → ℕ → List TextChunk → Type 0
Covered runes start cs = (i : ℕ) → start ≤ i → i < length runes → Seen runes i → Holds i cs

module _ (sha256_hex : Str → Str) (document runes : Str) (headings : List MarkdownHeading)
    (sizes : ChunkSizes) where
  -- The chunk of a number.
  pub record Piece (index : ℕ) (c : TextChunk) : Type 0 where
    pub made :
        c ≡ new_chunk sha256_hex document runes headings sizes index (c.start_rune, c.end_rune)
    pub nonempty : c.start_rune < c.end_rune
    pub in_text : c.end_rune ≤ length runes
    pub short : c.end_rune ≤ c.start_rune + sizes.max_size
    pub opens : Seen runes c.start_rune
    pub closes : Seen runes (c.end_rune - 1)

  -- Chunks that are numbered in order, each of which goes back behind the end of the one before it
  -- by the overlap at most.
  abbrev pub Pieces : ℕ → ℕ → List TextChunk → Type 0
  Pieces low index [] = Unit
  Pieces low index (c ∷ cs) =
      (low ≤ c.start_rune) × Piece index c × Pieces (c.end_rune - sizes.overlap) (suc index) cs

  Pieces-weaken :
      (low low' index : ℕ) (cs : List TextChunk)
      → low' ≤ low
      → Pieces low index cs
      → Pieces low' index cs
  Pieces-weaken low low' index [] h p = tt
  Pieces-weaken low low' index (c ∷ cs) h p = (omega (arith, h, p.0), p.1, p.2)

  pub record Next (start raw next : ℕ) : Type 0 where
    pub not_back : start ≤ next
    pub overlaps : raw ≤ next + sizes.overlap
    pub within : next ≤ raw
    pub advances : start < raw → start < next

  from-Next :
      (start raw base : ℕ)
      → start ≤ base
      → base ≤ raw
      → raw ≤ base + sizes.overlap
      → (start < raw → start < base)
      → Next start raw (skip_spaces runes (min raw (length runes) - base) base)
  from-Next start raw base h b o a =
      let s = skip_spaces-Skipped runes (min raw (length runes) - base) base in
      record {
        not_back = omega (arith, h, s.above);
        overlaps = omega (arith, o, s.above);
        within = omega (arith, b, s.below);
        advances = λ u. omega (arith, a u, s.above);
      }

  pub next_start-Next :
      (start raw : ℕ)
      → start ≤ raw
      → Next start raw (next_start sha256_hex document runes headings sizes start raw)
  next_start-Next start raw h = elim (Bool-cases (leb (raw - sizes.overlap) start)) [
    | inl all ↦
        unfold next_start in rw all (from-Next start raw raw h (omega arith) (omega arith) (λ u. u))
    | inr part ↦
        let above : start < raw - sizes.overlap = ground (arith, part) in
        unfold next_start in
        rw part (
          from-Next start raw (raw - sizes.overlap) (omega (arith, above)) (omega arith)
            (omega arith) (λ u. above))
  ]

  -- Chunks from a number on that start at `low` at least and cover the document from `start` on.
  pub record Good (index low start : ℕ) (cs : List TextChunk) : Type 0 where
    pub pieces : Pieces low index cs
    pub covers : Covered runes start cs

  pub Good-nil : (index low start : ℕ) → length runes ≤ start → Good index low start []
  Good-nil index low start h = record {
    pieces = tt;
    covers = λ i l u s. absurd (omega (arith, h, l, u));
  }

  -- A visible rune of a range is in what the trimming leaves.
  visible-Trimmed :
      {start raw first last : ℕ} (t : Trimmed runes start raw first last) (i : ℕ)
      → start ≤ i
      → i < raw
      → Seen runes i
      → (first ≤ i) × (i < last)
  visible-Trimmed {start} {raw} {first} {last} t i l u s = elim (Bool-cases (ltb i first)) [
    | inl below ↦ let blank = t.before i l (ltb→lt i first below) in cc
    | inr from ↦ elim (Bool-cases (ltb i last)) [
      | inl inside ↦ (ground (arith, from), ground (arith, inside))
      | inr above ↦ let blank = t.after i (ground (arith, above)) u in cc
    ]
  ]

  -- A round: the end of the chunk, the range that is left of it, and the next start.
  pub record Round (start raw first last next : ℕ) : Type 0 where
    pub within : start < length runes
    pub chosen : Chosen runes start sizes raw
    pub trimmed : Trimmed runes start raw first last
    pub goes : Next start raw next

  pub Good-kept :
      {start raw first last next : ℕ}
      → (index : ℕ) (rest : List TextChunk) → Round start raw first last next
      → first < last
      → Good (suc index) next raw rest
      → Good index start start
          (new_chunk sha256_hex document runes headings sizes index (first, last) ∷ rest)
  unfolding new_chunk
  Good-kept {start} {raw} {first} {last} {next} index rest r kept g = record {
    pieces = (
      r.trimmed.above,
      record {
        made = refl;
        nonempty = kept;
        in_text = omega (arith, r.trimmed.below, r.chosen.in_text);
        short = omega (arith, r.trimmed.below, r.trimmed.above, r.chosen.short);
        opens = r.trimmed.opens kept;
        closes = r.trimmed.closes kept;
      },
      Pieces-weaken next (last - sizes.overlap) (suc index) rest
          (omega (arith, r.goes.overlaps, r.trimmed.below)) g.pieces,
    );
    covers = λ i l u s. elim (Bool-cases (ltb i raw)) [
      | inl here ↦ inl (visible-Trimmed r.trimmed i l (ltb→lt i raw here) s)
      | inr later ↦ inr (g.covers i (ground (arith, later)) u s)
    ];
  }

  pub Good-blank :
      {start raw first last next : ℕ}
      → (index : ℕ) (rest : List TextChunk) → Round start raw first last next
      → last ≤ first
      → Good index next raw rest
      → Good index start start rest
  Good-blank {start} {raw} {first} {last} {next} index rest r blank g = record {
    pieces = Pieces-weaken next start index rest r.goes.not_back g.pieces;
    covers = λ i l u s. elim (Bool-cases (ltb i raw)) [
      | inl here ↦
          let inside = visible-Trimmed r.trimmed i l (ltb→lt i raw here) s in
          absurd (omega (arith, inside, blank))
      | inr later ↦ g.covers i (ground (arith, later)) u s
    ];
  }

  abbrev pub range_at : ℕ → ℕ × ℕ
  range_at start = trim_rune_range runes start (choose_chunk_end runes start sizes)

  abbrev pub next_at : ℕ → ℕ
  next_at start =
      next_start sha256_hex document runes headings sizes start (choose_chunk_end runes start sizes)

  pub Round-at :
      (start : ℕ)
      → sizes.min_size ≤ sizes.max_size
      → start < length runes
      → Round start
          (choose_chunk_end runes start sizes)
          (range_at start).0
          (range_at start).1
          (next_at start)
  Round-at start m within =
      let raw = choose_chunk_end runes start sizes in
      let c = choose_chunk_end-Chosen runes start sizes m in
      let forward : start ≤ raw = omega (arith, c.long, within) in
      record {
        within = within;
        chosen = c;
        trimmed = trim_rune_range-Trimmed runes start raw forward;
        goes = next_start-Next start raw forward;
      }
