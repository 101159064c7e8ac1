-- ===== src/Rag/Ends.antt =====
-- common/rag/chunk.go: the sizes in force, and the bounds of a chunk's end.
use haruka_ai.Base.{
  ℕ, zero, suc, ◌+◌, ◌-◌, ◌==◌, ◌≤◌, ◌<◌, min, ◌≡◌, refl, Bool, false, Str, length, Bool-cases, inl,
  inr, arith, ℤ, pos as int, negsuc, positive_or, not_negative,
}
use haruka_ai.Rag.Boundaries.{
  ChunkOptions, ChunkSizes, normalized_min, overlap_or_default, overlap_below,
  normalized_chunk_options, search_back, or_else, after_paragraph, after_line, after_sentence,
  after_space, choose_chunk_end,
}

-- The sizes that options are repaired to.
pub record Usable (sizes : ChunkSizes) : Type 0 where
  pub min_below : (sizes.min_size < sizes.max_size)
  pub min_Positive : 2 ≤ sizes.max_size → 0 < sizes.min_size
  pub overlap_below_max : sizes.overlap < sizes.max_size

min-bounds :
    (max n : ℕ) → 0 < max → (normalized_min max n < max) × (2 ≤ max → 0 < normalized_min max n)
unfolding normalized_min
min-bounds max n h = ground arith

overlap-bound : (max n : ℕ) → 0 < max → overlap_below max n < max
unfolding overlap_below
overlap-bound max n h = ground arith

max-Positive : (n : ℤ) → 0 < positive_or 1000 n
unfolding positive_or
max-Positive (int zero) = omega arith
max-Positive (int (suc n)) = omega arith
max-Positive (negsuc n) = omega arith

pub normalized_chunk_options-Usable :
    (options : ChunkOptions) → Usable (normalized_chunk_options options)
normalized_chunk_options-Usable options =
    let max = positive_or 1000 options.max_runes in
    let m = min-bounds max (not_negative options.min_runes) (max-Positive options.max_runes) in
    unfold normalized_chunk_options in
    record {
      min_below = m.0;
      min_Positive = m.1;
      overlap_below_max =
          overlap-bound max (overlap_or_default max (not_negative options.overlap_runes))
            (max-Positive options.max_runes);
    }

abbrev Between : ℕ → ℕ → ℕ → Type 0
Between low high x = (low ≤ x) × (x ≤ high)

search_back-miss :
    (p : ℕ → Bool) (rounds end : ℕ)
    → p end ≡ false
    → search_back p (suc rounds) end ≡ search_back p rounds (end - 1)
unfolding search_back
search_back-miss p rounds end miss = rw miss refl

-- A search that finds an end finds one within its rounds; the fallback is used otherwise.
search-Between :
    (p : ℕ → Bool) (low high rounds end fallback : ℕ)
    → end ≤ high
    → low + rounds ≤ end + 1
    → Between low high fallback
    → Between low high (or_else (search_back p rounds end) fallback)
search-Between p low high zero end fallback h e f = unfold search_back or_else in f
search-Between p low high (suc rounds) end fallback h e f = elim (Bool-cases (p end)) [
  | inl hit ↦ unfold search_back or_else in rw hit (omega arith, h)
  | inr miss ↦
      rw (search_back-miss p rounds end miss) (
        search-Between p low high rounds (end - 1) fallback (omega (arith, h)) (omega (arith, e)) f)
]

-- The end of a chunk.
pub record Chosen (runes : Str) (start : ℕ) (sizes : ChunkSizes) (end : ℕ) : Type 0 where
  pub in_text : end ≤ length runes
  pub short : end ≤ start + sizes.max_size
  pub long : min (length runes) (start + sizes.min_size) ≤ end

pub choose_chunk_end-Chosen :
    (runes : Str) (start : ℕ) (sizes : ChunkSizes)
    → sizes.min_size ≤ sizes.max_size
    → Chosen runes start sizes (choose_chunk_end runes start sizes)
choose_chunk_end-Chosen runes start sizes h =
    let size = length runes in
    let max_end = min size (start + sizes.max_size) in
    let min_end = min max_end (start + sizes.min_size) in
    let by = λ (p : ℕ → Bool) (fallback : ℕ) (f : Between min_end max_end fallback).
      search-Between p min_end max_end (max_end + 1 - min_end) max_end fallback (omega arith)
        (omega arith) f in
    let last : Between min_end max_end max_end = (omega arith, omega arith) in
    let spaces = by (after_space runes) max_end last in
    let from_sentences =
      or_else (search_back (after_space runes) (max_end + 1 - min_end) max_end) max_end in
    let sentences = by (after_sentence runes) from_sentences spaces in
    let from_lines =
      or_else (search_back (after_sentence runes) (max_end + 1 - min_end) max_end) from_sentences in
    let lines = by (after_line runes) from_lines sentences in
    let from_paragraphs =
      or_else (search_back (after_line runes) (max_end + 1 - min_end) max_end) from_lines in
    let (high, low) = by (after_paragraph runes) from_paragraphs lines in
    elim (Bool-cases (max_end == size)) [
      | inl whole ↦
          unfold choose_chunk_end in
          rw whole (record { in_text = omega arith; short = omega arith; long = omega arith })
      | inr cut ↦
          unfold choose_chunk_end in
          rw cut (record {
            in_text = omega (arith, low);
            short = omega (arith, low);
            long = omega (arith, high);
          })
    ]
