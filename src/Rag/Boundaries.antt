-- ===== src/Rag/Boundaries.antt =====
-- common/rag/chunk.go: the options, and where a chunk ends. A document is a list of code points.
use haruka_ai.Base.{
  ℕ, zero, suc, ◌+◌, ◌-◌, ◌/◌, ◌==◌, leb, min, if◌then◌else◌, Bool, ◌&&◌, ◌||◌, [], ◌∷◌, length,
  Str, is_space, Option, none, some, ℤ, positive_or, not_negative,
}

abbrev pub default_chunk_max_runes : ℕ
default_chunk_max_runes = 1000

abbrev pub default_chunk_min_runes : ℕ
default_chunk_min_runes = 400

abbrev pub default_chunk_overlap : ℕ
default_chunk_overlap = 120

pub record ChunkOptions : Type 0 where
  pub max_runes : ℤ
  pub min_runes : ℤ
  pub overlap_runes : ℤ

-- The options once they are repaired, which leaves none of them negative.
pub record ChunkSizes : Type 0 where
  pub max_size : ℕ
  pub min_size : ℕ
  pub overlap : ℕ

-- `if n <= 0 || n >= max { n = min(400, max/2) }`
unfoldable pub normalized_min : ℕ → ℕ → ℕ
normalized_min max n = if n == 0 || leb max n then min default_chunk_min_runes (max / 2) else n

unfoldable pub overlap_or_default : ℕ → ℕ → ℕ
overlap_or_default max n = if n == 0 then min default_chunk_overlap (max / 5) else n

unfoldable pub overlap_below : ℕ → ℕ → ℕ
overlap_below max n = if leb max n then max / 5 else n

unfoldable pub normalized_chunk_options : ChunkOptions → ChunkSizes
unfolding positive_or not_negative normalized_min overlap_or_default overlap_below
normalized_chunk_options options =
    let max = positive_or default_chunk_max_runes options.max_runes in
    record {
      max_size = max;
      min_size = normalized_min max (not_negative options.min_runes);
      overlap = overlap_below max (overlap_or_default max (not_negative options.overlap_runes));
    }

-- `runes[i]`; every use of it is within the range.
abbrev pub rune_at : Str → ℕ → ℕ
rune_at [] i = 0
rune_at (r ∷ rs) zero = r
rune_at (r ∷ rs) (suc i) = rune_at rs i

unfoldable pub is_sentence_boundary : ℕ → Bool
is_sentence_boundary r =
    r == b'.'
    || r == b'!'
    || r == b'?'
    || r == b';'
    || r == 0x3002
    || r == 0xff01
    || r == 0xff1f
    || r == 0xff1b
    || r == 0x2026

-- The four classes of a boundary just before `end`.
unfoldable pub after_paragraph : Str → ℕ → Bool
after_paragraph runes end =
    leb 2 end && rune_at runes (end - 1) == 10 && rune_at runes (end - 2) == 10

unfoldable pub after_line : Str → ℕ → Bool
after_line runes end = leb 1 end && rune_at runes (end - 1) == 10

unfoldable pub after_sentence : Str → ℕ → Bool
unfolding is_sentence_boundary
after_sentence runes end = leb 1 end && is_sentence_boundary (rune_at runes (end - 1))

unfoldable pub after_space : Str → ℕ → Bool
after_space runes end = leb 1 end && is_space (rune_at runes (end - 1))

-- `for end := maxEnd; end >= minEnd; end--`, with the number of rounds that are left.
unfoldable pub search_back : (ℕ → Bool) → ℕ → ℕ → Option ℕ
search_back p zero end = none
search_back p (suc rounds) end =
    let rest = search_back p rounds (end - 1) in if p end then some end else rest

unfoldable pub or_else : Option ℕ → ℕ → ℕ
or_else none fallback = fallback
or_else (some end) fallback = end

unfoldable pub choose_chunk_end : Str → ℕ → ChunkSizes → ℕ
unfolding search_back or_else after_paragraph after_line after_sentence after_space
choose_chunk_end runes start options =
    let size = length runes in
    let max_end = min size (start + options.max_size) in
    let min_end = min max_end (start + options.min_size) in
    let search = λ (p : ℕ → Bool). search_back p (max_end + 1 - min_end) max_end in
    if max_end == size
    then max_end
    else or_else (search (after_paragraph runes)) (
        or_else (search (after_line runes))
          (or_else (search (after_sentence runes)) (or_else (search (after_space runes)) max_end)))

-- `for start < end && unicode.IsSpace(runes[start]) { start++ }`, with the distance to `end`.
unfoldable pub skip_spaces : Str → ℕ → ℕ → ℕ
skip_spaces runes zero start = start
skip_spaces runes (suc n) start =
    let rest = skip_spaces runes n (start + 1) in
    if is_space (rune_at runes start) then rest else start

-- `for end > start && unicode.IsSpace(runes[end-1]) { end-- }`
unfoldable pub drop_spaces : Str → ℕ → ℕ → ℕ
drop_spaces runes zero end = end
drop_spaces runes (suc n) end =
    let rest = drop_spaces runes n (end - 1) in
    if is_space (rune_at runes (end - 1)) then rest else end

unfoldable pub trim_rune_range : Str → ℕ → ℕ → ℕ × ℕ
unfolding skip_spaces drop_spaces
trim_rune_range runes start end =
    let first = skip_spaces runes (end - start) start in
    (first, drop_spaces runes (end - first) end)
