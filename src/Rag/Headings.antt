-- ===== src/Rag/Headings.antt =====
-- common/rag/chunk.go: the headings of a Markdown document, and the path of them above an offset.
use haruka_ai.Base.{
  ℕ, zero, suc, ◌+◌, ◌-◌, ◌==◌, ltb, if◌then◌else◌, Bool, false, not, ◌&&◌, List, [], ◌∷◌, ◌++◌,
  length, map, drop, select, Str, codes, is_space, trim_space, is_empty,
}

pub record MarkdownHeading : Type 0 where
  pub offset : ℕ
  pub level : ℕ
  pub title : Str

-- The number signs at the start, up to a limit.
unfoldable pub signs : ℕ → Str → ℕ
signs zero line = 0
signs (suc n) [] = 0
signs (suc n) (c ∷ line) = let rest = signs n line in if c == b'#' then suc rest else 0

unfoldable pub starts_with_space : Str → Bool
unfolding is_space
starts_with_space [] = false
starts_with_space (c ∷ s) = is_space c

-- `strings.TrimRight(title, "#")`
unfoldable pub trim_signs : Str → Str
trim_signs [] = []
trim_signs (c ∷ s) = elim (trim_signs s) [
  | [] ↦ if c == b'#' then [] else c ∷ []
  | d ∷ t ↦ c ∷ d ∷ t
]

unfoldable pub heading_title : Str → Str
unfolding trim_space trim_signs
heading_title text = trim_space (trim_signs (trim_space text))

-- The heading that a line is, if it is one.
unfoldable pub line_heading : ℕ → Str → List MarkdownHeading
unfolding signs starts_with_space heading_title is_empty
line_heading offset line =
    let level = signs 6 line in
    let text = drop level line in
    if ltb 0 level && starts_with_space text && not (is_empty (heading_title text))
    then record { offset = offset; level = level; title = heading_title text } ∷ []
    else []

-- The rest of the document, after the start `line` of the line at `offset`.
unfoldable pub lines_headings : ℕ → Str → Str → List MarkdownHeading
unfolding line_heading
lines_headings offset line [] = line_heading offset line
lines_headings offset line (r ∷ runes) =
    let feed = r == 10 in
    let rest =
      lines_headings (if feed then offset + length line + 1 else offset)
        (if feed then [] else line ++ r ∷ []) runes in
    if feed then line_heading offset line ++ rest else rest

unfoldable pub parse_markdown_headings : Str → List MarkdownHeading
unfolding lines_headings
parse_markdown_headings runes = lines_headings 0 [] runes

-- The title of a level, for which the deeper ones go.
unfoldable pub set_level : ℕ → Str → List Str → List Str
set_level n title [] = []
set_level zero title (t ∷ levels) = title ∷ map (λ _. []) levels
set_level (suc n) title (t ∷ levels) = t ∷ set_level n title levels

-- The titles by level once the headings up to an offset are read.
unfoldable pub levels_at : List MarkdownHeading → ℕ → List Str → List Str
unfolding set_level
levels_at [] offset levels = levels
levels_at (h ∷ headings) offset levels =
    let rest = levels_at headings offset (set_level (h.level - 1) h.title levels) in
    if ltb offset h.offset then levels else rest

-- `strings.Join(path, " > ")`
unfoldable pub join_path : List Str → Str
join_path [] = []
join_path (t ∷ []) = t
join_path (t ∷ u ∷ path) = t ++ codes " > " ++ join_path (u ∷ path)

unfoldable pub heading_path_at : List MarkdownHeading → ℕ → Str
unfolding levels_at join_path is_empty
heading_path_at headings offset =
    join_path (
      select (λ t. not (is_empty t)) (levels_at headings offset ([] ∷ [] ∷ [] ∷ [] ∷ [] ∷ [] ∷ [])))
