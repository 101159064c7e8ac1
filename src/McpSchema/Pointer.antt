-- ===== src/McpSchema/Pointer.antt =====
-- common/mcphub/schema.go: a reference that is written as RFC 6901 says leads to what it names.
use haruka_ai.Base.{
  ℕ, ◌==◌, ◌≡◌, refl, sym, ap, ◌∙◌, true, false, Bool-cases, inl, inr, if◌then◌else◌, Str, codes,
  strip_prefix-append, some, List, [], ◌∷◌, ◌++◌, arith,
}
use mathlib.Core.List.{append_assoc, append-nil}
use haruka_ai.McpSchema.Json.{Fields, object, as_object}
use haruka_ai.McpSchema.Reference.{
  split, replace_escape, unescape, unescape_all, walk, resolve_tokens, resolve_local_ref,
}

-- `~` is written `~0`, and `/` is written `~1`.
abbrev pub escape : Str → Str
escape [] = []
escape (c ∷ s) =
    let rest = escape s in
    if c == b'~' then b'~' ∷ b'0' ∷ rest else (if c == b'/' then b'~' ∷ b'1' ∷ rest else c ∷ rest)

-- The tokens of a path, with slashes between them.
abbrev pub pointer : List Str → Str
pointer [] = []
pointer (k ∷ []) = escape k
pointer (k ∷ l ∷ keys) = escape k ++ b'/' ∷ pointer (l ∷ keys)

-- A text after the first of the two replacements.
halfway : Str → Str
halfway [] = []
halfway (c ∷ s) = if c == b'~' then b'~' ∷ b'0' ∷ halfway s else c ∷ halfway s

replace-other :
    (digit new c : ℕ) (s : Str)
    → (c == b'~') ≡ false
    → replace_escape digit new (c ∷ s) ≡ c ∷ replace_escape digit new s
unfolding replace_escape
replace-other digit new c [] h = refl
replace-other digit new c (d ∷ s) h = rw h refl

same : (k c : ℕ) → (c == k) ≡ true → k ≡ c
same k c h = ground (arith, h)

replace-hit :
    (new digit : ℕ) (s : Str)
    → replace_escape digit new (b'~' ∷ digit ∷ s) ≡ new ∷ replace_escape digit new s
unfolding replace_escape
replace-hit new digit s = let hit : (digit == digit) ≡ true = ground arith in rw hit refl

replace-miss :
    (new : ℕ) (s : Str)
    → replace_escape b'1' new (b'~' ∷ b'0' ∷ s) ≡ b'~' ∷ b'0' ∷ replace_escape b'1' new s
unfolding replace_escape
replace-miss new s = ap (◌∷◌ b'~') (replace-other b'1' new b'0' s refl)

replace-slash : (s : Str) → replace_escape b'1' b'/' (escape s) ≡ halfway s
unfolding halfway
replace-slash [] = unfold replace_escape in refl
replace-slash (c ∷ s) = elim (Bool-cases (c == b'~')) [
  | inl tilde ↦
      rw tilde (replace-miss b'/' (escape s) ∙ ap (λ t. b'~' ∷ b'0' ∷ t) (replace-slash s))
  | inr plain ↦ rw plain (elim (Bool-cases (c == b'/')) [
    | inl slash ↦
        rw slash (replace-hit b'/' b'1' (escape s) ∙ λ i. same b'/' c slash i ∷ replace-slash s i)
    | inr other ↦
        rw other (replace-other b'1' b'/' c (escape s) plain ∙ ap (◌∷◌ c) (replace-slash s))
  ])
]

replace-tilde : (s : Str) → replace_escape b'0' b'~' (halfway s) ≡ s
unfolding halfway
replace-tilde [] = unfold replace_escape in refl
replace-tilde (c ∷ s) = elim (Bool-cases (c == b'~')) [
  | inl tilde ↦
      rw tilde (replace-hit b'~' b'0' (halfway s) ∙ λ i. same b'~' c tilde i ∷ replace-tilde s i)
  | inr plain ↦
      rw plain (replace-other b'0' b'~' c (halfway s) plain ∙ ap (◌∷◌ c) (replace-tilde s))
]

unescape-escape : (s : Str) → unescape (escape s) ≡ s
unfolding unescape
unescape-escape s = ap (replace_escape b'0' b'~') (replace-slash s) ∙ replace-tilde s

abbrev NoSlash : Str → Type 0
NoSlash [] = Unit
NoSlash (c ∷ s) = ((c == b'/') ≡ false) × NoSlash s

escape-NoSlash : (s : Str) → NoSlash (escape s)
escape-NoSlash [] = tt
escape-NoSlash (c ∷ s) = elim (Bool-cases (c == b'~')) [
  | inl tilde ↦ rw tilde (refl, (refl, escape-NoSlash s))
  | inr plain ↦ rw plain (elim (Bool-cases (c == b'/')) [
    | inl slash ↦ rw slash (refl, (refl, escape-NoSlash s))
    | inr other ↦ rw other (other, escape-NoSlash s)
  ])
]

split-on :
    (token : Str) (c : ℕ) (s : Str)
    → (c == b'/') ≡ false
    → split token (c ∷ s) ≡ split (token ++ c ∷ []) s
unfolding split
split-on token c s h = rw h refl

-- A part is split off at the first slash.
split-slash :
    (token s t : Str) → NoSlash s → split token (s ++ b'/' ∷ t) ≡ (token ++ s) ∷ split [] t
split-slash token [] t h = unfold split in ap (λ u. u ∷ split [] t) (sym (append-nil token))
split-slash token (c ∷ s) t h =
    split-on token c (s ++ b'/' ∷ t) h.0
    ∙ split-slash (token ++ c ∷ []) s t h.1
    ∙ ap (λ u. u ∷ split [] t) (append_assoc token (c ∷ []) s)

split-whole : (token s : Str) → NoSlash s → split token s ≡ (token ++ s) ∷ []
split-whole token [] h = unfold split in ap (λ u. u ∷ []) (sym (append-nil token))
split-whole token (c ∷ s) h =
    split-on token c s h.0
    ∙ split-whole (token ++ c ∷ []) s h.1
    ∙ ap (λ u. u ∷ []) (append_assoc token (c ∷ []) s)

tokens-pointer :
    (k : Str) (keys : List Str) → unescape_all (split [] (pointer (k ∷ keys))) ≡ k ∷ keys
unfolding unescape_all
tokens-pointer k [] =
    ap unescape_all (split-whole [] (escape k) (escape-NoSlash k))
    ∙ ap (λ u. u ∷ []) (unescape-escape k)
tokens-pointer k (l ∷ keys) =
    ap unescape_all (split-slash [] (escape k) (pointer (l ∷ keys)) (escape-NoSlash k)) ∙ λ i.
    unescape-escape k i ∷ tokens-pointer l keys i

-- A reference that is `#/` and a path of keys, one at least, each with `~` written `~0` and `/`
-- written `~1`, with a slash between each two, is resolved to the object that the keys lead to from
-- the root, and refused exactly if they lead to none.
pub resolve_local_ref-pointer :
    (root : Fields) (k : Str) (keys : List Str)
    → resolve_local_ref root (codes "#/" ++ pointer (k ∷ keys))
      ≡ as_object (walk (object root) (k ∷ keys))
unfolding resolve_local_ref
resolve_local_ref-pointer root k keys =
    ap (resolve_tokens root) (strip_prefix-append (codes "#/") (pointer (k ∷ keys))) ∙ resolved
  where
    resolved :
        resolve_tokens root (some (pointer (k ∷ keys))) ≡ as_object (walk (object root) (k ∷ keys))
    resolved = ap (λ tokens. as_object (walk (object root) tokens)) (tokens-pointer k keys)
