-- ===== src/McpSchema/Reference.antt =====
-- common/mcphub/schema.go: resolveLocalRef, with the standard library's `strings.Split` and
-- `strings.ReplaceAll` as far as it calls them.
use haruka_ai.Base.{
  ℕ, ◌==◌, if◌then◌else◌, ◌&&◌, Str, codes, strip_prefix, str_eq, Option, none, some, List, [], ◌∷◌,
  ◌++◌,
}
use haruka_ai.McpSchema.Json.{Json, object, Fields, lookup, as_object}

-- `strings.Split(s, "/")`, after the start `token` of the first part.
unfoldable pub split : Str → Str → List Str
split token [] = token ∷ []
split token (c ∷ s) =
    let rest = split (if c == b'/' then [] else token ++ c ∷ []) s in
    if c == b'/' then token ∷ rest else rest

-- `strings.ReplaceAll(s, "~d", new)`, for a digit and one rune.
unfoldable pub replace_escape : ℕ → ℕ → Str → Str
replace_escape digit new [] = []
replace_escape digit new (c ∷ []) = c ∷ []
replace_escape digit new (c ∷ d ∷ s) =
    let found = c == b'~' && d == digit in
    let after = replace_escape digit new s in
    let next = replace_escape digit new (d ∷ s) in if found then new ∷ after else c ∷ next

unfoldable pub unescape : Str → Str
unfolding replace_escape
unescape token = replace_escape b'0' b'~' (replace_escape b'1' b'/' token)

-- The loop over the tokens.
unfoldable pub walk : Json → List Str → Option Json
unfolding str_eq
walk current [] = some current
walk (object fields) (token ∷ tokens) = elim (lookup token fields) [
  | none ↦ none
  | some next ↦ walk next tokens
]
walk _ (token ∷ tokens) = none

unfoldable pub unescape_all : List Str → List Str
unfolding unescape
unescape_all [] = []
unescape_all (token ∷ tokens) = unescape token ∷ unescape_all tokens

unfoldable pub resolve_tokens : Fields → Option Str → Option Fields
unfolding split unescape_all walk
resolve_tokens root none = none
resolve_tokens root (some pointer) =
    as_object (walk (object root) (unescape_all (split [] pointer)))

-- `none` for the errors.
unfoldable pub resolve_local_ref : Fields → Str → Option Fields
unfolding resolve_tokens strip_prefix
resolve_local_ref root reference = resolve_tokens root (strip_prefix (codes "#/") reference)
