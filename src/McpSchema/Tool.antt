-- ===== src/McpSchema/Tool.antt =====
-- common/mcphub/schema.go: normalizeSchema and ValidateArguments, the checks of a tool's schema and
-- of the arguments of a call.
use haruka_ai.Base.{
  ℕ, suc, ◌==◌, ltb, Bool, false, not, if◌then◌else◌, ◌&&◌, ◌||◌, Str, codes, length, Option, none,
  some,
}
use haruka_ai.McpSchema.Json.{
  Json, null, text, object, Fields, field, lookup, object_or_empty, Library,
}
use haruka_ai.McpSchema.Keywords.{schema_allows_type}
use haruka_ai.McpSchema.Node.{Verdict, accepted, rejected, validate_schema_node, max_schema_depth}
use haruka_ai.McpSchema.Value.{passes, validate_json_value}

abbrev pub max_tool_schema_bytes : ℕ
max_tool_schema_bytes = 262144

abbrev pub max_arguments_bytes : ℕ
max_arguments_bytes = 1048576

-- The levels below and at the root: depth 0 to the limit.
abbrev pub all_levels : ℕ
all_levels = suc max_schema_depth

-- Decoding into a map: an object, or null, which leaves the map nil.
unfoldable pub as_map : Option (Json × Str) → Option (Json × Str)
as_map (some (object fields, rest)) = some (object fields, rest)
as_map (some (null, rest)) = some (null, rest)
as_map _ = none

-- `if _, hasType := ...; !hasType { if _, hasProperties := ...; hasProperties { ... } }`
unfoldable pub with_type : Json → Json
with_type (object fields) = elim (lookup (codes "type") fields) [
  | some t ↦ object fields
  | none ↦ elim (lookup (codes "properties") fields) [
    | none ↦ object fields
    | some p ↦ object (field (codes "type") (text (codes "object")) fields)
  ]
]
with_type other = other

unfoldable pub encoded : Fields → Verdict → Option Str → Option (Str × Fields)
encoded fields (rejected fault) canonical = none
encoded fields accepted none = none
encoded fields accepted (some canonical) = some (canonical, fields)

module _ ⦃lib : Library⦄ where
  -- `normalizeSchema` with `decodeSingleJSON`: the canonical bytes and the decoded schema.
  unfoldable pub normalize_decoded : Bool → Json → Option (Str × Fields)
  unfolding schema_allows_type encoded
  normalize_decoded require_object decoded =
      let fields = object_or_empty (some decoded) in
      if require_object && not (schema_allows_type fields (codes "object"))
      then none
      else encoded fields (validate_schema_node all_levels fields fields) (lib.marshal decoded)

  unfoldable pub normalize_single : Bool → Option (Json × Str) → Option (Str × Fields)
  unfolding normalize_decoded with_type
  normalize_single require_object none = none
  normalize_single require_object (some (decoded, rest)) =
      if lib.at_end rest then normalize_decoded require_object (with_type decoded) else none

  unfoldable pub normalize_schema : Str → Bool → Option (Str × Fields)
  unfolding normalize_single as_map
  normalize_schema raw require_object =
      if length raw == 0 || ltb max_tool_schema_bytes (length raw)
      then none
      else normalize_single require_object (as_map (lib.decode raw))

  -- Whether the error of `ValidateArguments` is nil, by the encoded arguments and the decoded schema.
  unfoldable pub arguments_match : Option Str → Option (Json × Str) → Fields → Bool
  arguments_match none schema arguments = false
  arguments_match (some bytes) none arguments = false
  arguments_match (some bytes) (some (root, rest)) arguments =
      let fields = object_or_empty (some root) in
      not (ltb max_arguments_bytes (length bytes))
      && passes (validate_json_value all_levels fields (object arguments) fields)

  unfoldable pub validate_arguments : Str → Fields → Bool
  unfolding arguments_match as_map
  validate_arguments input_schema arguments =
      arguments_match (lib.marshal (object arguments)) (as_map (lib.decode input_schema)) arguments
