-- ===== src/McpSchema/Tests.antt =====
-- Concrete schemas and arguments.
use haruka_ai.Base.{
  ℕ, ◌≤◌, ◌≡◌, refl, true, false, leb, ltb, codes, str_eq, length, none, some, [], ◌∷◌, ◌++◌, Memᴰ,
  is_empty,
}
use haruka_ai.McpSchema.Json.{
  Json, null, boolean, text, array, object, item, nil, Fields, empty, field, lookup, as_text,
  as_object, object_or_empty, Library,
}
use haruka_ai.McpSchema.Keywords.{string_list}
use haruka_ai.McpSchema.Reference.{resolve_local_ref, walk}
use haruka_ai.McpSchema.Node.{
  accepted, rejected, required_missing, not_allowed, validate_schema_node, max_schema_depth,
}
use haruka_ai.McpSchema.Value.{names_or_empty, validate_json_value}
use haruka_ai.McpSchema.Tool.{normalize_schema, all_levels}
use haruka_ai.McpSchema.Pointer.{pointer, resolve_local_ref-pointer}
use haruka_ai.McpSchema.Nested.{of_property, Inside, itself, deeper, first_field}
use haruka_ai.McpSchema.Sane.{Sane}
use haruka_ai.McpSchema.Passing.{normalize_schema-Sane}
use haruka_ai.McpSchema.Closed.{Allowed, validate_json_value-closed}

abbrev name_schema : Fields
name_schema = field (codes "type") (text (codes "string")) empty

-- One string property, which is required, and no others.
abbrev person : Fields
person = field (codes "type") (text (codes "object")) (
    field (codes "properties") (object (field (codes "name") (object name_schema) empty)) (
      field (codes "required") (array (item (text (codes "name")) nil)) (
        field (codes "additionalProperties") (boolean false) (
          field (codes "$defs") (object (field (codes "a/b~") (object name_schema) empty)) empty))))

-- The schema is what every text decodes to.
instance library : Library
library = record {
  Float = ℕ;
  float64 = λ s. some (length s);
  is_less = ltb;
  at_most = leb;
  is_integral = λ x. true;
  zero_float = 0;
  max_int = 9;
  to_int = λ x. x;
  compile = λ p. some (λ s. true);
  marshal = λ v. some (codes "{}");
  decode = λ raw. some (object person, []);
  at_end = is_empty;
}

resolve_local_ref-pointer_example :
    resolve_local_ref person (codes "#/" ++ pointer (codes "$defs" ∷ codes "a/b~" ∷ []))
    ≡ as_object (walk (object person) (codes "$defs" ∷ codes "a/b~" ∷ []))
resolve_local_ref-pointer_example =
    resolve_local_ref-pointer person (codes "$defs") (codes "a/b~" ∷ [])

reference_lem : resolve_local_ref person (codes "#/$defs/a~1b~0") ≡ some name_schema
unfolding resolve_local_ref
reference_lem = refl

normalize_lem : normalize_schema (codes "{}") true ≡ some (codes "{}", person)
unfolding normalize_schema validate_schema_node library
normalize_lem = refl

name-Inside : Inside person 1 name_schema
unfolding str_eq
name-Inside = deeper itself (of_property (codes "name") (first_field refl))

normalize_schema-Sane_example : (1 ≤ max_schema_depth) × Sane person name_schema
normalize_schema-Sane_example =
    normalize_schema-Sane (codes "{}") true (codes "{}") person 1 name_schema normalize_lem
      name-Inside

abbrev ann : Fields
ann = field (codes "name") (text (codes "Ann")) empty

ann_lem : validate_json_value all_levels person (object ann) person ≡ accepted
unfolding validate_json_value
ann_lem = refl

nobody_lem : validate_json_value all_levels person (object empty) person ≡ rejected required_missing
unfolding validate_json_value
nobody_lem = refl

extra_lem :
    validate_json_value all_levels person (object (field (codes "age") null ann)) person
    ≡ rejected not_allowed
unfolding validate_json_value
extra_lem = refl

direct_lem : as_text (lookup (codes "$ref") person) ≡ none
unfolding str_eq
direct_lem = refl

validate_json_value-closed_example :
    ((child : Json)
      → lookup (codes "name") ann ≡ some child
      → Allowed
          (validate_json_value 32 person)
          child
          (lookup (codes "name") (object_or_empty (lookup (codes "properties") person)))
          (lookup (codes "additionalProperties") person))
    × (Memᴰ (codes "name") (names_or_empty (string_list (lookup (codes "required") person)))
        → (child : Json) × (lookup (codes "name") ann ≡ some child))
validate_json_value-closed_example =
    validate_json_value-closed 32 person ann person (codes "name") direct_lem ann_lem
