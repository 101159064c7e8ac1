-- ===== src/McpSchema/Value.antt =====
-- common/mcphub/schema.go: validateJSONValue. The paths of the messages are left out, and the depth
-- is counted down from its limit.
use haruka_ai.Base.{
  ℕ, zero, suc, ◌==◌, ltb, Bool, true, false, not, if◌then◌else◌, ◌&&◌, ◌||◌, Str, codes, str_eq,
  length, Option, none, some, List, [], ◌∷◌,
}
use haruka_ai.McpSchema.Json.{
  Json, null, boolean, number, text, array, object, Items, nil, item, Fields, empty, field, lookup,
  as_text, object_or_empty, fields_len, items_len, Library,
}
use haruka_ai.McpSchema.Keywords.{
  schema_allows_type, schema_types, string_list, number_value, integer_keyword, matches_types,
  same_json, matches_any_json,
}
use haruka_ai.McpSchema.Reference.{resolve_local_ref}
use haruka_ai.McpSchema.Node.{
  Fault, too_deep, bad_reference, no_match, not_one_match, not_in_enum, not_the_constant,
  wrong_type, required_missing, not_allowed, too_few, too_many, too_short, too_long, bad_format,
  not_numeric, not_integer, below_minimum, above_maximum, Verdict, accepted, rejected, ◌then_check◌,
  reject_if,
}

abbrev pub passes : Verdict → Bool
passes accepted = true
passes (rejected fault) = false

-- A bound that is given, and a test of it.
unfoldable pub bounded : {A : Type 0} → Option A → (A → Bool) → Fault → Verdict
unfolding reject_if
bounded none beyond fault = accepted
bounded (some bound) beyond fault = reject_if (beyond bound) fault

unfoldable pub required_present : Fields → List Str → Verdict
unfolding str_eq
required_present value [] = accepted
required_present value (name ∷ names) = elim (lookup name value) [
  | none ↦ rejected required_missing
  | some child ↦ required_present value names
]

-- `required, _ := stringList(...)`: an error leaves no names.
unfoldable pub names_or_empty : Option (List Str) → List Str
names_or_empty none = []
names_or_empty (some names) = names

module _ (recur : Json → Fields → Verdict) where
  unfoldable pub match_all : Json → Items → Verdict
  match_all value nil = accepted
  match_all value (item raw rest) =
      recur value (object_or_empty (some raw)) then_check match_all value rest

  unfoldable pub match_any : Json → Items → Bool
  match_any value nil = false
  match_any value (item raw rest) =
      passes (recur value (object_or_empty (some raw))) || match_any value rest

  unfoldable pub count_matches : Json → Items → ℕ
  count_matches value nil = 0
  count_matches value (item raw rest) =
      let others = count_matches value rest in
      if passes (recur value (object_or_empty (some raw))) then suc others else others

  unfoldable pub check_all_of : Json → Option Json → Verdict
  unfolding match_all
  check_all_of value (some (array branches)) = match_all value branches
  check_all_of value _ = accepted

  unfoldable pub check_any_of : Json → Option Json → Verdict
  unfolding match_any reject_if
  check_any_of value (some (array branches)) = reject_if (not (match_any value branches)) no_match
  check_any_of value _ = accepted

  unfoldable pub check_one_of : Json → Option Json → Verdict
  unfolding count_matches reject_if
  check_one_of value (some (array branches)) =
      reject_if (not (count_matches value branches == 1)) not_one_match
  check_one_of value _ = accepted

  -- A property that the schema does not name.
  unfoldable pub check_extra : Json → Option Json → Verdict
  check_extra value (some (boolean b)) = if b then accepted else rejected not_allowed
  check_extra value (some (object additional)) = recur value additional
  check_extra value _ = accepted

  unfoldable pub check_property : Json → Option Json → Option Json → Verdict
  unfolding check_extra
  check_property value (some raw) additional = recur value (object_or_empty (some raw))
  check_property value none additional = check_extra value additional

  unfoldable pub check_each_property : Fields → Option Json → Fields → Verdict
  unfolding check_property str_eq
  check_each_property properties additional empty = accepted
  check_each_property properties additional (field name value rest) =
      check_property value (lookup name properties) additional
      then_check check_each_property properties additional rest

  unfoldable pub check_each_item : Fields → Items → Verdict
  check_each_item schema nil = accepted
  check_each_item schema (item value rest) =
      recur value schema then_check check_each_item schema rest

  unfoldable pub check_item_schema : Option Json → Items → Verdict
  unfolding check_each_item
  check_item_schema (some (object items)) value = check_each_item items value
  check_item_schema _ value = accepted

module _ ⦃lib : Library⦄ where
  unfoldable pub check_enum : Json → Option Json → Verdict
  unfolding matches_any_json reject_if
  check_enum value (some (array enum)) = reject_if (not (matches_any_json value enum)) not_in_enum
  check_enum value _ = accepted

  unfoldable pub check_const : Json → Option Json → Verdict
  unfolding same_json reject_if
  check_const value none = accepted
  check_const value (some constant) = reject_if (not (same_json value constant)) not_the_constant

  unfoldable pub check_types : Json → List Str → Verdict
  unfolding matches_types reject_if
  check_types value [] = accepted
  check_types value (t ∷ types) = reject_if (not (matches_types value (t ∷ types))) wrong_type

  unfoldable pub validate_object : (Json → Fields → Verdict) → Fields → Fields → Verdict
  unfolding required_present names_or_empty string_list check_each_property bounded integer_keyword
      str_eq
  validate_object recur value schema =
      required_present value (names_or_empty (string_list (lookup (codes "required") schema)))
      then_check check_each_property recur (object_or_empty (lookup (codes "properties") schema))
          (lookup (codes "additionalProperties") schema) value
      then_check bounded (integer_keyword (lookup (codes "minProperties") schema))
          (λ minimum. ltb (fields_len value) minimum) too_few
      then_check bounded (integer_keyword (lookup (codes "maxProperties") schema))
          (λ maximum. ltb maximum (fields_len value)) too_many

  unfoldable pub validate_array : (Json → Fields → Verdict) → Items → Fields → Verdict
  unfolding check_item_schema bounded integer_keyword str_eq
  validate_array recur value schema =
      bounded (integer_keyword (lookup (codes "minItems") schema))
        (λ minimum. ltb (items_len value) minimum) too_few
      then_check bounded (integer_keyword (lookup (codes "maxItems") schema))
          (λ maximum. ltb maximum (items_len value)) too_many
      then_check check_item_schema recur (lookup (codes "items") schema) value

  unfoldable pub check_format : Str → Option Json → Verdict
  unfolding reject_if
  check_format value (some (text pattern)) = elim (lib.compile pattern) [
    | none ↦ rejected bad_format
    | some matches ↦ reject_if (not (matches value)) bad_format
  ]
  check_format value _ = accepted

  unfoldable pub validate_string : Str → Fields → Verdict
  unfolding check_format bounded integer_keyword str_eq
  validate_string value schema =
      bounded (integer_keyword (lookup (codes "minLength") schema))
        (λ minimum. ltb (length value) minimum) too_short
      then_check bounded (integer_keyword (lookup (codes "maxLength") schema))
          (λ maximum. ltb maximum (length value)) too_long
      then_check check_format value (lookup (codes "pattern") schema)

  unfoldable pub validate_float : lib.Float → Fields → Verdict
  unfolding schema_allows_type bounded number_value reject_if str_eq
  validate_float x schema =
      reject_if
        (schema_allows_type schema (codes "integer")
          && not (schema_allows_type schema (codes "number"))
          && not (lib.is_integral x))
        not_integer
      then_check bounded (number_value (lookup (codes "minimum") schema))
          (λ minimum. lib.is_less x minimum) below_minimum
      then_check bounded (number_value (lookup (codes "maximum") schema))
          (λ maximum. lib.is_less maximum x) above_maximum
      then_check bounded (number_value (lookup (codes "exclusiveMinimum") schema))
          (λ minimum. lib.at_most x minimum) below_minimum
      then_check bounded (number_value (lookup (codes "exclusiveMaximum") schema))
          (λ maximum. lib.at_most maximum x) above_maximum

  unfoldable pub validate_number : Option lib.Float → Fields → Verdict
  unfolding validate_float
  validate_number none schema = rejected not_numeric
  validate_number (some x) schema = validate_float x schema

  unfoldable pub validate_kind : (Json → Fields → Verdict) → Json → Fields → Verdict
  unfolding validate_object validate_array validate_string validate_number number_value
  validate_kind recur (object value) schema = validate_object recur value schema
  validate_kind recur (array value) schema = validate_array recur value schema
  validate_kind recur (text value) schema = validate_string value schema
  validate_kind recur (number s) schema = validate_number (lib.float64 s) schema
  validate_kind recur null schema = accepted
  validate_kind recur (boolean b) schema = accepted

  -- A value against a schema that is no reference.
  unfoldable pub validate_here : (Json → Fields → Verdict) → Json → Fields → Verdict
  unfolding check_all_of check_any_of check_one_of check_enum check_const check_types schema_types
      validate_kind str_eq
  validate_here recur value schema =
      check_all_of recur value (lookup (codes "allOf") schema)
      then_check check_any_of recur value (lookup (codes "anyOf") schema)
      then_check check_one_of recur value (lookup (codes "oneOf") schema)
      then_check check_enum value (lookup (codes "enum") schema)
      then_check check_const value (lookup (codes "const") schema)
      then_check check_types value (schema_types schema)
      then_check validate_kind recur value schema

  unfoldable pub against_resolved : (Json → Fields → Verdict) → Json → Option Fields → Verdict
  against_resolved recur value none = rejected bad_reference
  against_resolved recur value (some resolved) = recur value resolved

  unfoldable pub by_reference :
      (Json → Fields → Verdict) → Fields → Json → Fields → Option Str → Verdict
  unfolding validate_here resolve_local_ref against_resolved
  by_reference recur root value schema none = validate_here recur value schema
  by_reference recur root value schema (some reference) =
      against_resolved recur value (resolve_local_ref root reference)

  -- A value at the depth from which so many levels are left.
  unfoldable pub validate_json_value : ℕ → Fields → Json → Fields → Verdict
  unfolding by_reference str_eq
  validate_json_value zero root value schema = rejected too_deep
  validate_json_value (suc levels) root value schema =
      by_reference (validate_json_value levels root) root value schema
        (as_text (lookup (codes "$ref") schema))
