-- ===== src/McpSchema/Closed.antt =====
-- common/mcphub/schema.go: what an object holds that validateJSONValue accepts.
use haruka_ai.Base.{
  ℕ, suc, ◌≡◌, refl, sym, ap, ◌∙◌, subst, true, false, Bool-cases, inl, inr, Option-cases, Str,
  codes, str_eq, str_eq_iff, Option, some, none, List, [], ◌∷◌, arith, Memᴰ,
}
use haruka_ai.McpSchema.Json.{
  Json, null, boolean, number, text, array, object, Fields, empty, field, lookup, as_text,
  object_or_empty, Library,
}
use haruka_ai.McpSchema.Keywords.{string_list, schema_types}
use haruka_ai.McpSchema.Node.{Verdict, all_defined, accepted, ◌then_check◌}
use haruka_ai.McpSchema.Value.{
  required_present, names_or_empty, check_extra, check_property, check_each_property, check_all_of,
  check_any_of, check_one_of, check_enum, check_const, check_types, validate_object, validate_kind,
  validate_here, by_reference, validate_json_value,
}
use haruka_ai.McpSchema.Nested.{then-left, then-right}
use haruka_ai.McpSchema.Sane.{all_defined-mem}

-- A property of the value, for what the schema says of its name.
abbrev pub Allowed : (Json → Fields → Verdict) → Json → Option Json → Option Json → Type 0
Allowed recur value (some raw) additional = recur value (object_or_empty (some raw)) ≡ accepted
Allowed recur value none (some (object schema)) = recur value schema ≡ accepted
Allowed recur value none (some (boolean b)) = b ≡ true
Allowed recur value none _ = Unit

check_property-Allowed :
    (recur : Json → Fields → Verdict) (value : Json) (known additional : Option Json)
    → check_property recur value known additional ≡ accepted
    → Allowed recur value known additional
unfolding check_property
check_property-Allowed recur value (some raw) additional h = h
check_property-Allowed recur value none none h = tt
check_property-Allowed recur value none (some (object schema)) h = unfold check_extra in h
check_property-Allowed recur value none (some (boolean true)) h = refl
check_property-Allowed recur value none (some (boolean false)) h = absurd (extra h)
  where
    extra : check_property recur value none (some (boolean false)) ≡ accepted → ⊥
    extra h = unfold check_extra in ground arith
check_property-Allowed recur value none (some null) h = tt
check_property-Allowed recur value none (some (number s)) h = tt
check_property-Allowed recur value none (some (text s)) h = tt
check_property-Allowed recur value none (some (array items)) h = tt

first_lem :
    (key name : Str) (v : Json) (rest : Fields)
    → str_eq key name ≡ true
    → lookup name (field key v rest) ≡ some v
first_lem key name v rest h = rw h refl

later_lem :
    (key name : Str) (v : Json) (rest : Fields)
    → str_eq key name ≡ false
    → lookup name (field key v rest) ≡ lookup name rest
later_lem key name v rest h = rw h refl

each-Allowed :
    (recur : Json → Fields → Verdict) (properties : Fields) (additional : Option Json)
    (value : Fields) (name : Str) (child : Json)
    → check_each_property recur properties additional value ≡ accepted
    → lookup name value ≡ some child
    → Allowed recur child (lookup name properties) additional
unfolding check_each_property
each-Allowed recur properties additional empty name child h e = absurd (ground arith)
each-Allowed recur properties additional (field key v rest) name child h e =
    elim (Bool-cases (str_eq key name)) [
      | inl same ↦
          let found : some v ≡ some child = sym (first_lem key name v rest same) ∙ e in
          let value_same : v ≡ child = cc in
          let name_same = (str_eq_iff key name).0 same in
          let passed = check_property-Allowed recur v (lookup key properties) additional (
            then-left (check_property recur v (lookup key properties) additional)
              (check_each_property recur properties additional rest) h) in
          subst (λ k. Allowed recur child (lookup k properties) additional) name_same
            (subst (λ c. Allowed recur c (lookup key properties) additional) value_same passed)
      | inr other ↦
          each-Allowed recur properties additional rest name child
            (then-right (check_property recur v (lookup key properties) additional)
              (check_each_property recur properties additional rest) h)
            (sym (later_lem key name v rest other) ∙ e)
    ]

required-all_defined :
    (value : Fields) (names : List Str)
    → required_present value names ≡ accepted
    → all_defined value names ≡ accepted
unfolding required_present all_defined
required-all_defined value [] h = refl
required-all_defined value (n ∷ names) h = elim (Option-cases (lookup n value)) [
  | inl missing ↦ absurd (ground (arith, missing, h))
  | inr (child, found) ↦ ground (arith, found, h, required-all_defined value names)
]

module _ ⦃lib : Library⦄ where
  validate-direct :
      (levels : ℕ) (root schema : Fields) (value : Json)
      → as_text (lookup (codes "$ref") schema) ≡ none
      → validate_json_value (suc levels) root value schema
        ≡ validate_here (validate_json_value levels root) value schema
  unfolding validate_json_value by_reference
  validate-direct levels root schema value h =
      ap (by_reference (validate_json_value levels root) root value schema) h

  here-object :
      (recur : Json → Fields → Verdict) (value schema : Fields)
      → validate_here recur (object value) schema ≡ accepted
      → validate_object recur value schema ≡ accepted
  here-object recur value schema h =
      let kind =
        ended (check_all_of recur (object value) (lookup (codes "allOf") schema))
          (check_any_of recur (object value) (lookup (codes "anyOf") schema))
          (check_one_of recur (object value) (lookup (codes "oneOf") schema))
          (check_enum (object value) (lookup (codes "enum") schema))
          (check_const (object value) (lookup (codes "const") schema))
          (check_types (object value) (schema_types schema))
          (validate_kind recur (object value) schema) (unfold validate_here in h) in
      unfold validate_kind in kind
    where
      ended :
          (a b c d e f k : Verdict)
          → (a then_check b then_check c then_check d then_check e then_check f then_check k)
            ≡ accepted
          → k ≡ accepted
      ended a b c d e f k h =
          let r1 = then-right a _ h in
          let r2 = then-right b _ r1 in
          let r3 = then-right c _ r2 in
          let r4 = then-right d _ r3 in let r5 = then-right e _ r4 in then-right f k r5

  object-parts :
      (recur : Json → Fields → Verdict) (value schema : Fields)
      → validate_object recur value schema ≡ accepted
      → (required_present value (names_or_empty (string_list (lookup (codes "required") schema)))
          ≡ accepted)
        × (check_each_property recur
              (object_or_empty (lookup (codes "properties") schema))
              (lookup (codes "additionalProperties") schema)
              value
            ≡ accepted)
  unfolding validate_object
  object-parts recur value schema h = (then-left _ _ h, then-left _ _ (then-right _ _ h))

  -- An object that is accepted for a schema that is no reference, with levels below it: a property of
  -- its own that the schema defines is accepted for that schema, one level deeper; another one is
  -- accepted for the schema of additional properties, if that is an object, and does not occur if it
  -- is the boolean false; and a name that the schema requires is a property of the object.
  pub validate_json_value-closed :
      (levels : ℕ) (root value schema : Fields) (name : Str)
      → as_text (lookup (codes "$ref") schema) ≡ none
      → validate_json_value (suc levels) root (object value) schema ≡ accepted
      → ((child : Json)
          → lookup name value ≡ some child
          → Allowed
              (validate_json_value levels root)
              child
              (lookup name (object_or_empty (lookup (codes "properties") schema)))
              (lookup (codes "additionalProperties") schema))
        × (Memᴰ name (names_or_empty (string_list (lookup (codes "required") schema)))
            → (child : Json) × (lookup name value ≡ some child))
  validate_json_value-closed levels root value schema name direct h =
      let recur = validate_json_value levels root in
      let names = names_or_empty (string_list (lookup (codes "required") schema)) in
      let here = sym (validate-direct levels root schema (object value) direct) ∙ h in
      let (required, each) =
        object-parts recur value schema (here-object recur value schema here) in
      (
        λ child e.
            each-Allowed recur (object_or_empty (lookup (codes "properties") schema))
              (lookup (codes "additionalProperties") schema) value name child each e,
        λ m. all_defined-mem value names name (required-all_defined value names required) m,
      )
