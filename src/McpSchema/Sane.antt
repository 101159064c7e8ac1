-- ===== src/McpSchema/Sane.antt =====
-- common/mcphub/schema.go: what validateSchemaNode makes sure of.
use haruka_ai.Base.{
  ℕ, zero, suc, ◌+◌, ◌≤◌, ◌≡◌, refl, sym, ap, ◌∙◌, subst, Bool, true, inl, inr, ◌⊎◌, Option-cases,
  Str, codes, Option, some, none, List, [], ◌∷◌, arith, Memᴰ,
}
use haruka_ai.McpSchema.Json.{Json, text, array, Fields, lookup, object_or_empty, Library}
use haruka_ai.McpSchema.Keywords.{validate_schema_type, string_list}
use haruka_ai.McpSchema.Reference.{resolve_local_ref}
use haruka_ai.McpSchema.Node.{
  accepted, check_reference, check_type, check_pattern, all_defined, check_required, check_items,
  check_additional, check_branches, validate_schema_node, max_schema_depth,
}
use haruka_ai.McpSchema.Tool.{all_levels}
use haruka_ai.McpSchema.Nested.{
  Child, of_property, of_items, of_additional, of_branch, Inside, itself, deeper, Passed,
  node-Passed, recur, check_children-FieldOf, each_branch-ItemOf, check_branches-each,
}

-- What a schema is to be, beside the schemas inside it: its reference leads to an object of the root,
-- its type is one of JSON's or a list of them, its pattern compiles, and the properties it requires
-- are defined.
pub record Sane ⦃lib : Library⦄ (root node : Fields) : Type 0 where
  pub resolves :
      (reference : Str)
      → lookup (codes "$ref") node ≡ some (text reference)
      → (resolved : Fields) × (resolve_local_ref root reference ≡ some resolved)
  pub typed : (t : Json) → lookup (codes "type") node ≡ some t → validate_schema_type t ≡ true
  pub compiles :
      (pattern : Str)
      → lookup (codes "pattern") node ≡ some (text pattern)
      → (matches : Str → Bool) × (lib.compile pattern ≡ some matches)
  pub defined :
      (names : List Str) × (string_list (lookup (codes "required") node) ≡ some names)
      × ((name : Str)
          → Memᴰ name names
          → (child : Json) × (lookup name (object_or_empty (lookup (codes "properties") node))
              ≡ some child))

unresolved :
    (root : Fields) (reference : Str)
    → resolve_local_ref root reference ≡ none
    → check_reference root (some (text reference)) ≡ accepted
    → ⊥
unfolding check_reference
unresolved root reference missing h = ground arith

check_reference-resolves :
    (root : Fields) (reference : Str)
    → check_reference root (some (text reference)) ≡ accepted
    → (resolved : Fields) × (resolve_local_ref root reference ≡ some resolved)
check_reference-resolves root reference h = elim (Option-cases (resolve_local_ref root reference)) [
  | inr found ↦ found
  | inl missing ↦ absurd (unresolved root reference missing h)
]

undefined_name :
    (properties : Fields) (n : Str) (names : List Str)
    → lookup n properties ≡ none
    → all_defined properties (n ∷ names) ≡ accepted
    → ⊥
unfolding all_defined
undefined_name properties n names missing h = ground arith

defined_rest :
    (properties : Fields) (n : Str) (names : List Str) (child : Json)
    → lookup n properties ≡ some child
    → all_defined properties (n ∷ names) ≡ accepted
    → all_defined properties names ≡ accepted
unfolding all_defined
defined_rest properties n names child found h = ground (arith, found, h)

pub all_defined-mem :
    (properties : Fields) (names : List Str) (name : Str)
    → all_defined properties names ≡ accepted
    → Memᴰ name names
    → (child : Json) × (lookup name properties ≡ some child)
all_defined-mem properties [] name h m = elim m [ ]
all_defined-mem properties (n ∷ names) name h (Memᴰ.head e) =
    elim (Option-cases (lookup n properties)) [
      | inr found ↦ subst (λ k. (child : Json) × (lookup k properties ≡ some child)) (sym e) found
      | inl missing ↦ absurd (undefined_name properties n names missing h)
    ]
all_defined-mem properties (n ∷ names) name h (Memᴰ.tail m) =
    elim (Option-cases (lookup n properties)) [
      | inr (child, found) ↦
          all_defined-mem properties names name (defined_rest properties n names child found h) m
      | inl missing ↦ absurd (undefined_name properties n names missing h)
    ]

module _ ⦃lib : Library⦄ (root : Fields) where
  uncompiled :
      (pattern : Str)
      → lib.compile pattern ≡ none
      → check_pattern (some (text pattern)) ≡ accepted
      → ⊥
  unfolding check_pattern
  uncompiled pattern missing h = ground arith

  check_pattern-compiles :
      (pattern : Str)
      → check_pattern (some (text pattern)) ≡ accepted
      → (matches : Str → Bool) × (lib.compile pattern ≡ some matches)
  check_pattern-compiles pattern h = elim (Option-cases (lib.compile pattern)) [
    | inr found ↦ found
    | inl missing ↦ absurd (uncompiled pattern missing h)
  ]

  Child-accepted :
      (levels : ℕ) (node child : Fields)
      → Child node child
      → validate_schema_node (suc levels) root node ≡ accepted
      → validate_schema_node levels root child ≡ accepted
  unfolding check_items check_additional
  Child-accepted levels node child (of_property name m) h =
      check_children-FieldOf (recur levels root node) name child _ m
        (node-Passed levels root node h).children
  Child-accepted levels node child (of_items e) h =
      subst (λ o. check_items (recur levels root node) o ≡ accepted) e
        (node-Passed levels root node h).items
  Child-accepted levels node child (of_additional e) h =
      subst (λ o. check_additional (recur levels root node) o ≡ accepted) e
        (node-Passed levels root node h).additional
  Child-accepted levels node child (of_branch keyword branches k e m) h =
      branch (node-Passed levels root node h) k
    where
      through :
          (o : Option Json)
          → o ≡ some (array branches)
          → check_branches (recur levels root node) o ≡ accepted
          → validate_schema_node levels root child ≡ accepted
      through o e h = each_branch-ItemOf (recur levels root node) child branches m (
          check_branches-each (recur levels root node) branches
            (subst (λ o. check_branches (recur levels root node) o ≡ accepted) e h))

      branch :
          Passed levels root node
          → (keyword ≡ codes "allOf") ⊎ (keyword ≡ codes "anyOf") ⊎ (keyword ≡ codes "oneOf")
          → validate_schema_node levels root child ≡ accepted
      branch p (inl a) =
          through (lookup (codes "allOf") node) (sym (ap (λ w. lookup w node) a) ∙ e) p.all_of
      branch p (inr (inl a)) =
          through (lookup (codes "anyOf") node) (sym (ap (λ w. lookup w node) a) ∙ e) p.any_of
      branch p (inr (inr a)) =
          through (lookup (codes "oneOf") node) (sym (ap (λ w. lookup w node) a) ∙ e) p.one_of

  none_left : (node : Fields) → validate_schema_node zero root node ≡ accepted → ⊥
  unfolding validate_schema_node
  none_left node h = ground arith

  Inside-accepted :
      {node inner : Fields} {n : ℕ}
      → (levels : ℕ) → Inside node n inner
      → validate_schema_node levels root node ≡ accepted
      → (k : ℕ) × (levels ≡ suc (n + k)) × (validate_schema_node (suc k) root inner ≡ accepted)
  Inside-accepted zero i h = absurd (none_left _ h)
  Inside-accepted (suc levels) itself h = (levels, omega arith, h)
  Inside-accepted (suc levels) (deeper {n} {inner} {child} i c) h =
      step n inner child (Inside-accepted (suc levels) i h) c
    where
      step :
          (n : ℕ) (inner child : Fields)
          → ((k : ℕ) × (suc levels ≡ suc (n + k))
              × (validate_schema_node (suc k) root inner ≡ accepted))
          → Child inner child
          → (k : ℕ) × (suc levels ≡ suc (suc n + k))
            × (validate_schema_node (suc k) root child ≡ accepted)
      step n inner child (zero, e, h) c =
          absurd (none_left child (Child-accepted zero inner child c h))
      step n inner child (suc k, e, h) c =
          (k, omega (arith, e), Child-accepted (suc k) inner child c h)

  check_type-known : (t : Json) → check_type (some t) ≡ accepted → validate_schema_type t ≡ true
  unfolding check_type
  check_type-known t h = ground arith

  check_required-defined :
      (properties : Fields) (names : Option (List Str))
      → check_required properties names ≡ accepted
      → (required : List Str) × (names ≡ some required)
        × (all_defined properties required ≡ accepted)
  unfolding check_required
  check_required-defined properties none h = absurd (ground arith)
  check_required-defined properties (some names) h = (names, refl, h)

  accepted-Sane :
      (levels : ℕ) (node : Fields)
      → validate_schema_node (suc levels) root node ≡ accepted
      → Sane root node
  accepted-Sane levels node h =
      let p = node-Passed levels root node h in
      let properties = object_or_empty (lookup (codes "properties") node) in
      let (names, listed, all) =
        check_required-defined properties (string_list (lookup (codes "required") node))
          p.required in
      record {
        resolves = λ reference e.
            check_reference-resolves root reference
              (subst (λ o. check_reference root o ≡ accepted) e p.reference);
        typed = λ t e. check_type-known t (subst (λ o. check_type o ≡ accepted) e p.kind);
        compiles = λ pattern e.
            check_pattern-compiles pattern (subst (λ o. check_pattern o ≡ accepted) e p.pattern);
        defined = (names, listed, λ name m. all_defined-mem properties names name all m);
      }

  pub Inside-Sane :
      {node inner : Fields} {n : ℕ}
      → Inside node n inner
      → validate_schema_node all_levels root node ≡ accepted
      → (n ≤ max_schema_depth) × Sane root inner
  Inside-Sane {node} {inner} {n} i h =
      let (k, e, at) = Inside-accepted all_levels i h in
      (omega (arith, e), accepted-Sane k inner at)
