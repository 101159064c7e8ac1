-- ===== src/McpSchema/Node.antt =====
-- common/mcphub/schema.go: validateSchemaNode. The depth is counted down from its limit.
use haruka_ai.Base.{
  ℕ, zero, suc, Bool, true, false, if◌then◌else◌, Str, codes, str_eq, Option, none, some, List, [],
  ◌∷◌,
}
use haruka_ai.McpSchema.Json.{
  Json, null, boolean, text, array, object, Items, nil, item, Fields, empty, field, lookup,
  object_or_empty, Library,
}
use haruka_ai.McpSchema.Keywords.{validate_schema_type, string_list}
use haruka_ai.McpSchema.Reference.{resolve_local_ref}

abbrev pub max_schema_depth : ℕ
max_schema_depth = 32

pub data Fault : Type 0 where
  too_deep bad_reference bad_type bad_pattern bad_properties bad_required undefined_required
        not_a_schema bad_items bad_additional bad_branches :
      Fault
  no_match not_one_match not_in_enum not_the_constant wrong_type required_missing not_allowed
        too_few too_many too_short too_long bad_format not_numeric not_integer below_minimum
        above_maximum :
      Fault

-- Go's error beside no result.
pub data Verdict : Type 0 where
  accepted : Verdict
  rejected : Fault → Verdict

-- `if err := a; err != nil { return err }`
infixr 4 ◌then_check◌
abbrev pub ◌then_check◌ : Verdict → Verdict → Verdict
accepted then_check v = v
(rejected fault) then_check v = rejected fault

-- `if bad { return fault }`
unfoldable pub reject_if : Bool → Fault → Verdict
reject_if true fault = rejected fault
reject_if false fault = accepted

unfoldable pub check_reference : Fields → Option Json → Verdict
unfolding resolve_local_ref
check_reference root (some (text reference)) = elim (resolve_local_ref root reference) [
  | none ↦ rejected bad_reference
  | some resolved ↦ accepted
]
check_reference root _ = accepted

unfoldable pub check_type : Option Json → Verdict
unfolding validate_schema_type
check_type none = accepted
check_type (some raw) = if validate_schema_type raw then accepted else rejected bad_type

unfoldable pub check_properties : Option Json → Verdict
check_properties none = accepted
check_properties (some null) = accepted
check_properties (some (object properties)) = accepted
check_properties (some _) = rejected bad_properties

unfoldable pub all_defined : Fields → List Str → Verdict
unfolding str_eq
all_defined properties [] = accepted
all_defined properties (name ∷ names) = elim (lookup name properties) [
  | none ↦ rejected undefined_required
  | some child ↦ all_defined properties names
]

unfoldable pub check_required : Fields → Option (List Str) → Verdict
unfolding all_defined
check_required properties none = rejected bad_required
check_required properties (some names) = all_defined properties names

module _ (recur : Fields → Verdict) where
  unfoldable pub check_children : Fields → Verdict
  check_children empty = accepted
  check_children (field name (object child) rest) = recur child then_check check_children rest
  check_children (field name _ rest) = rejected not_a_schema

  unfoldable pub check_items : Option Json → Verdict
  check_items none = accepted
  check_items (some (object items)) = recur items
  check_items (some _) = rejected bad_items

  unfoldable pub check_additional : Option Json → Verdict
  check_additional none = accepted
  check_additional (some (boolean b)) = accepted
  check_additional (some (object additional)) = recur additional
  check_additional (some _) = rejected bad_additional

  unfoldable pub each_branch : Items → Verdict
  each_branch nil = accepted
  each_branch (item (object branch) rest) = recur branch then_check each_branch rest
  each_branch (item _ rest) = rejected not_a_schema

  unfoldable pub check_branches : Option Json → Verdict
  unfolding each_branch
  check_branches none = accepted
  check_branches (some (array nil)) = rejected bad_branches
  check_branches (some (array (item branch rest))) = each_branch (item branch rest)
  check_branches (some _) = rejected bad_branches

module _ ⦃lib : Library⦄ where
  unfoldable pub check_pattern : Option Json → Verdict
  check_pattern (some (text pattern)) = elim (lib.compile pattern) [
    | none ↦ rejected bad_pattern
    | some compiled ↦ accepted
  ]
  check_pattern _ = accepted

  -- A node at the depth from which so many levels are left, and its children one level deeper.
  unfoldable pub validate_schema_node : ℕ → Fields → Fields → Verdict
  unfolding check_reference check_type check_pattern check_properties check_required check_children
      check_items check_additional check_branches string_list str_eq
  validate_schema_node zero root node = rejected too_deep
  validate_schema_node (suc levels) root node =
      let properties = lookup (codes "properties") node in
      let recur = λ (child : Fields). validate_schema_node levels root child in
      check_reference root (lookup (codes "$ref") node)
      then_check check_type (lookup (codes "type") node)
      then_check check_pattern (lookup (codes "pattern") node)
      then_check check_properties properties
      then_check check_required (object_or_empty properties)
          (string_list (lookup (codes "required") node))
      then_check check_children recur (object_or_empty properties)
      then_check check_items recur (lookup (codes "items") node)
      then_check check_additional recur (lookup (codes "additionalProperties") node)
      then_check check_branches recur (lookup (codes "allOf") node)
      then_check check_branches recur (lookup (codes "anyOf") node)
      then_check check_branches recur (lookup (codes "oneOf") node)
