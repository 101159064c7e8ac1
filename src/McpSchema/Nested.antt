-- ===== src/McpSchema/Nested.antt =====
-- common/mcphub/schema.go: what holds of every schema inside one that validateSchemaNode accepts.
use haruka_ai.Base.{ℕ, suc, ◌≡◌, refl, ◌⊎◌, Str, codes, some}
use haruka_ai.McpSchema.Json.{
  Json, array, object, Items, nil, item, Fields, empty, field, lookup, object_or_empty, Library,
}
use haruka_ai.McpSchema.Keywords.{string_list}
use haruka_ai.McpSchema.Node.{
  Verdict, accepted, rejected, ◌then_check◌, check_reference, check_type, check_pattern,
  check_properties, check_required, check_children, check_items, check_additional, each_branch,
  check_branches, validate_schema_node,
}

pub then-left : (a b : Verdict) → (a then_check b) ≡ accepted → a ≡ accepted
then-left accepted b h = refl
then-left (rejected fault) b h = h

pub then-right : (a b : Verdict) → (a then_check b) ≡ accepted → b ≡ accepted
then-right accepted b h = h
then-right (rejected fault) b h = absurd (cc)

-- A field of an object, and an entry of an array.
pub data FieldOf (name : Str) (value : Json) : Fields → Type 0 where
  first_field : {key : Str} {rest : Fields} → key ≡ name → FieldOf name value (field key value rest)
  later_field :
      {key : Str} {other : Json} {rest : Fields}
      → FieldOf name value rest
      → FieldOf name value (field key other rest)

pub data ItemOf (value : Json) : Items → Type 0 where
  first_item : {rest : Items} → ItemOf value (item value rest)
  later_item : {other : Json} {rest : Items} → ItemOf value rest → ItemOf value (item other rest)

-- A schema right inside another.
pub data Child (node : Fields) (child : Fields) : Type 0 where
  of_property :
      (name : Str)
      → FieldOf name (object child) (object_or_empty (lookup (codes "properties") node))
      → Child node child
  of_items : lookup (codes "items") node ≡ some (object child) → Child node child
  of_additional :
      lookup (codes "additionalProperties") node ≡ some (object child) → Child node child
  of_branch :
      (keyword : Str) (branches : Items)
      → (keyword ≡ codes "allOf") ⊎ (keyword ≡ codes "anyOf") ⊎ (keyword ≡ codes "oneOf")
      → lookup keyword node ≡ some (array branches)
      → ItemOf (object child) branches
      → Child node child

-- A schema inside another, so many levels deeper.
pub data Inside (node : Fields) : ℕ → Fields → Type 0 where
  itself : Inside node 0 node
  deeper :
      {n : ℕ} {inner child : Fields}
      → Inside node n inner
      → Child inner child
      → Inside node (suc n) child

children-rest :
    (recur : Fields → Verdict) (key : Str) (value : Json) (rest : Fields)
    → check_children recur (field key value rest) ≡ accepted
    → check_children recur rest ≡ accepted
unfolding check_children
children-rest recur key (object child) rest h =
    then-right (recur child) (check_children recur rest) h
children-rest recur key _ rest h = cc

pub check_children-FieldOf :
    (recur : Fields → Verdict) (name : Str) (child : Fields) (properties : Fields)
    → FieldOf name (object child) properties
    → check_children recur properties ≡ accepted
    → recur child ≡ accepted
check_children-FieldOf recur name child empty m h = elim m [ ]
check_children-FieldOf recur name child (field key value rest) (first_field e) h =
    unfold check_children in then-left (recur child) (check_children recur rest) h
check_children-FieldOf recur name child (field key value rest) (later_field m) h =
    check_children-FieldOf recur name child rest m (children-rest recur key value rest h)

branches-rest :
    (recur : Fields → Verdict) (value : Json) (rest : Items)
    → each_branch recur (item value rest) ≡ accepted
    → each_branch recur rest ≡ accepted
unfolding each_branch
branches-rest recur (object child) rest h = then-right (recur child) (each_branch recur rest) h
branches-rest recur _ rest h = cc

pub each_branch-ItemOf :
    (recur : Fields → Verdict) (child : Fields) (branches : Items)
    → ItemOf (object child) branches
    → each_branch recur branches ≡ accepted
    → recur child ≡ accepted
each_branch-ItemOf recur child nil m h = elim m [ ]
each_branch-ItemOf recur child (item value rest) first_item h =
    unfold each_branch in then-left (recur child) (each_branch recur rest) h
each_branch-ItemOf recur child (item value rest) (later_item m) h =
    each_branch-ItemOf recur child rest m (branches-rest recur value rest h)

pub check_branches-each :
    (recur : Fields → Verdict) (branches : Items)
    → check_branches recur (some (array branches)) ≡ accepted
    → each_branch recur branches ≡ accepted
unfolding check_branches each_branch
check_branches-each recur nil h = cc
check_branches-each recur (item branch rest) h = h

module _ ⦃lib : Library⦄ (levels : ℕ) (root node : Fields) where
  abbrev pub recur : Fields → Verdict
  recur child = validate_schema_node levels root child

  -- What an accepted node has passed.
  pub record Passed : Type 0 where
    pub reference : check_reference root (lookup (codes "$ref") node) ≡ accepted
    pub kind : check_type (lookup (codes "type") node) ≡ accepted
    pub pattern : check_pattern (lookup (codes "pattern") node) ≡ accepted
    pub properties : check_properties (lookup (codes "properties") node) ≡ accepted
    pub required :
        check_required
          (object_or_empty (lookup (codes "properties") node))
          (string_list (lookup (codes "required") node))
        ≡ accepted
    pub children :
        check_children recur (object_or_empty (lookup (codes "properties") node)) ≡ accepted
    pub items : check_items recur (lookup (codes "items") node) ≡ accepted
    pub additional : check_additional recur (lookup (codes "additionalProperties") node) ≡ accepted
    pub all_of : check_branches recur (lookup (codes "allOf") node) ≡ accepted
    pub any_of : check_branches recur (lookup (codes "anyOf") node) ≡ accepted
    pub one_of : check_branches recur (lookup (codes "oneOf") node) ≡ accepted

  pub node-Passed : validate_schema_node (suc levels) root node ≡ accepted → Passed
  unfolding validate_schema_node
  node-Passed h =
      let r1 = then-right _ _ h in
      let r2 = then-right _ _ r1 in
      let r3 = then-right _ _ r2 in
      let r4 = then-right _ _ r3 in
      let r5 = then-right _ _ r4 in
      let r6 = then-right _ _ r5 in
      let r7 = then-right _ _ r6 in
      let r8 = then-right _ _ r7 in
      let r9 = then-right _ _ r8 in
      record {
        reference = then-left _ _ h;
        kind = then-left _ _ r1;
        pattern = then-left _ _ r2;
        properties = then-left _ _ r3;
        required = then-left _ _ r4;
        children = then-left _ _ r5;
        items = then-left _ _ r6;
        additional = then-left _ _ r7;
        all_of = then-left _ _ r8;
        any_of = then-left _ _ r9;
        one_of = then-right _ _ r9;
      }
