-- ===== src/McpSchema/Keywords.antt =====
-- common/mcphub/schema.go: the readers of a schema's keywords.
use haruka_ai.Base.{
  ℕ, Bool, true, false, not, if◌then◌else◌, ◌&&◌, ◌||◌, Str, codes, str_eq, is_empty, Option, none,
  some, List, [], ◌∷◌, ◌++◌,
}
use haruka_ai.McpSchema.Json.{
  Json, null, boolean, number, text, array, object, Items, nil, item, Fields, lookup, Library,
}

unfoldable pub known_type : Str → Bool
unfolding str_eq
known_type s =
    str_eq s (codes "object")
    || str_eq s (codes "array")
    || str_eq s (codes "string")
    || str_eq s (codes "number")
    || str_eq s (codes "integer")
    || str_eq s (codes "boolean")
    || str_eq s (codes "null")

unfoldable pub known_type_entries : Items → Bool
unfolding known_type
known_type_entries nil = true
known_type_entries (item (text s) rest) = known_type s && known_type_entries rest
known_type_entries (item _ rest) = false

-- Whether the error of `validateSchemaType` is nil.
unfoldable pub validate_schema_type : Json → Bool
unfolding known_type known_type_entries
validate_schema_type (text s) = known_type s
validate_schema_type (array nil) = false
validate_schema_type (array (item entry rest)) = known_type_entries (item entry rest)
validate_schema_type _ = false

unfoldable pub has_text : Str → Items → Bool
unfolding str_eq
has_text wanted nil = false
has_text wanted (item (text s) rest) = str_eq s wanted || has_text wanted rest
has_text wanted (item _ rest) = has_text wanted rest

unfoldable pub allows_type : Str → Option Json → Bool
unfolding str_eq has_text
allows_type wanted (some (text s)) = str_eq s wanted
allows_type wanted (some (array entries)) = has_text wanted entries
allows_type wanted _ = false

unfoldable pub schema_allows_type : Fields → Str → Bool
unfolding allows_type str_eq
schema_allows_type schema wanted = allows_type wanted (lookup (codes "type") schema)

unfoldable pub texts : Items → List Str
texts nil = []
texts (item (text s) rest) = s ∷ texts rest
texts (item _ rest) = texts rest

unfoldable pub types_of : Option Json → List Str
unfolding texts
types_of (some (text s)) = s ∷ []
types_of (some (array entries)) = texts entries
types_of _ = []

unfoldable pub schema_types : Fields → List Str
unfolding types_of str_eq
schema_types schema = types_of (lookup (codes "type") schema)

abbrev pub listed : Str → List Str → Bool
listed name [] = false
listed name (s ∷ names) = str_eq s name || listed name names

-- The loop of `stringList`, with the names so far.
unfoldable pub string_entries : List Str → Items → Option (List Str)
unfolding is_empty str_eq
string_entries result nil = some result
string_entries result (item (text name) rest) =
    let later = string_entries (result ++ name ∷ []) rest in
    if is_empty name then none else (if listed name result then none else later)
string_entries result (item _ rest) = none

-- `none` for the error; a key that is missing reads as null.
unfoldable pub string_list : Option Json → Option (List Str)
unfolding string_entries
string_list none = some []
string_list (some null) = some []
string_list (some (array raw)) = string_entries [] raw
string_list (some _) = none

module _ ⦃lib : Library⦄ where
  unfoldable pub number_value : Option Json → Option lib.Float
  number_value (some (number s)) = lib.float64 s
  number_value _ = none

  unfoldable pub natural : Option lib.Float → Option ℕ
  natural none = none
  natural (some x) =
      if lib.is_less x lib.zero_float || not (lib.is_integral x) || lib.is_less lib.max_int x
      then none
      else some (lib.to_int x)

  unfoldable pub integer_keyword : Option Json → Option ℕ
  unfolding number_value natural
  integer_keyword value = natural (number_value value)

  unfoldable pub is_integer : Option lib.Float → Bool
  is_integer none = false
  is_integer (some x) = lib.is_integral x

  unfoldable pub is_number : Option lib.Float → Bool
  is_number none = false
  is_number (some x) = true

  -- One expected type, with the tests in the order of the cases.
  unfoldable pub matches_type : Json → Str → Bool
  unfolding number_value is_integer is_number str_eq
  matches_type null expected = str_eq expected (codes "null")
  matches_type (object fields) expected = str_eq expected (codes "object")
  matches_type (array items) expected = str_eq expected (codes "array")
  matches_type (text s) expected = str_eq expected (codes "string")
  matches_type (boolean b) expected = str_eq expected (codes "boolean")
  matches_type (number s) expected =
      (str_eq expected (codes "number") && is_number (lib.float64 s))
      || (str_eq expected (codes "integer") && is_integer (lib.float64 s))

  unfoldable pub matches_types : Json → List Str → Bool
  unfolding matches_type
  matches_types value [] = false
  matches_types value (expected ∷ types) = matches_type value expected || matches_types value types

  unfoldable pub same_text : Option Str → Option Str → Bool
  unfolding str_eq
  same_text (some left) (some right) = str_eq left right
  same_text _ _ = false

  unfoldable pub same_json : Json → Json → Bool
  unfolding same_text
  same_json left right = same_text (lib.marshal left) (lib.marshal right)

  unfoldable pub matches_any_json : Json → Items → Bool
  unfolding same_json
  matches_any_json value nil = false
  matches_any_json value (item candidate rest) =
      same_json value candidate || matches_any_json value rest
