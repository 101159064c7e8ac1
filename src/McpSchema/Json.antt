-- ===== src/McpSchema/Json.antt =====
-- common/mcphub/schema.go: JSON as Go decodes it into `any`, with a number by its text. A Go map is a
-- list of its fields, in the order in which a range over it takes them.
use haruka_ai.Base.{ℕ, suc, Bool, if◌then◌else◌, Str, str_eq, Option, none, some}

mutual
  pub data Json : Type 0 where
    null : Json
    boolean : Bool → Json
    number : Str → Json
    text : Str → Json
    array : Items → Json
    object : Fields → Json

  pub data Items : Type 0 where
    nil : Items
    item : Json → Items → Items

  pub data Fields : Type 0 where
    empty : Fields
    field : Str → Json → Fields → Fields

-- `object[name]`
abbrev pub lookup : Str → Fields → Option Json
lookup name empty = none
lookup name (field key value rest) =
    let later = lookup name rest in if str_eq key name then some value else later

abbrev pub fields_len : Fields → ℕ
fields_len empty = 0
fields_len (field key value rest) = suc (fields_len rest)

abbrev pub items_len : Items → ℕ
items_len nil = 0
items_len (item value rest) = suc (items_len rest)

-- The type assertions.
abbrev pub as_object : Option Json → Option Fields
as_object (some (object fields)) = some fields
as_object _ = none

abbrev pub as_array : Option Json → Option Items
as_array (some (array items)) = some items
as_array _ = none

abbrev pub as_text : Option Json → Option Str
as_text (some (text s)) = some s
as_text _ = none

-- What `object, _ := asObject(raw)` leaves: no fields where it is no object.
abbrev pub object_or_empty : Option Json → Fields
object_or_empty (some (object fields)) = fields
object_or_empty _ = empty

-- What the code calls of the packages encoding/json, regexp and math.
pub record Library : Type 1 where
  pub Float : Type 0
  -- `json.Number.Float64`, and the conversions of Go's numbers.
  pub float64 : Str → Option Float
  pub is_less : Float → Float → Bool
  pub at_most : Float → Float → Bool
  -- `math.Trunc(x) == x`
  pub is_integral : Float → Bool
  pub zero_float : Float
  pub max_int : Float
  pub to_int : Float → ℕ
  pub compile : Str → Option (Str → Bool)
  -- `json.Marshal`, as bytes.
  pub marshal : Json → Option Str
  -- `Decoder.Decode` of one value, with what is left; and whether the decoder meets the end there.
  pub decode : Str → Option (Json × Str)
  pub at_end : Str → Bool
