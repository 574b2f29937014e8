-- ===== src/Types/Json.antt =====
-- The JSON of values: to_json_value, from_json_value and from_slice_with_type of
-- src/common/src/types.rs, on the values of the crate serde_json.
use lightflus.Base.{
  ℕ, Bool, true, false, Option, none, some, List, [], ◌∷◌, ◌==◌, Str, if◌then◌else◌, ltb, unwrap_or,
  map_option,
}
use lightflus.Base.Word.{sign_bit, is_finite}
use lightflus.Proto.Graph.{DataTypeEnum}
use lightflus.Types.Value.{
  TypedValue, Fields, Values, string, big_int, boolean, number, null, object, array, invalid, end,
  field, nil, cons,
}
use lightflus.Types.SerdeJson.{JsonNumber, JsonValue, JsonItems, JsonFields}
use lightflus.Types.Codec.{Formats, Decoded, decoded, or_panic}

-- Number::from of an i64
abbrev pub number_from : ℕ → JsonNumber
number_from x = if ltb x sign_bit then JsonNumber.pos_int x else JsonNumber.neg_int x

-- Number::from_f64
abbrev pub number_from_f64 : ℕ → Option JsonNumber
number_from_f64 x = if is_finite x then some (JsonNumber.float x) else none

-- TypedValue::to_json_value
unfoldable mutual
  pub to_json_value : TypedValue → JsonValue
  to_json_value (string v) = JsonValue.string v
  to_json_value (big_int v) = JsonValue.number (number_from v)
  to_json_value (boolean v) = JsonValue.bool v
  to_json_value (number v) = JsonValue.number (unwrap_or (number_from_f64 v) (JsonNumber.pos_int 0))
  to_json_value null = JsonValue.null
  to_json_value (object v) = JsonValue.object (to_json_fields v)
  to_json_value (array v) = JsonValue.array (to_json_items v)
  to_json_value invalid = JsonValue.null

  pub to_json_fields : Fields → JsonFields
  to_json_fields end = JsonFields.end
  to_json_fields (field k v fs) = JsonFields.field k (to_json_value v) (to_json_fields fs)

  pub to_json_items : Values → JsonItems
  to_json_items nil = JsonItems.nil
  to_json_items (cons v vs) = JsonItems.cons (to_json_value v) (to_json_items vs)

-- the case of a number; a u64 above the range of i64 wraps to the same pattern
abbrev pub from_json_number : JsonNumber → TypedValue
from_json_number (JsonNumber.float v) = number v
from_json_number (JsonNumber.pos_int v) = big_int v
from_json_number (JsonNumber.neg_int v) = big_int v

-- TypedValue::from_json_value
unfoldable mutual
  pub from_json_value : JsonValue → TypedValue
  from_json_value JsonValue.null = null
  from_json_value (JsonValue.bool v) = boolean v
  from_json_value (JsonValue.number v) = from_json_number v
  from_json_value (JsonValue.string v) = string v
  from_json_value (JsonValue.array v) = array (from_json_items v)
  from_json_value (JsonValue.object v) = object (from_json_fields v)

  pub from_json_items : JsonItems → Values
  from_json_items JsonItems.nil = nil
  from_json_items (JsonItems.cons v vs) = cons (from_json_value v) (from_json_items vs)

  pub from_json_fields : JsonFields → Fields
  from_json_fields JsonFields.end = end
  from_json_fields (JsonFields.field k v fs) = field k (from_json_value v) (from_json_fields fs)

-- What is taken from serde_json and std for texts: the text of a JSON value and the value of a
-- text, `none` where that fails, and the replacement of bytes that are no UTF-8.
pub record JsonText : Type 0 where
  pub to_vec : JsonValue → Option (List ℕ)
  pub from_text : List ℕ → Option JsonValue
  pub from_utf8_lossy : List ℕ → Str

abbrev is_unspecified : DataTypeEnum → Bool
is_unspecified DataTypeEnum.unspecified = true
is_unspecified _ = false

module _ (f : Formats) (text : JsonText) where
  open f use {get_i64, get_f64}
  open text use {from_text, from_utf8_lossy}

  -- the value of bytes that are not empty: `first` is the first of `bytes`
  unfoldable pub slice_as : DataTypeEnum → ℕ → List ℕ → Decoded TypedValue
  slice_as DataTypeEnum.unspecified first bytes = decoded invalid
  slice_as DataTypeEnum.bigint first bytes = or_panic (map_option big_int (get_i64 bytes))
  slice_as DataTypeEnum.number first bytes = or_panic (map_option number (get_f64 bytes))
  slice_as DataTypeEnum.null first bytes = decoded null
  slice_as DataTypeEnum.string first bytes = decoded (string (from_utf8_lossy bytes))
  slice_as DataTypeEnum.boolean first bytes = decoded (boolean (first == 1))
  slice_as DataTypeEnum.object first bytes =
      decoded (unwrap_or (map_option from_json_value (from_text bytes)) (object end))
  slice_as DataTypeEnum.array first bytes =
      decoded (unwrap_or (map_option from_json_value (from_text bytes)) (array nil))

  -- TypedValue::from_slice_with_type
  unfoldable pub from_slice_with_type : List ℕ → DataTypeEnum → Decoded TypedValue
  from_slice_with_type [] data_type = decoded (if is_unspecified data_type then invalid else null)
  from_slice_with_type (b ∷ bs) data_type = slice_as data_type b (b ∷ bs)
