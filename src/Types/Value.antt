-- ===== src/Types/Value.antt =====
-- The type of values, and the type tag of a value.
use lightflus.Base.{ℕ, Bool, Str}
use lightflus.Proto.Graph.{DataTypeEnum}

-- A number is the pattern of its f64, a bigint that of its i64. The fields of an object stand in
-- the order of their keys, as a BTreeMap iterates over them.
mutual
  pub data TypedValue : Type 0 where
    string : Str → TypedValue
    big_int : ℕ → TypedValue
    boolean : Bool → TypedValue
    number : ℕ → TypedValue
    null : TypedValue
    object : Fields → TypedValue
    array : Values → TypedValue
    invalid : TypedValue

  pub data Fields : Type 0 where
    end : Fields
    field : Str → TypedValue → Fields → Fields

  pub data Values : Type 0 where
    nil : Values
    cons : TypedValue → Values → Values

-- TypedValue::get_type
abbrev pub get_type : TypedValue → DataTypeEnum
get_type (string v) = DataTypeEnum.string
get_type (number v) = DataTypeEnum.number
get_type (big_int v) = DataTypeEnum.bigint
get_type null = DataTypeEnum.null
get_type (object v) = DataTypeEnum.object
get_type (boolean v) = DataTypeEnum.boolean
get_type (array v) = DataTypeEnum.array
get_type invalid = DataTypeEnum.unspecified
