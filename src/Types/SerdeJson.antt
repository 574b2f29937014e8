-- ===== src/Types/SerdeJson.antt =====
-- The values of the crate serde_json, which src/common/src/types.rs converts from and to.
use lightflus.Base.{ℕ, Bool, Str}

-- serde_json::Number: a u64, the pattern of a negative i64, or that of a finite f64
pub data JsonNumber : Type 0 where
  pos_int neg_int float : ℕ → JsonNumber

-- serde_json::Value. Like those of a value, the fields stand in the order of their keys.
mutual
  pub data JsonValue : Type 0 where
    null : JsonValue
    bool : Bool → JsonValue
    number : JsonNumber → JsonValue
    string : Str → JsonValue
    array : JsonItems → JsonValue
    object : JsonFields → JsonValue

  pub data JsonItems : Type 0 where
    nil : JsonItems
    cons : JsonValue → JsonItems → JsonItems

  pub data JsonFields : Type 0 where
    end : JsonFields
    field : Str → JsonValue → JsonFields → JsonFields
