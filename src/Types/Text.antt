-- ===== src/Types/Text.antt =====
-- The text of a value, and what is sent to Redis for it (src/common/src/types.rs).
use lightflus.Base.{ℕ, List, [], ◌∷◌, Str, if◌then◌else◌, unwrap_or}
use lightflus.Base.Word.{be_bytes, i64_to_string}
use lightflus.Types.Value.{
  TypedValue, string, big_int, boolean, number, null, object, array, invalid,
}
use lightflus.Types.Json.{JsonText, to_json_value}

abbrev text_true : Str
text_true = 116 ∷ 114 ∷ 117 ∷ 101 ∷ []

abbrev text_false : Str
text_false = 102 ∷ 97 ∷ 108 ∷ 115 ∷ 101 ∷ []

abbrev text_null : Str
text_null = 110 ∷ 117 ∷ 108 ∷ 108 ∷ []

abbrev text_undefined : Str
text_undefined = 117 ∷ 110 ∷ 100 ∷ 101 ∷ 102 ∷ 105 ∷ 110 ∷ 101 ∷ 100 ∷ []

-- `f64_to_string` is the text that std gives an f64.
module _ (text : JsonText) (f64_to_string : ℕ → Str) where
  open text use {to_vec}

  -- ToString for TypedValue. The text of an object is that of the object of its fields' JSON values.
  unfoldable pub to_string : TypedValue → Str
  to_string (string v) = v
  to_string (big_int v) = i64_to_string v
  to_string (boolean v) = if v then text_true else text_false
  to_string (number v) = f64_to_string v
  to_string null = text_null
  to_string (object v) = unwrap_or (to_vec (to_json_value (object v))) []
  to_string (array v) = unwrap_or (to_vec (to_json_value (array v))) []
  to_string invalid = text_undefined

  -- write_redis_args: the one argument that is written
  unfoldable pub redis_arg : TypedValue → List ℕ
  redis_arg (string v) = v
  redis_arg (big_int v) = be_bytes 8 v
  redis_arg (number v) = be_bytes 8 v
  redis_arg v = to_string v
