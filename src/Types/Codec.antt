-- ===== src/Types/Codec.antt =====
-- The bytes of a value: TypedValue::get_data, from_vec and from_slice.
use lightflus.Base.{
  ℕ, zero, suc, Option, none, some, List, [], ◌∷◌, ◌==◌, if◌then◌else◌, unwrap_or, length,
  map_option, ◌≡◌, refl,
}
use lightflus.Base.Word.{be_bytes}
use lightflus.Base.Utf8.{from_utf8}
use lightflus.Proto.Graph.{DataTypeEnum, from_i32, to_i32}
use lightflus.Proto.Event.{Entry}
use lightflus.Types.Value.{
  TypedValue, Fields, Values, string, big_int, boolean, number, null, object, array, invalid, nil,
  cons, get_type,
}

-- What the codec takes from the crates `bytes` and `serde_json`. A read of an integer that panics
-- (of fewer than eight bytes) and a text that does not parse answer `none`.
pub record Formats : Type 0 where
  pub get_i64 : List ℕ → Option ℕ
  pub get_f64 : List ℕ → Option ℕ
  pub object_to_vec : Fields → Option (List ℕ)
  pub object_from_slice : List ℕ → Option Fields
  pub items_to_vec : List (List ℕ) → Option (List ℕ)
  pub items_from_slice : List ℕ → Option (List (List ℕ))

module _ (f : Formats) where
  open f use {object_to_vec, items_to_vec}

  -- TypedValue::get_data
  unfoldable mutual
    pub get_data : TypedValue → List ℕ
    get_data (string v) = to_i32 DataTypeEnum.string ∷ v
    get_data (number v) = to_i32 DataTypeEnum.number ∷ be_bytes 8 v
    get_data (big_int v) = to_i32 DataTypeEnum.bigint ∷ be_bytes 8 v
    get_data (boolean v) = to_i32 DataTypeEnum.boolean ∷ (if v then 1 else 0) ∷ []
    get_data (object v) = to_i32 DataTypeEnum.object ∷ unwrap_or (object_to_vec v) []
    get_data (array v) = to_i32 DataTypeEnum.array ∷ unwrap_or (items_to_vec (get_data_all v)) []
    get_data null = to_i32 DataTypeEnum.null ∷ []
    get_data invalid = to_i32 DataTypeEnum.unspecified ∷ []

    pub get_data_all : Values → List (List ℕ)
    get_data_all nil = []
    get_data_all (cons v vs) = get_data v ∷ get_data_all vs

-- A panic is an outcome of its own. The nested items of an array are read on fuel.
pub data Decoded {ℓ} (A : Type ℓ) : Type ℓ where
  decoded : A → Decoded A
  panicked : Decoded A
  out_of_fuel : Decoded A

abbrev pub map_decoded {ℓ κ} : {A : Type ℓ} {B : Type κ} → (A → B) → Decoded A → Decoded B
map_decoded g (decoded a) = decoded (g a)
map_decoded g panicked = panicked
map_decoded g out_of_fuel = out_of_fuel

abbrev pub bind {ℓ κ} : {A : Type ℓ} {B : Type κ} → Decoded A → (A → Decoded B) → Decoded B
bind (decoded a) k = k a
bind panicked k = panicked
bind out_of_fuel k = out_of_fuel

pub bind_assoc :
    {A B C : Type 0} (m : Decoded A) (k : A → Decoded B) (l : B → Decoded C)
    → bind (bind m k) l ≡ bind m (λ a. bind (k a) l)
bind_assoc (decoded a) k l = refl
bind_assoc panicked k l = refl
bind_assoc out_of_fuel k l = refl

pub bind_cong :
    {A B : Type 0} (m : Decoded A) (k l : A → Decoded B)
    → ((a : A) → k a ≡ l a)
    → bind m k ≡ bind m l
bind_cong (decoded a) k l h = h a
bind_cong panicked k l h = refl
bind_cong out_of_fuel k l h = refl

abbrev pub cons_decoded : Decoded TypedValue → Decoded Values → Decoded Values
cons_decoded (decoded v) vs = map_decoded (cons v) vs
cons_decoded panicked vs = panicked
cons_decoded out_of_fuel vs = out_of_fuel

abbrev pub or_panic : Option TypedValue → Decoded TypedValue
or_panic none = panicked
or_panic (some v) = decoded v

-- `data[1] == 1`, which panics where there is no second byte
abbrev read_boolean : List ℕ → Decoded TypedValue
read_boolean [] = panicked
read_boolean (b ∷ bs) = decoded (boolean (b == 1))

module _ (f : Formats) where
  open f use {get_i64, get_f64, object_from_slice, items_from_slice}

  -- the `match` on the type, with the decoder of an array's items
  unfoldable pub decode_as :
      (List (List ℕ) → Decoded Values) → DataTypeEnum → List ℕ → Decoded TypedValue
  decode_as items DataTypeEnum.string rest =
      decoded (unwrap_or (map_option string (from_utf8 rest)) invalid)
  decode_as items DataTypeEnum.bigint rest = or_panic (map_option big_int (get_i64 rest))
  decode_as items DataTypeEnum.number rest = or_panic (map_option number (get_f64 rest))
  decode_as items DataTypeEnum.boolean rest = read_boolean rest
  decode_as items DataTypeEnum.unspecified rest = decoded invalid
  decode_as items DataTypeEnum.null rest = decoded null
  decode_as items DataTypeEnum.object rest =
      decoded (object (unwrap_or (object_from_slice rest) Fields.end))
  decode_as items DataTypeEnum.array rest =
      map_decoded array (items (unwrap_or (items_from_slice rest) []))

  -- one call of `from_vec`, with the decoder of an array's items
  unfoldable pub decode_with : (List (List ℕ) → Decoded Values) → List ℕ → Decoded TypedValue
  decode_with items [] = decoded null
  decode_with items (tag ∷ rest) =
      decode_as items (unwrap_or (from_i32 tag) DataTypeEnum.unspecified) rest

  -- `val.iter().map(|data| TypedValue::from_vec(data))`
  unfoldable pub decode_all : (List ℕ → Decoded TypedValue) → List (List ℕ) → Decoded Values
  decode_all item [] = decoded nil
  decode_all item (d ∷ ds) = cons_decoded (item d) (decode_all item ds)

  unfoldable pub decode : ℕ → List ℕ → Decoded TypedValue
  decode zero bytes = out_of_fuel
  decode (suc fuel) bytes = decode_with (decode_all (decode fuel)) bytes

  -- TypedValue::from_vec. The items of an array are shorter than its text, so the length is
  -- enough fuel.
  unfoldable pub from_vec : List ℕ → Decoded TypedValue
  from_vec bytes = decode (suc (length bytes)) bytes

  -- TypedValue::from_slice: the same cases, and `from_vec` for the items
  unfoldable pub from_slice : List ℕ → Decoded TypedValue
  from_slice bytes = decode_with (decode_all (decode (length bytes))) bytes

-- an entry with the type and the bytes of a value
abbrev pub to_entry : Formats → TypedValue → Entry
to_entry f v = record { data_type = to_i32 (get_type v); value = get_data f v }
