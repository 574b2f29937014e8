-- ===== src/Runtime/Convert.antt =====
-- The conversions between values and the values of JavaScript: wrap_value and to_typed_value of
-- src/stream/src/v8_runtime.rs.
use lightflus.Base.{
  ℕ, zero, suc, ◌+◌, Bool, true, false, Option, none, some, Str, if◌then◌else◌, and_then,
  map_option, unwrap_or, Ordering, cmp, list_ord, nat_ord,
}
use lightflus.Types.{
  TypedValue, Fields, Values, string, big_int, boolean, number, null, object, array, invalid, end,
  field, nil, cons, Decoded, decoded, panicked, out_of_fuel, map_decoded, bind, JsonText,
  to_json_value,
}

-- What is taken from the crate v8, with the values W of its heap. `set` answers the object that a
-- property was set of; what can fail in the engine is optional.
pub record V8 (W : Type 0) : Type 0 where
  pub string_new : Str → Option W
  pub big_int_new_from_i64 : ℕ → W
  pub boolean_new : Bool → W
  pub number_new : ℕ → W
  pub new_null : W
  pub undefined : W
  pub object_new : W
  pub set : W → W → W → W
  pub json_parse : W → Option W
  pub is_undefined : W → Bool
  pub is_big_int : W → Bool
  pub is_number : W → Bool
  pub is_null : W → Bool
  pub is_boolean : W → Bool
  pub is_string : W → Bool
  pub is_array : W → Bool
  pub is_object : W → Bool
  pub to_big_int : W → Option W
  pub i64_value : W → ℕ × Bool
  pub number_value : W → Option ℕ
  pub is_true : W → Bool
  pub to_string : W → Option W
  pub to_rust_string_lossy : W → Str
  pub to_object : W → Option W
  pub has_index : W → ℕ → Option Bool
  pub get_index : W → ℕ → Option W
  pub get_own_property_names : W → Option W
  pub length : W → ℕ
  pub get : W → W → Option W

-- The cases of to_typed_value.
pub data Kind : Type 0 where
  undefined_kind big_int_kind number_kind null_kind boolean_kind string_kind : Kind
  array_kind object_kind other_kind : Kind

abbrev or_panic {ℓ} : {A : Type ℓ} → Option A → Decoded A
or_panic none = panicked
or_panic (some a) = decoded a

-- BTreeMap::insert, on the fields of an object
abbrev place_field : Ordering → Str → TypedValue → Str → TypedValue → Fields → Fields → Fields
place_field Ordering.eq k v j w m rest = field k v m
place_field Ordering.lt k v j w m rest = field k v (field j w m)
place_field Ordering.gt k v j w m rest = field j w rest

unfoldable pub insert_field : Str → TypedValue → Fields → Fields
insert_field k v end = field k v end
insert_field k v (field j w m) = place_field (cmp k j) k v j w m (insert_field k v m)

module _ {W : Type 0} (v8 : V8 W) where
  open v8 use {
    string_new, big_int_new_from_i64, boolean_new, number_new, new_null, undefined, object_new, set,
    json_parse, is_undefined, is_big_int, is_number, is_null, is_boolean, is_string, is_array,
    is_object, to_big_int, i64_value, number_value, is_true, to_string, to_rust_string_lossy,
    to_object, has_index, get_index, get_own_property_names, length, get,
  }

  -- the tests of to_typed_value, in their order
  unfoldable pub kind_of : W → Kind
  kind_of w =
      if is_undefined w
      then Kind.undefined_kind
      else if is_big_int w
      then Kind.big_int_kind
      else if is_number w
      then Kind.number_kind
      else if is_null w
      then Kind.null_kind
      else if is_boolean w
      then Kind.boolean_kind
      else if is_string w
      then Kind.string_kind
      else if is_array w
      then Kind.array_kind
      else if is_object w
      then Kind.object_kind
      else Kind.other_kind

  -- the case of a BigInt, which is left out where an i64 does not hold it
  abbrev pub lossless : ℕ × Bool → Option TypedValue
  lossless (v, exact) = if exact then some (big_int v) else none

  module _ (rec : W → Decoded (Option TypedValue)) where
    -- the loop over the indices of an array, on fuel
    unfoldable items : ℕ → W → ℕ → Decoded Values
    items zero obj index = out_of_fuel
    items (suc fuel) obj index = elim (has_index obj index) [
      | none ↦ decoded nil
      | some false ↦ decoded nil
      | some true ↦ elim (get_index obj index) [
        | none ↦ decoded nil
        | some val ↦
            bind (rec val)
              (λ v. map_decoded (cons (unwrap_or v invalid)) (items fuel obj (index + 1)))
      ]
    ]

    -- the property of a key is inserted into the map
    abbrev pub property : W → Fields → Option W → Decoded Fields
    property obj m none = decoded m
    property obj m (some key) = bind (or_panic (get obj key)) (λ value.
        bind (rec value)
          (λ v. map_decoded (λ v'. insert_field (to_rust_string_lossy key) v' m) (or_panic v)))

    -- the loop over the indices of the names, with how many are left
    unfoldable pub properties : W → W → ℕ → ℕ → Fields → Decoded Fields
    properties obj names zero index m = decoded m
    properties obj names (suc n) index m =
        bind (property obj m (get_index names index)) (properties obj names n (index + 1))

    unfoldable pub of_names : W → Option W → Decoded (Option TypedValue)
    unfolding properties
    of_names obj none = decoded none
    of_names obj (some names) =
        map_decoded (λ m. some (object m)) (properties obj names (length names) 0 end)

    abbrev pub of_object : Option W → Decoded (Option TypedValue)
    of_object none = decoded none
    of_object (some obj) = of_names obj (get_own_property_names obj)

    abbrev of_array : ℕ → Option W → Decoded (Option TypedValue)
    unfolding items
    of_array fuel none = decoded none
    of_array fuel (some obj) = map_decoded (λ vs. some (array vs)) (items fuel obj 0)

    unfoldable pub convert : ℕ → Kind → W → Decoded (Option TypedValue)
    unfolding items of_names
    convert fuel Kind.undefined_kind w = decoded (some invalid)
    convert fuel Kind.big_int_kind w =
        decoded (and_then (to_big_int w) (λ b. lossless (i64_value b)))
    convert fuel Kind.number_kind w = decoded (map_option number (number_value w))
    convert fuel Kind.null_kind w = decoded (some null)
    convert fuel Kind.boolean_kind w = decoded (some (boolean (is_true w)))
    convert fuel Kind.string_kind w =
        decoded (map_option (λ s. string (to_rust_string_lossy s)) (to_string w))
    convert fuel Kind.array_kind w = of_array fuel (to_object w)
    convert fuel Kind.object_kind w = of_object (to_object w)
    convert fuel Kind.other_kind w = decoded (some invalid)

  -- to_typed_value; the fuel bounds the depth of the value and the length of its arrays
  unfoldable pub to_typed_value : ℕ → W → Decoded (Option TypedValue)
  unfolding kind_of convert
  to_typed_value zero w = out_of_fuel
  to_typed_value (suc fuel) w = convert (to_typed_value fuel) fuel (kind_of w) w

  module _ (text : JsonText) where
    open text use {to_vec}

    -- wrap_value; a panic is `none`
    unfoldable mutual
      unfolding to_json_value

      pub wrap_value : TypedValue → Option W
      wrap_value (string value) = string_new value
      wrap_value (big_int value) = some (big_int_new_from_i64 value)
      wrap_value (boolean value) = some (boolean_new value)
      wrap_value (number value) = some (number_new value)
      wrap_value null = some new_null
      wrap_value (object value) = set_fields value object_new
      wrap_value invalid = some undefined
      wrap_value (array value) =
          map_option (λ val. unwrap_or (json_parse val) undefined)
            (and_then (to_vec (to_json_value (array value))) string_new)

      -- the fields are set one by one
      pub set_fields : Fields → W → Option W
      set_fields end obj = some obj
      set_fields (field key value fs) obj =
          and_then (string_new key)
            (λ k. and_then (wrap_value value) (λ w. set_fields fs (set obj k w)))
