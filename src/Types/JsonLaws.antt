-- ===== src/Types/JsonLaws.antt =====
-- Values and their JSON, there and back (src/common/src/types.rs).
use lightflus.Base.{◌≡◌, refl, ◌∙◌, ap, if◌then◌else◌, Bool-cases, inl, inr, ltb}
use lightflus.Base.Word.{sign_bit, is_finite}
use lightflus.Types.Value.{
  TypedValue, Fields, Values, string, big_int, boolean, number, null, object, array, invalid, end,
  field, nil, cons,
}
use lightflus.Types.Json.{
  to_json_value, to_json_fields, to_json_items, from_json_value, from_json_fields, from_json_items,
}

-- What JSON keeps of a value: an invalid value is null in it, and a number that is not finite is
-- the integer zero.
unfoldable mutual
  pub in_json : TypedValue → TypedValue
  in_json (string v) = string v
  in_json (big_int v) = big_int v
  in_json (boolean v) = boolean v
  in_json (number v) = if is_finite v then number v else big_int 0
  in_json null = null
  in_json (object v) = object (fields_in_json v)
  in_json (array v) = array (values_in_json v)
  in_json invalid = null

  pub fields_in_json : Fields → Fields
  fields_in_json end = end
  fields_in_json (field k v fs) = field k (in_json v) (fields_in_json fs)

  pub values_in_json : Values → Values
  values_in_json nil = nil
  values_in_json (cons v vs) = cons (in_json v) (values_in_json vs)

mutual
  unfolding to_json_value to_json_fields to_json_items from_json_value from_json_fields
      from_json_items in_json fields_in_json values_in_json

  back : (v : TypedValue) → from_json_value (to_json_value v) ≡ in_json v
  back (string v) = refl
  back (big_int v) = elim (Bool-cases (ltb v sign_bit)) [ inl e ↦ rw e refl | inr e ↦ rw e refl ]
  back (boolean v) = refl
  back (number v) = elim (Bool-cases (is_finite v)) [ inl e ↦ rw e refl | inr e ↦ rw e refl ]
  back null = refl
  back (object v) = ap object (back_fields v)
  back (array v) = ap array (back_items v)
  back invalid = refl

  back_fields : (fs : Fields) → from_json_fields (to_json_fields fs) ≡ fields_in_json fs
  back_fields end = refl
  back_fields (field k v fs) = rw (back v, back_fields fs) refl

  back_items : (vs : Values) → from_json_items (to_json_items vs) ≡ values_in_json vs
  back_items nil = refl
  back_items (cons v vs) = rw (back v, back_items vs) refl

mutual
  unfolding to_json_value to_json_fields to_json_items in_json fields_in_json values_in_json

  again : (v : TypedValue) → in_json (in_json v) ≡ in_json v
  again (string v) = refl
  again (big_int v) = refl
  again (boolean v) = refl
  again (number v) = elim (Bool-cases (is_finite v)) [ inl e ↦ rw (e, e) refl | inr e ↦ rw e refl ]
  again null = refl
  again (object v) = ap object (again_fields v)
  again (array v) = ap array (again_items v)
  again invalid = refl

  again_fields : (fs : Fields) → fields_in_json (fields_in_json fs) ≡ fields_in_json fs
  again_fields end = refl
  again_fields (field k v fs) = rw (again v, again_fields fs) refl

  again_items : (vs : Values) → values_in_json (values_in_json vs) ≡ values_in_json vs
  again_items nil = refl
  again_items (cons v vs) = rw (again v, again_items vs) refl

-- A value read back from its JSON is what JSON keeps of the value: null for an invalid value, the
-- integer zero for a number that is not finite, and the same at every depth for all else. A second
-- trip changes nothing more.
pub from_json_value-to_json_value :
    (v : TypedValue)
    → (from_json_value (to_json_value v) ≡ in_json v)
      × (from_json_value (to_json_value (in_json v)) ≡ in_json v)
from_json_value-to_json_value v = (back v, back (in_json v) ∙ again v)
