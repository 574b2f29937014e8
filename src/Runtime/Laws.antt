-- ===== src/Runtime/Laws.antt =====
-- What is assumed of the crate v8 (src/stream/src/v8_runtime.rs).
use lightflus.Base.{
  ℕ, ◌≤◌, ◌<◌, Bool, true, false, Option, none, some, List, [], ◌∷◌, Str, and_then, length, same,
  list_ord, nat_ord, ◌≡◌,
}
use lightflus.Base.Word.{is_nan}
use lightflus.Base.BTreeMap
use lightflus.Runtime.Convert.{V8, Kind, kind_of}

-- "__proto__": a property of this name is the prototype of the object
abbrev pub proto : Str
proto = 95 ∷ 95 ∷ 112 ∷ 114 ∷ 111 ∷ 116 ∷ 111 ∷ 95 ∷ 95 ∷ []

module _ {W : Type 0} (v8 : V8 W) where
  -- properties that are set one by one
  unfoldable pub set_entries : List (Str × W) → W → Option W
  set_entries [] obj = some obj
  set_entries ((k, w) ∷ es) obj =
      and_then (v8.string_new k) (λ key. set_entries es (v8.set obj key w))

  -- No key is there twice, and none is the prototype's.
  unfoldable pub IsProper : List (Str × W) → Type 0
  IsProper [] = Unit
  IsProper ((k, w) ∷ es) = (same k proto ≡ false) × (BTreeMap.get k es ≡ none) × IsProper es

  -- a name of an object at an index, with the key and its value
  pub record NameAt (es : List (Str × W)) (obj names : W) (i : ℕ) : Type 0 where
    pub key : W
    pub value : W
    pub at_index : v8.get_index names i ≡ some key
    pub in_entries : BTreeMap.get (v8.to_rust_string_lossy key) es ≡ some value
    pub in_object : v8.get obj key ≡ some value

  -- the index of a name
  pub record IndexOf (names : W) (k : Str) : Type 0 where
    pub index : ℕ
    pub key : W
    pub below : index < v8.length names
    pub at_index : v8.get_index names index ≡ some key
    pub is_name : v8.to_rust_string_lossy key ≡ k

  -- the own properties of an object are those that were set, in some order
  pub record IsObjectOf (es : List (Str × W)) (obj : W) : Type 0 where
    pub kind : kind_of v8 obj ≡ Kind.object_kind
    pub itself : v8.to_object obj ≡ some obj
    pub names : W
    pub own_names : v8.get_own_property_names obj ≡ some names
    pub sound : (i : ℕ) → i < v8.length names → NameAt es obj names i
    pub complete : (k : Str) (w : W) → BTreeMap.get k es ≡ some w → IndexOf names k

  -- a value that is the string of a text
  pub record IsStringOf (s : Str) : Type 0 where
    pub made : W
    pub is_made : v8.string_new s ≡ some made
    pub kind : kind_of v8 made ≡ Kind.string_kind
    pub itself : v8.to_string made ≡ some made
    pub read : v8.to_rust_string_lossy made ≡ s

  -- A value is of the kind that it was made as, and read as it was made, a number unless it is a
  -- NaN. Strings have a greatest length.
  pub record IsV8 : Type 0 where
    pub max_length : ℕ
    pub string_made : (s : Str) → length s ≤ max_length → IsStringOf s
    pub big_int_kind : (x : ℕ) → kind_of v8 (v8.big_int_new_from_i64 x) ≡ Kind.big_int_kind
    pub big_int_itself :
        (x : ℕ) → v8.to_big_int (v8.big_int_new_from_i64 x) ≡ some (v8.big_int_new_from_i64 x)
    pub big_int_read : (x : ℕ) → v8.i64_value (v8.big_int_new_from_i64 x) ≡ (x, true)
    pub boolean_kind : (b : Bool) → kind_of v8 (v8.boolean_new b) ≡ Kind.boolean_kind
    pub boolean_read : (b : Bool) → v8.is_true (v8.boolean_new b) ≡ b
    pub number_kind : (x : ℕ) → kind_of v8 (v8.number_new x) ≡ Kind.number_kind
    pub number_read : (x : ℕ) → is_nan x ≡ false → v8.number_value (v8.number_new x) ≡ some x
    pub null_kind : kind_of v8 v8.new_null ≡ Kind.null_kind
    pub undefined_kind : kind_of v8 v8.undefined ≡ Kind.undefined_kind
    pub object_made :
        (es : List (Str × W)) (obj : W)
        → IsProper es
        → set_entries es v8.object_new ≡ some obj
        → IsObjectOf es obj
