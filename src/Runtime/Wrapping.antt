-- ===== src/Runtime/Wrapping.antt =====
-- A value through the JavaScript engine and back: wrap_value and to_typed_value of
-- src/stream/src/v8_runtime.rs.
use lightflus.Base.{
  ℕ, zero, suc, ◌<◌, some, List, [], ◌∷◌, Str, list_ord, nat_ord, ◌≡◌, refl, arith,
}
use lightflus.Types.{
  TypedValue, Fields, string, big_int, boolean, number, null, object, array, invalid, end, field,
  decoded, JsonText,
}
use lightflus.Runtime.Convert.{V8, wrap_value, set_fields, to_typed_value, convert}
use lightflus.Runtime.Laws.{set_entries, IsV8}
use lightflus.Runtime.Matching.{
  IsTransferable, AreTransferable, nesting, nesting_in, Matches, Matches-IsProper,
}
use lightflus.Runtime.Loop.{of_object-decoded}

module _ {W : Type 0} (v8 : V8 W) (text : JsonText) (laws : IsV8 v8) where
  -- what the fields of an object are set from
  record Set (fuel : ℕ) (fs : Fields) (obj : W) : Type 0 where
    entries : List (Str × W)
    result : W
    matches : Matches v8 (to_typed_value v8 fuel) fs entries
    set : set_fields v8 text fs obj ≡ some result
    same_set : set_entries v8 entries obj ≡ some result

  Back : ℕ → TypedValue → Type 0
  Back fuel v =
      (w : W) × (wrap_value v8 text v ≡ some w) × (to_typed_value v8 fuel w ≡ decoded (some v))

  mutual
    unfolding IsTransferable AreTransferable nesting nesting_in wrap_value set_fields to_typed_value
        convert Matches set_entries Back

    back :
        (v : TypedValue) (fuel : ℕ)
        → IsTransferable laws.max_length v
        → nesting v < fuel
        → Back fuel v
    back v zero t le = ground arith
    back (string v) (suc fuel) t le =
        let s = laws.string_made v t in (s.made, s.is_made, rw (s.kind, s.itself, s.read) refl)
    back (big_int v) (suc fuel) t le = (
      v8.big_int_new_from_i64 v,
      refl,
      rw (laws.big_int_kind v, laws.big_int_itself v, laws.big_int_read v) refl,
    )
    back (boolean v) (suc fuel) t le =
        (v8.boolean_new v, refl, rw (laws.boolean_kind v, laws.boolean_read v) refl)
    back (number v) (suc fuel) t le =
        (v8.number_new v, refl, rw (laws.number_kind v, laws.number_read v t) refl)
    back null (suc fuel) t le = (v8.new_null, refl, rw laws.null_kind refl)
    back invalid (suc fuel) t le = (v8.undefined, refl, rw laws.undefined_kind refl)
    back (array v) (suc fuel) t le = elim t [ ]
    back (object v) (suc fuel) t le =
        let s = back_fields v fuel v8.object_new t.1 (omega arith) in
        let made =
          laws.object_made s.entries s.result
            (Matches-IsProper v8 (to_typed_value v8 fuel) laws.max_length v s.entries s.matches t.0
              t.1)
            s.same_set in
        (
          s.result,
          s.set,
          rw made.kind (
              of_object-decoded v8 (to_typed_value v8 fuel) v s.entries s.matches t.0 s.result
                made),
        )

    back_fields :
        (fs : Fields) (fuel : ℕ) (obj : W)
        → AreTransferable laws.max_length fs
        → nesting_in fs < fuel
        → Set fuel fs obj
    back_fields end fuel obj t le = record {
      entries = [];
      result = obj;
      matches = tt;
      set = refl;
      same_set = refl;
    }
    back_fields (field k v fs) fuel obj t le =
        let key = laws.string_made k t.0 in
        let (w, wrapped, converted) = back v fuel t.2 (omega arith) in
        let rest = back_fields fs fuel (v8.set obj key.made w) t.3 (omega arith) in
        record {
          entries = (k, w) ∷ rest.entries;
          result = rest.result;
          matches = (refl, converted, rest.matches);
          set = rw (key.is_made, wrapped) rest.set;
          same_set = rw key.is_made rest.same_set;
        }

-- Under the laws of the engine, a value that holds no array and no NaN is wrapped for it without a
-- panic and converted back to itself, at any fuel above the nesting of its objects, where its strings
-- and keys are not longer than the engine allows and the keys of its objects stand in their order,
-- none of them "__proto__".
pub to_typed_value-wrap_value :
    {W : Type 0} (v8 : V8 W) (text : JsonText) (laws : IsV8 v8) (v : TypedValue) (fuel : ℕ)
    → IsTransferable laws.max_length v
    → nesting v < fuel
    → (w : W) × (wrap_value v8 text v ≡ some w) × (to_typed_value v8 fuel w ≡ decoded (some v))
unfolding Back
to_typed_value-wrap_value v8 text laws v fuel = back v8 text laws v fuel
