-- ===== src/Runtime/Loop.antt =====
-- The loop over the names of an object: to_typed_value of
-- src/stream/src/v8_runtime.rs.
use lightflus.Base.{
  ℕ, zero, suc, ◌+◌, ◌≤◌, ◌<◌, Bool, true, false, Option, some, List, [], Str, map_option,
  unwrap_or, same, list_ord, nat_ord, ◌≡◌, refl, ap, subst, ◌∙◌, ◌||◌, ◌==◌, list_cmp_refl, arith,
  Bool-cases, inl, inr,
}
use lightflus.Base.BTreeMap
use lightflus.Types.{TypedValue, Fields, object, end, Decoded, decoded}
use lightflus.Runtime.Convert.{V8, properties, property, of_object, of_names}
use lightflus.Runtime.Laws.{NameAt, IndexOf, IsObjectOf}
use lightflus.Runtime.Objects.{
  IsAscending, get_field, keep_fields, insert-keep, keep-all, keep-none,
}
use lightflus.Runtime.Matching.{Matches, field_of, entry_of}

module _ {W : Type 0} (v8 : V8 W) (rec : W → Decoded (Option TypedValue)) where
  -- the key at an index of the names
  key_at : W → ℕ → Str
  key_at names i = unwrap_or (map_option v8.to_rust_string_lossy (v8.get_index names i)) []

  -- what a test of keys is after the loop over n names
  seen : W → ℕ → ℕ → (Str → Bool) → Str → Bool
  seen names zero i p = p
  seen names (suc n) i p = seen names n (i + 1) (λ j. same j (key_at names i) || p j)

  seen-before :
      (names : W) (n i : ℕ) (p : Str → Bool) (k : Str) → p k ≡ true → seen names n i p k ≡ true
  unfolding seen
  seen-before names zero i p k h = h
  seen-before names (suc n) i p k h =
      seen-before names n (i + 1) (λ j. same j (key_at names i) || p j) k (ground arith)

  seen_here :
      (names : W) (i x : ℕ) (p : Str → Bool)
      → i ≡ x
      → (same (key_at names x) (key_at names i) || p (key_at names x)) ≡ true
  seen_here names i x p e = rw (← e, list_cmp_refl (key_at names i)) refl

  seen-at :
      (names : W) (n i x : ℕ) (p : Str → Bool)
      → i ≤ x
      → x < i + n
      → seen names n i p (key_at names x) ≡ true
  unfolding seen
  seen-at names zero i x p h lt = ground arith
  seen-at names (suc n) i x p h lt = elim (Bool-cases (i == x)) [
    | inl e ↦
        seen-before names n (i + 1) (λ j. same j (key_at names i) || p j) (key_at names x)
          (seen_here names i x p (ground arith))
    | inr e ↦
        seen-at names n (i + 1) x (λ j. same j (key_at names i) || p j) (ground arith) (omega arith)
  ]

  module _ (fs : Fields) (es : List (Str × W)) (ok : Matches v8 rec fs es)
      (asc : IsAscending fs) where
    property-keep :
        (obj names : W) (i : ℕ) (p : Str → Bool)
        → NameAt v8 es obj names i
        → property v8 rec obj (keep_fields p fs) (v8.get_index names i)
          ≡ decoded (keep_fields (λ j. same j (key_at names i) || p j) fs)
    unfolding key_at
    property-keep obj names i p at =
        let (v, got, back) = field_of v8 rec _ at.value fs es ok at.in_entries in
        rw (at.at_index, at.in_object, back)
          (ap decoded (insert-keep p (v8.to_rust_string_lossy at.key) v fs asc got))

    properties-keep :
        (obj names : W) (n i : ℕ) (p : Str → Bool)
        → ((x : ℕ) → x < i + n → NameAt v8 es obj names x)
        → properties v8 rec obj names n i (keep_fields p fs)
          ≡ decoded (keep_fields (seen names n i p) fs)
    unfolding properties seen
    properties-keep obj names zero i p h = refl
    properties-keep obj names (suc n) i p h = rw (property-keep obj names i p (h i (omega arith))) (
        properties-keep obj names n (i + 1) (λ j. same j (key_at names i) || p j)
          (λ x lt. h x (omega arith)))

    seen-all :
        (obj names : W)
        → ((k : Str) (w : W) → BTreeMap.get k es ≡ some w → IndexOf v8 names k)
        → (k : Str) (v : TypedValue) → get_field k fs ≡ some v
        → seen names (v8.length names) 0 (λ j. false) k ≡ true
    unfolding key_at
    seen-all obj names complete k v got =
        let (w, found) = entry_of v8 rec k v fs es ok got in
        let ix = complete k w found in
        subst (λ j. seen names (v8.length names) 0 (λ j. false) j ≡ true)
          (rw ix.at_index ix.is_name)
          (seen-at names (v8.length names) 0 ix.index (λ j. false) (omega arith)
            (subst (λ n. ix.index < n) (omega arith) ix.below))

    properties-decoded :
        (obj : W) (made : IsObjectOf v8 es obj)
        → properties v8 rec obj made.names (v8.length made.names) 0 end ≡ decoded fs
    properties-decoded obj made =
        rw (← keep-none fs) (
          properties-keep obj made.names (v8.length made.names) 0 (λ j. false)
            (λ x lt. made.sound x (omega arith)))
        ∙ ap decoded (
            keep-all (seen made.names (v8.length made.names) 0 (λ j. false)) fs
              (seen-all obj made.names made.complete) asc)

    pub of_object-decoded :
        (obj : W)
        → IsObjectOf v8 es obj
        → of_object v8 rec (v8.to_object obj) ≡ decoded (some (object fs))
    unfolding of_names
    of_object-decoded obj made = rw (made.itself, made.own_names, properties-decoded obj made) refl
