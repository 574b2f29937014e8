-- ===== src/Runtime/Matching.antt =====
-- The entries that the fields of an object are set from: wrap_value and to_typed_value of
-- src/stream/src/v8_runtime.rs.
use lightflus.Base.{
  ℕ, suc, ◌+◌, ◌≤◌, false, Option, none, some, List, [], ◌∷◌, Str, length, same, list_ord, nat_ord,
  ◌≡◌, refl, sym, subst, Bool-cases, inl, inr,
}
use lightflus.Base.Word.{is_nan}
use lightflus.Base.BTreeMap
use lightflus.Types.{
  TypedValue, Fields, string, big_int, boolean, number, null, object, array, invalid, end, field,
  Decoded, decoded,
}
use lightflus.Runtime.Convert.{V8}
use lightflus.Runtime.Laws.{proto, IsProper}
use lightflus.Runtime.Objects.{After, IsAscending, get_field}

-- A value that the engine keeps as it is: it holds no array and no NaN, its strings are not longer
-- than n, and the keys of its objects are in their order and none of them is "__proto__".
unfoldable mutual
  pub IsTransferable : ℕ → TypedValue → Type 0
  IsTransferable n (string v) = length v ≤ n
  IsTransferable n (big_int v) = Unit
  IsTransferable n (boolean v) = Unit
  IsTransferable n (number v) = is_nan v ≡ false
  IsTransferable n null = Unit
  IsTransferable n (object v) = IsAscending v × AreTransferable n v
  IsTransferable n (array v) = ⊥
  IsTransferable n invalid = Unit

  pub AreTransferable : ℕ → Fields → Type 0
  AreTransferable n end = Unit
  AreTransferable n (field k v fs) =
      (length k ≤ n) × (same k proto ≡ false) × IsTransferable n v × AreTransferable n fs

-- a bound of how deep objects are nested
unfoldable mutual
  pub nesting : TypedValue → ℕ
  nesting (string v) = 0
  nesting (big_int v) = 0
  nesting (boolean v) = 0
  nesting (number v) = 0
  nesting null = 0
  nesting (object v) = suc (nesting_in v)
  nesting (array v) = 0
  nesting invalid = 0

  pub nesting_in : Fields → ℕ
  nesting_in end = 0
  nesting_in (field k v fs) = nesting v + nesting_in fs

module _ {W : Type 0} (v8 : V8 W) (rec : W → Decoded (Option TypedValue)) where
  -- The values of entries are converted to the fields, in their order.
  unfoldable pub Matches : Fields → List (Str × W) → Type 0
  Matches end [] = Unit
  Matches end (e ∷ es) = ⊥
  Matches (field k v fs) [] = ⊥
  Matches (field k v fs) ((j, w) ∷ es) = (j ≡ k) × (rec w ≡ decoded (some v)) × Matches fs es

  pub field_of :
      (k : Str) (w : W) (fs : Fields) (es : List (Str × W))
      → Matches fs es
      → BTreeMap.get k es ≡ some w
      → (v : TypedValue) × (get_field k fs ≡ some v) × (rec w ≡ decoded (some v))
  unfolding Matches get_field BTreeMap.get
  field_of k w end [] h g = cc
  field_of k w end (e ∷ es) h g = elim h [ ]
  field_of k w (field j v fs) [] h g = elim h [ ]
  field_of k w (field j v fs) ((i, u) ∷ es) h g = elim (Bool-cases (same k i)) [
    | inl e ↦ (v, rw (sym h.0, e) refl, subst (λ x. rec x ≡ decoded (some v)) (cc) h.1)
    | inr e ↦ let (v', got, back) = field_of k w fs es h.2 (cc) in (v', rw (sym h.0, e) got, back)
  ]

  pub entry_of :
      (k : Str) (v : TypedValue) (fs : Fields) (es : List (Str × W))
      → Matches fs es
      → get_field k fs ≡ some v
      → (w : W) × (BTreeMap.get k es ≡ some w)
  unfolding Matches get_field BTreeMap.get
  entry_of k v end [] h g = cc
  entry_of k v end (e ∷ es) h g = elim h [ ]
  entry_of k v (field j w fs) [] h g = elim h [ ]
  entry_of k v (field j w fs) ((i, u) ∷ es) h g = elim (Bool-cases (same k j)) [
    | inl e ↦ (u, rw (h.0, e) refl)
    | inr e ↦ let (u', got) = entry_of k v fs es h.2 (cc) in (u', rw (h.0, e) got)
  ]

  get-After :
      (k : Str) (fs : Fields) (es : List (Str × W))
      → Matches fs es
      → After k fs
      → BTreeMap.get k es ≡ none
  unfolding Matches After BTreeMap.get
  get-After k end [] h a = refl
  get-After k end (e ∷ es) h a = elim h [ ]
  get-After k (field j v fs) [] h a = elim h [ ]
  get-After k (field j v fs) ((i, u) ∷ es) h a = rw (h.0, a.0) (get-After k fs es h.2 a.1)

  pub Matches-IsProper :
      (n : ℕ) (fs : Fields) (es : List (Str × W))
      → Matches fs es
      → IsAscending fs
      → AreTransferable n fs
      → IsProper v8 es
  unfolding Matches IsAscending AreTransferable IsProper
  Matches-IsProper n end [] h a t = tt
  Matches-IsProper n end (e ∷ es) h a t = elim h [ ]
  Matches-IsProper n (field j v fs) [] h a t = elim h [ ]
  Matches-IsProper n (field j v fs) ((i, u) ∷ es) h a t =
      (rw h.0 t.1, rw h.0 (get-After j fs es h.2 a.0), Matches-IsProper n fs es h.2 a.1 t.3)
