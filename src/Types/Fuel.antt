-- ===== src/Types/Fuel.antt =====
-- The fuel of the decoder (src/common/src/types.rs, TypedValue::from_vec) always suffices.
use lightflus.Base.{
  ℕ, zero, suc, ◌≤◌, ◌<◌, some, List, [], ◌∷◌, ◌≡◌, ◌≢◌, All, length, arith, Option-cases, inl, inr,
  unwrap_or,
}
use lightflus.Proto.Graph.{DataTypeEnum}
use lightflus.Types.Value.{Values}
use lightflus.Types.Codec.{
  Formats, Decoded, out_of_fuel, decode, decode_all, decode_with, decode_as, from_vec, from_slice,
}

-- What is assumed of the JSON of a list of byte lists: no item is longer than the text.
abbrev pub ItemsShort : Formats → Type 0
ItemsShort f =
    (ds : List (List ℕ)) (text : List ℕ)
    → f.items_from_slice text ≡ some ds
    → All (λ d. length d ≤ length text) ds

abbrev Settled : {A : Type 0} → Decoded A → Type 0
Settled r = r ≢ out_of_fuel

module _ (f : Formats) (short : ItemsShort f) where
  Settled-decode_all :
      (k n : ℕ) (ds : List (List ℕ))
      → ((d : List ℕ) → length d < k → Settled (decode f k d))
      → All (λ d. length d ≤ n) ds
      → n < k
      → Settled (decode_all f (decode f k) ds)
  unfolding decode_all
  Settled-decode_all k n [] step h lt = λ e. cc
  Settled-decode_all k n (d ∷ ds) step h lt =
      ground (arith, step d (omega arith), Settled-decode_all k n ds step h.1 lt)

  Settled-items :
      (k : ℕ) (rest : List ℕ)
      → ((d : List ℕ) → length d < k → Settled (decode f k d))
      → length rest < k
      → Settled (decode_all f (decode f k) (unwrap_or (f.items_from_slice rest) []))
  unfolding decode_all
  Settled-items k rest step lt = elim (Option-cases (f.items_from_slice rest)) [
    | inl e ↦ rw e (λ e'. cc)
    | inr (ds, e) ↦ rw e (Settled-decode_all k (length rest) ds step (short ds rest e) lt)
  ]

  Settled-decode_as :
      (items : List (List ℕ) → Decoded Values) (t : DataTypeEnum) (rest : List ℕ)
      → Settled (items (unwrap_or (f.items_from_slice rest) []))
      → Settled (decode_as f items t rest)
  unfolding decode_as
  Settled-decode_as items DataTypeEnum.string rest h = ground arith
  Settled-decode_as items _ rest h = ground arith

  Settled-decode : (k : ℕ) (bytes : List ℕ) → length bytes < k → Settled (decode f k bytes)
  unfolding decode decode_with
  Settled-decode zero bytes lt = elim lt [ ]
  Settled-decode (suc k) [] lt = λ e. cc
  Settled-decode (suc k) (tag ∷ rest) lt =
      Settled-decode_as (decode_all f (decode f k)) _ rest
        (Settled-items k rest (Settled-decode k) (omega arith))

  -- Whatever the bytes, the decoders answer with a value or panic: their fuel does not run out.
  pub decode_settles :
      (bytes : List ℕ) → (from_vec f bytes ≢ out_of_fuel) × (from_slice f bytes ≢ out_of_fuel)
  unfolding from_vec from_slice decode
  decode_settles bytes =
      let settled = Settled-decode (suc (length bytes)) bytes (omega arith) in (settled, settled)
