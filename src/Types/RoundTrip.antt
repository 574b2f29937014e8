-- ===== src/Types/RoundTrip.antt =====
-- Decoding what was encoded: TypedValue::from_vec and from_slice after get_data
-- (src/common/src/types.rs).
use lightflus.Base.{
  ℕ, zero, suc, ◌≤◌, ◌<◌, true, false, some, List, [], ◌∷◌, ◌≡◌, refl, All, length, arith,
}
use lightflus.Base.Word.{be_bytes, modulus}
use lightflus.Base.Utf8.{from_utf8, is_utf8}
use lightflus.Proto.Graph.{from_i32}
use lightflus.Types.Value.{
  TypedValue, Values, string, big_int, boolean, number, null, object, array, invalid, nil, cons,
}
use lightflus.Types.Codec.{
  Formats, decoded, get_data, get_data_all, decode, decode_all, decode_with, decode_as, from_vec,
  from_slice,
}

-- What the crates document: a big-endian read undoes the big-endian bytes, and the JSON text of a
-- list of byte lists parses back. A text is no shorter than an item that was read from it.
pub record IsFaithful (f : Formats) : Type 0 where
  pub i64_back : (x : ℕ) → x < modulus → f.get_i64 (be_bytes 8 x) ≡ some x
  pub f64_back : (x : ℕ) → x < modulus → f.get_f64 (be_bytes 8 x) ≡ some x
  pub items_back :
      (ds : List (List ℕ))
      → (text : List ℕ) × (f.items_to_vec ds ≡ some text) × (f.items_from_slice text ≡ some ds)
  pub items_short :
      (ds : List (List ℕ)) (text : List ℕ)
      → f.items_from_slice text ≡ some ds
      → All (λ d. length d ≤ length text) ds

module _ (f : Formats) where
  -- A string is UTF-8, a number has 64 bits, and the text of an object parses back.
  abbrev mutual
    pub IsStorable : TypedValue → Type 0
    IsStorable (string s) = is_utf8 s ≡ true
    IsStorable (big_int x) = x < modulus
    IsStorable (number x) = x < modulus
    IsStorable (object o) =
        (text : List ℕ) × (f.object_to_vec o ≡ some text) × (f.object_from_slice text ≡ some o)
    IsStorable (array vs) = AllStorable vs
    IsStorable (boolean b) = Unit
    IsStorable null = Unit
    IsStorable invalid = Unit

    pub AllStorable : Values → Type 0
    AllStorable nil = Unit
    AllStorable (cons v vs) = IsStorable v × AllStorable vs

module _ (f : Formats) (faithful : IsFaithful f) where
  open faithful use {i64_back, f64_back, items_back, items_short}

  short-All :
      (ds : List (List ℕ)) (n k : ℕ)
      → All (λ d. length d ≤ n) ds
      → n < k
      → All (λ d. length d < k) ds
  short-All [] n k h lt = tt
  short-All (d ∷ ds) n k h lt = (omega arith, short-All ds n k h.1 lt)

  mutual
    unfolding get_data decode decode_with decode_as decode_all from_utf8 from_i32

    decode-get_data :
        (v : TypedValue)
        → IsStorable f v
        → (fuel : ℕ) → length (get_data f v) < fuel
        → decode f fuel (get_data f v) ≡ decoded v
    decode-get_data v h zero lt = elim lt [ ]
    decode-get_data (string s) h (suc k) lt = rw h refl
    decode-get_data (big_int x) h (suc k) lt = rw (i64_back x h) refl
    decode-get_data (number x) h (suc k) lt = rw (f64_back x h) refl
    decode-get_data (boolean true) h (suc k) lt = refl
    decode-get_data (boolean false) h (suc k) lt = refl
    decode-get_data null h (suc k) lt = refl
    decode-get_data invalid h (suc k) lt = refl
    decode-get_data (object o) h (suc k) lt = rw (h.1, h.2) refl
    decode-get_data (array vs) h (suc k) lt =
        let (text, written, back) = items_back (get_data_all f vs) in
        let fits : length text < k = omega (arith, rw written at lt) in
        let read =
          decode_all-get_data_all vs h k
            (short-All (get_data_all f vs) (length text) k (items_short _ text back) fits) in
        rw (written, back, read) refl

    decode_all-get_data_all :
        (vs : Values)
        → AllStorable f vs
        → (k : ℕ) → All (λ d. length d < k) (get_data_all f vs)
        → decode_all f (decode f k) (get_data_all f vs) ≡ decoded vs
    decode_all-get_data_all nil h k lt = refl
    decode_all-get_data_all (cons v vs) h k lt =
        rw (decode-get_data v h.0 k lt.0, decode_all-get_data_all vs h.1 k lt.1) refl

  -- A storable value comes back from its bytes, by `from_vec` and by `from_slice`, neither of
  -- which panics or runs out of fuel on them.
  pub from_vec-get_data :
      (v : TypedValue)
      → IsStorable f v
      → (from_vec f (get_data f v) ≡ decoded v) × (from_slice f (get_data f v) ≡ decoded v)
  unfolding from_vec from_slice decode
  from_vec-get_data v h =
      let back = decode-get_data v h (suc (length (get_data f v))) (omega arith) in (back, back)
