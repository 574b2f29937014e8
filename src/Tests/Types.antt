-- ===== src/Tests/Types.antt =====
-- Values on a concrete codec: a list of byte lists is written with each byte raised by one and a zero
-- after each item, and only the empty object is written.
use lightflus.Base.{
  ℕ, zero, suc, ◌≤◌, ◌<◌, ◌^◌, true, false, Option, none, some, Ordering, List, [], ◌∷◌, ◌++◌, ◌≡◌,
  ◌≢◌, ◌↔◌, refl, ap, All, map, length, ltb, take, if◌then◌else◌, arith, map_option,
}
use lightflus.Base.Utf8.{is_utf8}
use lightflus.Base.Word.{of_be, of_be-be_bytes, be_bytes}
use lightflus.Types.{
  TypedValue, Fields, Formats, get_data, from_vec, from_slice, typed_eq, partial_cmp, cmp,
}
use lightflus.Types.{decoded, out_of_fuel}
use lightflus.Types.{string, big_int, boolean, array, nil, cons, end, field}
use lightflus.Types.RoundTrip.{IsFaithful, IsStorable, from_vec-get_data}
use lightflus.Types.Fuel.{decode_settles}
use lightflus.Types.OrderLaws.{partial_cmp_lem, reverse, cmp-incomparable}
use lightflus.Tests.Fixtures.{bytes}

abbrev pub read_word : List ℕ → Option ℕ
unfolding of_be
read_word bs = if ltb (length bs) 8 then none else some (of_be (take 8 bs) 0)

abbrev pub write_items : List (List ℕ) → List ℕ
write_items [] = []
write_items (d ∷ ds) = map suc d ++ 0 ∷ write_items ds

abbrev pub push : ℕ → List (List ℕ) → List (List ℕ)
push b [] = (b ∷ []) ∷ []
push b (d ∷ ds) = (b ∷ d) ∷ ds

abbrev pub read_items : List ℕ → List (List ℕ)
read_items [] = []
read_items (zero ∷ bs) = [] ∷ read_items bs
read_items (suc b ∷ bs) = push b (read_items bs)

abbrev pub write_object : Fields → Option (List ℕ)
write_object end = some []
write_object (field k v m) = none

abbrev pub read_object : List ℕ → Option Fields
read_object [] = some end
read_object (b ∷ bs) = none

abbrev pub plain : Formats
plain = record {
  get_i64 = read_word;
  get_f64 = read_word;
  object_to_vec = write_object;
  object_from_slice = read_object;
  items_to_vec = λ ds. some (write_items ds);
  items_from_slice = λ bs. some (read_items bs);
}

read-append : (d bs : List ℕ) → read_items (map suc d ++ 0 ∷ bs) ≡ d ∷ read_items bs
read-append [] bs = refl
read-append (b ∷ d) bs = rw (read-append d bs) refl

read-write : (ds : List (List ℕ)) → read_items (write_items ds) ≡ ds
read-write [] = refl
read-write (d ∷ ds) = rw (read-append d (write_items ds), read-write ds) refl

All-up : (n : ℕ) (ds : List (List ℕ)) → All (λ d. length d ≤ n) ds → All (λ d. length d ≤ suc n) ds
All-up n [] h = tt
All-up n (d ∷ ds) h = (omega arith, All-up n ds h.1)

short-push :
    (b n : ℕ) (ds : List (List ℕ))
    → All (λ d. length d ≤ n) ds
    → All (λ d. length d ≤ suc n) (push b ds)
short-push b n [] h = (omega arith, tt)
short-push b n (d ∷ ds) h = (omega arith, All-up n ds h.1)

short-read : (bs : List ℕ) → All (λ d. length d ≤ length bs) (read_items bs)
short-read [] = tt
short-read (zero ∷ bs) = (omega arith, All-up _ (read_items bs) (short-read bs))
short-read (suc b ∷ bs) = short-push b (length bs) (read_items bs) (short-read bs)

items_short :
    (ds : List (List ℕ)) (text : List ℕ)
    → some (read_items text) ≡ some ds
    → All (λ d. length d ≤ length text) ds
items_short ds text e = let same : ds ≡ read_items text = cc in rw same (short-read text)

word_back : (x : ℕ) → x < 2 ^ 64 → read_word (be_bytes 8 x) ≡ some x
unfolding be_bytes read_word
word_back x h = ap some (of_be-be_bytes x h)

pub plain-IsFaithful : IsFaithful plain
plain-IsFaithful = record {
  i64_back = word_back;
  f64_back = word_back;
  items_back = λ ds. (write_items ds, refl, ap some (read-write ds));
  items_short = items_short;
}

-- ["ab", 7n, [true]]
abbrev sample : TypedValue
sample =
    array
      (cons (string (bytes "ab")) (cons (big_int 7) (cons (array (cons (boolean true) nil)) nil)))

sample-IsStorable : IsStorable plain sample
unfolding is_utf8
sample-IsStorable = (refl, (omega arith, ((tt, tt), tt)))

from_vec-get_data_example :
    (from_vec plain (get_data plain sample) ≡ decoded sample)
    × (from_slice plain (get_data plain sample) ≡ decoded sample)
from_vec-get_data_example = from_vec-get_data plain plain-IsFaithful sample sample-IsStorable

decode_settles_example :
    (from_vec plain (7 ∷ 3 ∷ 9 ∷ 0 ∷ []) ≢ out_of_fuel)
    × (from_slice plain (7 ∷ 3 ∷ 9 ∷ 0 ∷ []) ≢ out_of_fuel)
decode_settles_example = decode_settles plain items_short (7 ∷ 3 ∷ 9 ∷ 0 ∷ [])

partial_cmp_lem_example :
    ((partial_cmp sample (array nil) ≡ some Ordering.eq) ↔ (typed_eq sample (array nil) ≡ true))
    × (partial_cmp (array nil) sample ≡ map_option reverse (partial_cmp sample (array nil)))
partial_cmp_lem_example = partial_cmp_lem sample (array nil)

text_and_integers :
    (cmp (string (bytes "2")) (big_int 2) ≡ Ordering.eq)
    × (cmp (string (bytes "2")) (big_int 3) ≡ Ordering.eq)
    × (cmp (big_int 2) (big_int 3) ≡ Ordering.lt)
    × (typed_eq (string (bytes "2")) (big_int 2) ≡ false)
text_and_integers = cmp-incomparable (bytes "2")
