-- ===== src/Types/OrderLaws.antt =====
-- The comparisons of values agree with each other (src/common/src/types.rs, PartialEq, PartialOrd
-- and Ord of TypedValue).
use lightflus.Base.{
  ℕ, Bool, true, false, ◌&&◌, Option, none, some, Ordering, compare, ◌≡◌, ◌↔◌, refl, ap, [], ◌∷◌,
  Str, map_option, nat_ord, list_ord, list_cmp, arith, is_eq, is_eq_iff,
}
use lightflus.Base.Word.{i64_cmp, i64_eq, f64_cmp, f64_eq}
use lightflus.Types.Value.{
  TypedValue, Fields, Values, string, big_int, boolean, number, null, object, array, invalid, end,
  field, nil, cons,
}
use lightflus.Types.Order.{
  typed_eq, fields_eq, values_eq, partial_cmp, fields_cmp, values_cmp, cmp, bool_cmp, bool_eq,
  then_partial,
}

abbrev Both : Option Ordering → Bool → Type 0
Both c b = (c ≡ some Ordering.eq) ↔ (b ≡ true)

then_partial-Both :
    (p q : Option Ordering) (a b : Bool) → Both p a → Both q b → Both (then_partial p q) (a && b)
then_partial-Both (some Ordering.eq) q a b f g = rw (f.0 refl) g
then_partial-Both (some Ordering.lt) q true b f g = cc (f.1 refl)
then_partial-Both (some Ordering.gt) q true b f g = cc (f.1 refl)
then_partial-Both none q true b f g = cc (f.1 refl)
then_partial-Both (some Ordering.lt) q false b f g = (λ h. cc, λ h. cc)
then_partial-Both (some Ordering.gt) q false b f g = (λ h. cc, λ h. cc)
then_partial-Both none q false b f g = (λ h. cc, λ h. cc)

never : Both none false
never = (λ h. cc, λ h. cc)

some-Both : (r : Ordering) (b : Bool) → (r ≡ Ordering.eq) ↔ (b ≡ true) → Both (some r) b
some-Both r b f = (λ h. f.0 (cc), λ h. ap some (f.1 h))

is_eq-Both : (r : Ordering) → Both (some r) (is_eq r)
is_eq-Both r = some-Both r (is_eq r) ((is_eq_iff r).1, (is_eq_iff r).0)

f64-Both : (a b : ℕ) → Both (f64_cmp a b) (f64_eq a b)
unfolding f64_cmp f64_eq
f64-Both a b = ground arith

i64-Both : (a b : ℕ) → Both (some (i64_cmp a b)) (i64_eq a b)
unfolding i64_cmp i64_eq
i64-Both a b = ground arith

bool-Both : (a b : Bool) → Both (some (bool_cmp a b)) (bool_eq a b)
bool-Both false false = (λ h. refl, λ h. refl)
bool-Both true true = (λ h. refl, λ h. refl)
bool-Both false true = (λ h. cc, λ h. cc)
bool-Both true false = (λ h. cc, λ h. cc)

mutual
  unfolding typed_eq partial_cmp fields_cmp values_cmp fields_eq values_eq

  typed-Both : (v w : TypedValue) → Both (partial_cmp v w) (typed_eq v w)
  typed-Both (string a) (string b) = is_eq-Both (list_cmp a b)
  typed-Both (big_int a) (big_int b) = i64-Both a b
  typed-Both (boolean a) (boolean b) = bool-Both a b
  typed-Both (number a) (number b) = f64-Both a b
  typed-Both (big_int a) (number b) = f64-Both _ _
  typed-Both (number a) (big_int b) = f64-Both _ _
  typed-Both (object a) (object b) = fields-Both a b
  typed-Both (array a) (array b) = values-Both a b
  typed-Both null null = (λ h. refl, λ h. refl)
  typed-Both null invalid = (λ h. refl, λ h. refl)
  typed-Both invalid null = (λ h. refl, λ h. refl)
  typed-Both invalid invalid = (λ h. refl, λ h. refl)
  typed-Both v w = never

  fields-Both : (m n : Fields) → Both (fields_cmp m n) (fields_eq m n)
  fields-Both end end = (λ h. refl, λ h. refl)
  fields-Both end (field j w n) = (λ h. cc, λ h. cc)
  fields-Both (field k v m) end = (λ h. cc, λ h. cc)
  fields-Both (field k v m) (field j w n) =
      then_partial-Both _ _ _ _ (is_eq-Both (list_cmp k j))
        (then_partial-Both _ _ _ _ (typed-Both v w) (fields-Both m n))

  values-Both : (vs ws : Values) → Both (values_cmp vs ws) (values_eq vs ws)
  values-Both nil nil = (λ h. refl, λ h. refl)
  values-Both nil (cons w ws) = (λ h. cc, λ h. cc)
  values-Both (cons v vs) nil = (λ h. cc, λ h. cc)
  values-Both (cons v vs) (cons w ws) =
      then_partial-Both _ _ _ _ (typed-Both v w) (values-Both vs ws)

-- the comparison of the same two values from the other side
abbrev pub reverse : Ordering → Ordering
reverse Ordering.lt = Ordering.gt
reverse Ordering.gt = Ordering.lt
reverse Ordering.eq = Ordering.eq

abbrev Mirrored : Option Ordering → Option Ordering → Type 0
Mirrored p q = q ≡ map_option reverse p

then_partial-Mirrored :
    (p q r s : Option Ordering)
    → Mirrored p q
    → Mirrored r s
    → Mirrored (then_partial p r) (then_partial q s)
then_partial-Mirrored (some Ordering.eq) q r s f g = rw f g
then_partial-Mirrored (some Ordering.lt) q r s f g = rw f refl
then_partial-Mirrored (some Ordering.gt) q r s f g = rw f refl
then_partial-Mirrored none q r s f g = rw f refl

compare_mirrored : (a b : ℕ) → compare b a ≡ reverse (compare a b)
compare_mirrored a b = ground arith

list_cmp_mirrored : (s t : Str) → list_cmp t s ≡ reverse (list_cmp s t)
list_cmp_mirrored [] [] = refl
list_cmp_mirrored [] (y ∷ ys) = refl
list_cmp_mirrored (x ∷ xs) [] = refl
list_cmp_mirrored (x ∷ xs) (y ∷ ys) = ground (arith, compare_mirrored x y, list_cmp_mirrored xs ys)

f64-Mirrored : (a b : ℕ) → Mirrored (f64_cmp a b) (f64_cmp b a)
unfolding f64_cmp
f64-Mirrored a b = ground arith

bool-Mirrored : (a b : Bool) → Mirrored (some (bool_cmp a b)) (some (bool_cmp b a))
bool-Mirrored false false = refl
bool-Mirrored false true = refl
bool-Mirrored true false = refl
bool-Mirrored true true = refl

i64-Mirrored : (a b : ℕ) → Mirrored (some (i64_cmp a b)) (some (i64_cmp b a))
unfolding i64_cmp
i64-Mirrored a b = ap some (compare_mirrored _ _)

mutual
  unfolding partial_cmp fields_cmp values_cmp

  typed-Mirrored : (v w : TypedValue) → Mirrored (partial_cmp v w) (partial_cmp w v)
  typed-Mirrored (string a) (string b) = ap some (list_cmp_mirrored a b)
  typed-Mirrored (big_int a) (big_int b) = i64-Mirrored a b
  typed-Mirrored (boolean a) (boolean b) = bool-Mirrored a b
  typed-Mirrored (number a) (number b) = f64-Mirrored a b
  typed-Mirrored (big_int a) (number b) = f64-Mirrored _ _
  typed-Mirrored (number a) (big_int b) = f64-Mirrored _ _
  typed-Mirrored (object a) (object b) = fields-Mirrored a b
  typed-Mirrored (array a) (array b) = values-Mirrored a b
  typed-Mirrored null null = refl
  typed-Mirrored null invalid = refl
  typed-Mirrored invalid null = refl
  typed-Mirrored invalid invalid = refl
  typed-Mirrored v w = refl

  fields-Mirrored : (m n : Fields) → Mirrored (fields_cmp m n) (fields_cmp n m)
  fields-Mirrored end end = refl
  fields-Mirrored end (field j w n) = refl
  fields-Mirrored (field k v m) end = refl
  fields-Mirrored (field k v m) (field j w n) =
      then_partial-Mirrored (some (list_cmp k j)) _
        (then_partial (partial_cmp v w) (fields_cmp m n)) _ (ap some (list_cmp_mirrored k j))
        (then_partial-Mirrored (partial_cmp v w) _ (fields_cmp m n) _ (typed-Mirrored v w)
          (fields-Mirrored m n))

  values-Mirrored : (vs ws : Values) → Mirrored (values_cmp vs ws) (values_cmp ws vs)
  values-Mirrored nil nil = refl
  values-Mirrored nil (cons w ws) = refl
  values-Mirrored (cons v vs) nil = refl
  values-Mirrored (cons v vs) (cons w ws) =
      then_partial-Mirrored (partial_cmp v w) _ (values_cmp vs ws) _ (typed-Mirrored v w)
        (values-Mirrored vs ws)

-- Two values compare as equal exactly when they are equal, and the comparison from the other side
-- is the reverse.
pub partial_cmp_lem :
    (v w : TypedValue)
    → ((partial_cmp v w ≡ some Ordering.eq) ↔ (typed_eq v w ≡ true))
      × (partial_cmp w v ≡ map_option reverse (partial_cmp v w))
partial_cmp_lem v w = (typed-Both v w, typed-Mirrored v w)

-- Ord, which answers `Equal` for values that do not compare, agrees with neither the equality nor
-- itself: the string is different from both numbers and yet `Equal` to them, and 2 < 3.
pub cmp-incomparable :
    (s : Str)
    → (cmp (string s) (big_int 2) ≡ Ordering.eq)
      × (cmp (string s) (big_int 3) ≡ Ordering.eq)
      × (cmp (big_int 2) (big_int 3) ≡ Ordering.lt)
      × (typed_eq (string s) (big_int 2) ≡ false)
unfolding cmp partial_cmp i64_cmp typed_eq
cmp-incomparable s = (refl, refl, refl, refl)
