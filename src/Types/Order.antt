-- ===== src/Types/Order.antt =====
-- The comparisons of values: PartialEq, PartialOrd and Ord of TypedValue.
use lightflus.Base.{
  Bool, true, false, ◌&&◌, Option, none, some, Ordering, same, nat_ord, list_ord, list_cmp,
  unwrap_or,
}
use lightflus.Base.Word.{i64_cmp, i64_eq, f64_cmp, f64_eq, i64_as_f64}
use lightflus.Types.Value.{
  TypedValue, Fields, Values, string, big_int, boolean, number, null, object, array, invalid, end,
  field, nil, cons,
}

abbrev pub bool_cmp : Bool → Bool → Ordering
bool_cmp false true = Ordering.lt
bool_cmp true false = Ordering.gt
bool_cmp _ _ = Ordering.eq

abbrev pub bool_eq : Bool → Bool → Bool
bool_eq true true = true
bool_eq false false = true
bool_eq _ _ = false

-- PartialEq for TypedValue; objects are equal as maps, arrays as vectors
unfoldable mutual
  pub typed_eq : TypedValue → TypedValue → Bool
  typed_eq (string a) (string b) = same a b
  typed_eq (big_int a) (big_int b) = i64_eq a b
  typed_eq (boolean a) (boolean b) = bool_eq a b
  typed_eq (number a) (number b) = f64_eq a b
  typed_eq (object a) (object b) = fields_eq a b
  typed_eq null null = true
  typed_eq invalid invalid = true
  typed_eq (big_int a) (number b) = f64_eq (i64_as_f64 a) b
  typed_eq (number a) (big_int b) = f64_eq a (i64_as_f64 b)
  typed_eq null invalid = true
  typed_eq invalid null = true
  typed_eq (array a) (array b) = values_eq a b
  typed_eq _ _ = false

  pub fields_eq : Fields → Fields → Bool
  fields_eq end end = true
  fields_eq end (field j w n) = false
  fields_eq (field k v m) end = false
  fields_eq (field k v m) (field j w n) = same k j && (typed_eq v w && fields_eq m n)

  pub values_eq : Values → Values → Bool
  values_eq nil nil = true
  values_eq nil (cons w ws) = false
  values_eq (cons v vs) nil = false
  values_eq (cons v vs) (cons w ws) = typed_eq v w && values_eq vs ws

-- Iterator::partial_cmp goes on past elements that compare equal, and stops at any others
abbrev pub then_partial : Option Ordering → Option Ordering → Option Ordering
then_partial (some Ordering.eq) r = r
then_partial (some Ordering.lt) r = some Ordering.lt
then_partial (some Ordering.gt) r = some Ordering.gt
then_partial none r = none

-- PartialOrd for TypedValue
unfoldable mutual
  pub partial_cmp : TypedValue → TypedValue → Option Ordering
  partial_cmp (string a) (string b) = some (list_cmp a b)
  partial_cmp (big_int a) (big_int b) = some (i64_cmp a b)
  partial_cmp (boolean a) (boolean b) = some (bool_cmp a b)
  partial_cmp (number a) (number b) = f64_cmp a b
  partial_cmp (object a) (object b) = fields_cmp a b
  partial_cmp null null = some Ordering.eq
  partial_cmp invalid invalid = some Ordering.eq
  partial_cmp (big_int a) (number b) = f64_cmp (i64_as_f64 a) b
  partial_cmp (number a) (big_int b) = f64_cmp a (i64_as_f64 b)
  partial_cmp null invalid = some Ordering.eq
  partial_cmp invalid null = some Ordering.eq
  partial_cmp (array a) (array b) = values_cmp a b
  partial_cmp _ _ = none

  pub fields_cmp : Fields → Fields → Option Ordering
  fields_cmp end end = some Ordering.eq
  fields_cmp end (field j w n) = some Ordering.lt
  fields_cmp (field k v m) end = some Ordering.gt
  fields_cmp (field k v m) (field j w n) =
      then_partial (some (list_cmp k j)) (then_partial (partial_cmp v w) (fields_cmp m n))

  pub values_cmp : Values → Values → Option Ordering
  values_cmp nil nil = some Ordering.eq
  values_cmp nil (cons w ws) = some Ordering.lt
  values_cmp (cons v vs) nil = some Ordering.gt
  values_cmp (cons v vs) (cons w ws) = then_partial (partial_cmp v w) (values_cmp vs ws)

-- Ord for TypedValue: values that do not compare count as equal
unfoldable pub cmp : TypedValue → TypedValue → Ordering
cmp v w = unwrap_or (partial_cmp v w) Ordering.eq
