-- ===== src/Types/Arithmetic/Laws.antt =====
-- What the arithmetic of values gives (src/common/src/types.rs).
use lightflus.Base.{
  ℕ, ◌<◌, Bool, true, Option, none, some, ◌≡◌, refl, map_option, if◌then◌else◌, ◌==◌, arith,
  Bool-cases, inl, inr, ◌↔◌, Option-cases, and_then,
}
use lightflus.Base.Word.{modulus}
use lightflus.Base.Int.{ℤ, to_int, of_int, fits, checked, to_int-of_int, of_int-lt, of_int-to_int}
use lightflus.Proto.Graph.{to_i32}
use lightflus.Types.Value.{TypedValue, big_int, number, get_type}
use lightflus.Types.Arithmetic.{
  Operation, Floats, exact, always_checked, i64_operation, operate, assign,
}

-- the second value, where it has the type of the first, and the first otherwise
abbrev pub same_type_or : TypedValue → TypedValue → TypedValue
same_type_or v r = if to_i32 (get_type r) == to_i32 (get_type v) then r else v

kept_integer :
    (v : ℕ) (o : Option ℕ)
    → map_option big_int o ≡ map_option (same_type_or (big_int v)) (map_option big_int o)
kept_integer v none = refl
kept_integer v (some r) = refl

module _ (floats : Floats) (checks : Bool) (op : Operation) where
  -- `op=` leaves the value that `op` gives where that has the type of the value before, and else the
  -- value before; both panic on the same values.
  pub assign-operate :
      (v w : TypedValue)
      → assign floats checks op v w ≡ map_option (same_type_or v) (operate floats checks op v w)
  unfolding assign operate
  assign-operate (number a) (number b) = refl
  assign-operate (number a) (big_int b) = refl
  assign-operate (number a) _ = refl
  assign-operate (big_int a) (number b) = refl
  assign-operate (big_int a) (big_int b) = kept_integer a (i64_operation checks op a b)
  assign-operate (big_int a) _ = refl
  assign-operate _ w = refl

-- what a value is as an integer of 64 bits
abbrev pub Is : TypedValue → ℤ → Type 0
Is v z = (r : ℕ) × (v ≡ big_int r) × (r < modulus) × (to_int r ≡ z)

-- `v` is the integer with 64 bits that there is in `o`.
abbrev pub IsExact : Option ℤ → TypedValue → Type 0
IsExact o v = (z : ℤ) × (o ≡ some z) × (fits z ≡ true) × Is v z

checked-some :
    (z : ℤ) (r : ℕ) → checked true z ≡ some r → (fits z ≡ true) × (r < modulus) × (to_int r ≡ z)
unfolding checked
checked-some z r h = elim (Bool-cases (fits z)) [
  | inl e ↦
      let same : of_int z ≡ r = ground arith in rw (← same) (e, of_int-lt z, to_int-of_int z e)
  | inr e ↦ cc
]

IsExact-forward :
    (o : Option ℤ) (v : TypedValue)
    → map_option big_int (and_then o (checked true)) ≡ some v
    → IsExact o v
IsExact-forward none v h = cc
IsExact-forward (some z) v h = elim (Option-cases (checked true z)) [
  | inl e ↦ cc
  | inr (r, e) ↦
      let (fit, bounds, same) = checked-some z r e in (z, refl, fit, (r, cc, bounds, same))
]

IsExact-back :
    (o : Option ℤ) (v : TypedValue)
    → IsExact o v
    → map_option big_int (and_then o (checked true)) ≡ some v
unfolding checked
IsExact-back o v (z, e, fit, (r, same, bounds, back)) =
    rw (e, fit, same, ← back, of_int-to_int r bounds) refl

all_checked : (op : Operation) → always_checked op true ≡ true
all_checked Operation.sub = refl
all_checked Operation.div = refl
all_checked Operation.mul = refl
all_checked Operation.add = refl

module _ (floats : Floats) (op : Operation) where
  -- With overflow checks an operation on two integers answers a value exactly where the exact result
  -- exists and has 64 bits, and that value is the exact result. So it panics exactly on a division by
  -- zero and on an overflow.
  pub operate_iff :
      (a b : ℕ) (v : TypedValue)
      → (operate floats true op (big_int a) (big_int b) ≡ some v)
        ↔ IsExact (exact op (to_int a) (to_int b)) v
  unfolding operate i64_operation
  operate_iff a b v = rw (all_checked op) (
    IsExact-forward (exact op (to_int a) (to_int b)) v,
    IsExact-back (exact op (to_int a) (to_int b)) v,
  )
