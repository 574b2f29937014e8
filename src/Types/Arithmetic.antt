-- ===== src/Types/Arithmetic.antt =====
-- The arithmetic of values: the macros ops_helper and ops_assign_helper of src/common/src/types.rs.
-- A panic is `none`.
use lightflus.Base.{
  ℕ, zero, Bool, true, Option, none, some, map_option, ◌==◌, if◌then◌else◌, and_then,
}
use lightflus.Base.Word.{i64_as_f64}
use lightflus.Base.Int.{ℤ, ◌+ℤ◌, ◌-ℤ◌, ◌*ℤ◌, quot, to_int, of_int, fits, checked}
use lightflus.Types.Value.{TypedValue, big_int, number, null, invalid}
pub mod Laws

-- The operations that the macros are expanded for.
pub data Operation : Type 0 where
  sub div mul add : Operation

-- The arithmetic of f64, on its patterns.
pub record Floats : Type 0 where
  pub calculate : Operation → ℕ → ℕ → ℕ

-- The exact result on integers; there is none of a division by zero.
unfoldable pub exact : Operation → ℤ → ℤ → Option ℤ
exact Operation.sub a b = some (a -ℤ b)
exact Operation.mul a b = some (a *ℤ b)
exact Operation.add a b = some (a +ℤ b)
exact Operation.div a (ℤ.pos zero) = none
exact Operation.div a b = some (quot a b)

-- A division whose result does not fit panics in every build.
abbrev pub always_checked : Operation → Bool → Bool
always_checked Operation.div checks = true
always_checked _ checks = checks

-- an operation of i64, in a build with overflow checks or without
unfoldable pub i64_operation : Bool → Operation → ℕ → ℕ → Option ℕ
i64_operation checks op a b =
    and_then (exact op (to_int a) (to_int b)) (checked (always_checked op checks))

module _ (floats : Floats) (checks : Bool) where
  open floats use {calculate}

  -- ops_helper: sub, div, mul and add of two values
  unfoldable pub operate : Operation → TypedValue → TypedValue → Option TypedValue
  operate op (number value) (number other) = some (number (calculate op value other))
  operate op (number value) (big_int other) = some (number (calculate op value (i64_as_f64 other)))
  operate op (number value) _ = some invalid
  operate op null rhs = some null
  operate op (big_int value) (number other) = some (number (calculate op (i64_as_f64 value) other))
  operate op (big_int value) (big_int other) =
      map_option big_int (i64_operation checks op value other)
  operate op (big_int value) _ = some invalid
  operate op _ rhs = some invalid

  -- ops_assign_helper: sub_assign, div_assign, mul_assign and add_assign. The last case of an
  -- integer computes on a temporary copy.
  unfoldable pub assign : Operation → TypedValue → TypedValue → Option TypedValue
  assign op (number value) (number other) = some (number (calculate op value other))
  assign op (number value) (big_int other) = some (number (calculate op value (i64_as_f64 other)))
  assign op (big_int value) (big_int other) =
      map_option big_int (i64_operation checks op value other)
  assign op self rhs = some self
