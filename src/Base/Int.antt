-- ===== src/Base/Int.antt =====
-- Signed integers, and the arithmetic of i64 on its 64-bit patterns.
use Prim.Native.Nat.{ℕ, suc, ◌+◌, ◌-◌, ◌*◌, ◌/◌, ◌%◌, ◌<◌}
use mathlib.Core.Path.{◌≡◌, refl}
use mathlib.Core.Bool.{Bool, true, not, ◌&&◌}
use mathlib.Core.Option.{Option, none, some}
use native.Mathlib.Omega.{arith}
use lightflus.Base.Logic.{ltb, leb, if◌then◌else◌}
use lightflus.Base.Word.{modulus, sign_bit}

-- `negsuc n` is -(n + 1).
pub data ℤ : Type 0 where
  pos : ℕ → ℤ
  negsuc : ℕ → ℤ

abbrev pub pos_part : ℤ → ℕ
pos_part (pos n) = n
pos_part (negsuc n) = 0

abbrev pub neg_part : ℤ → ℕ
neg_part (pos n) = 0
neg_part (negsuc n) = suc n

abbrev pub sub_ℕ : ℕ → ℕ → ℤ
sub_ℕ a b = if leb b a then pos (a - b) else negsuc (b - a - 1)

infixl 65 ◌+ℤ◌ ◌-ℤ◌
infixl 70 ◌*ℤ◌
unfoldable pub ◌+ℤ◌ : ℤ → ℤ → ℤ
a +ℤ b = sub_ℕ (pos_part a + pos_part b) (neg_part a + neg_part b)

unfoldable pub ◌-ℤ◌ : ℤ → ℤ → ℤ
a -ℤ b = sub_ℕ (pos_part a + neg_part b) (neg_part a + pos_part b)

unfoldable pub ◌*ℤ◌ : ℤ → ℤ → ℤ
a *ℤ b =
    sub_ℕ (pos_part a * pos_part b + neg_part a * neg_part b)
      (pos_part a * neg_part b + neg_part a * pos_part b)

-- The quotient rounded towards zero, by a divisor that is not zero.
unfoldable pub quot : ℤ → ℤ → ℤ
quot a b =
    sub_ℕ (pos_part a / pos_part b + neg_part a / neg_part b)
      (pos_part a / neg_part b + neg_part a / pos_part b)

-- the integer of a pattern, and the pattern of an integer modulo 2^64
unfoldable pub to_int : ℕ → ℤ
to_int x = if ltb x sign_bit then pos x else negsuc (modulus - 1 - x)

unfoldable pub of_int : ℤ → ℕ
of_int (pos n) = n % modulus
of_int (negsuc n) = modulus - 1 - n % modulus

-- the integers from -2^63 up to 2^63 - 1
unfoldable pub fits : ℤ → Bool
fits (pos n) = ltb n sign_bit
fits (negsuc n) = ltb n sign_bit

-- The outcome of an i64 operation with an exact result: a result that does not fit panics (`none`)
-- in a build with overflow checks, and wraps in one without.
unfoldable pub checked : Bool → ℤ → Option ℕ
checked checks z = if checks && not (fits z) then none else some (of_int z)

pub to_int-of_int : (z : ℤ) → fits z ≡ true → to_int (of_int z) ≡ z
unfolding to_int of_int fits
to_int-of_int (pos n) h = ground arith
to_int-of_int (negsuc n) h = ground arith

pub of_int-lt : (z : ℤ) → of_int z < modulus
unfolding of_int
of_int-lt (pos n) = omega arith
of_int-lt (negsuc n) = omega arith

pub of_int-to_int : (x : ℕ) → x < modulus → of_int (to_int x) ≡ x
unfolding to_int of_int
of_int-to_int x h = ground arith

minus_three : quot (pos 7) (negsuc 1) ≡ negsuc 2
unfolding quot
minus_three = refl
