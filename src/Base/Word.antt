-- ===== src/Base/Word.antt =====
-- Machine numbers. An i64 or u64 is its 64-bit pattern, and so is an f64 (IEEE 754 binary64).
use Prim.Native.Nat.{ℕ, zero, suc, ◌+◌, ◌-◌, ◌*◌, ◌/◌, ◌%◌, ◌^◌, ◌<◌, compare, Ordering}
use mathlib.Core.Path.{◌≡◌, refl}
use mathlib.Core.Bool.{Bool, false, ◌&&◌, ◌||◌}
use mathlib.Core.Option.{Option, none, some}
use mathlib.Core.List.{List, [], ◌∷◌, ◌++◌}
use native.Mathlib.Omega.{arith}
use lightflus.Base.Logic.{ltb, leb, if◌then◌else◌, ◌==◌}

abbrev pub modulus : ℕ
modulus = 2 ^ 64

abbrev pub sign_bit : ℕ
sign_bit = 2 ^ 63

-- {i64, f64}::to_be_bytes: the most significant byte first
unfoldable pub be_bytes : ℕ → ℕ → List ℕ
be_bytes zero x = []
be_bytes (suc n) x = (x / 256 ^ n) % 256 ∷ be_bytes n x

-- the decimal digits of a number below 10^fuel
abbrev pub decimal : ℕ → ℕ → List ℕ
decimal zero n = []
decimal (suc fuel) n =
    let front = decimal fuel (n / 10) in
    if ltb n 10 then (48 + n) ∷ [] else front ++ (48 + n % 10) ∷ []

-- i64::to_string
unfoldable pub i64_to_string : ℕ → List ℕ
i64_to_string x = if ltb x sign_bit then decimal 20 x else 45 ∷ decimal 20 (modulus - x)

-- i64::cmp: with the sign bit flipped, the patterns are in the order of the integers
unfoldable pub i64_cmp : ℕ → ℕ → Ordering
i64_cmp a b = compare ((a + sign_bit) % modulus) ((b + sign_bit) % modulus)

-- i64::eq
unfoldable pub i64_eq : ℕ → ℕ → Bool
i64_eq a b = a % modulus == b % modulus

-- f64::is_nan: the exponent is all ones and the fraction is not zero
abbrev pub is_nan : ℕ → Bool
is_nan x = ltb (2047 * 2 ^ 52) (x % sign_bit)

-- f64::is_finite: the exponent is not all ones
abbrev pub is_finite : ℕ → Bool
is_finite x = ltb (x % sign_bit) (2047 * 2 ^ 52)

-- A number in the order of the floats: both zeros are 2^63.
abbrev pub float_key : ℕ → ℕ
float_key x = if ltb x sign_bit then sign_bit + x else sign_bit - x % sign_bit

-- f64::partial_cmp
unfoldable pub f64_cmp : ℕ → ℕ → Option Ordering
f64_cmp a b = if is_nan a || is_nan b then none else some (compare (float_key a) (float_key b))

-- f64::eq
unfoldable pub f64_eq : ℕ → ℕ → Bool
f64_eq a b = if is_nan a || is_nan b then false else float_key a == float_key b

-- the position of the highest bit of a number below 2^fuel
unfoldable pub log2 : ℕ → ℕ → ℕ
log2 zero m = 0
log2 (suc fuel) m = let rest = log2 fuel (m / 2) in if ltb m 2 then 0 else suc rest

-- `m as f64` of a positive magnitude: rounded to nearest, a tie to the even fraction
unfoldable pub magnitude_as_f64 : ℕ → ℕ
magnitude_as_f64 m =
    let e = log2 64 m in
    if leb e 52
    then (e + 1023) * 2 ^ 52 + (m * 2 ^ (52 - e) - 2 ^ 52)
    else (let q = m / 2 ^ (e - 52) in
        let r = m % 2 ^ (e - 52) in
        let half = 2 ^ (e - 53) in
        let up = if ltb half r then 1 else if r == half then q % 2 else 0 in
        (e + 1023) * 2 ^ 52 + (q + up - 2 ^ 52))

-- `x as f64` of an i64
unfoldable pub i64_as_f64 : ℕ → ℕ
i64_as_f64 x =
    if x == 0
    then 0
    else if ltb x sign_bit
    then magnitude_as_f64 x
    else sign_bit + magnitude_as_f64 (modulus - x)

-- The value of a list of bytes, the most significant first.
unfoldable pub of_be : List ℕ → ℕ → ℕ
of_be [] acc = acc
of_be (b ∷ bs) acc = of_be bs (acc * 256 + b)

one_as_f64 : i64_as_f64 1 ≡ 0x3ff0000000000000
unfolding i64_as_f64 magnitude_as_f64 log2
one_as_f64 = refl

minus_two : i64_as_f64 (2 ^ 64 - 2) ≡ 0xc000000000000000
unfolding i64_as_f64 magnitude_as_f64 log2
minus_two = refl

rounded : i64_as_f64 (2 ^ 53 + 1) ≡ i64_as_f64 (2 ^ 53)
unfolding i64_as_f64 magnitude_as_f64 log2
rounded = refl

rounded_up : i64_as_f64 (2 ^ 63 - 1) ≡ 0x43e0000000000000
unfolding i64_as_f64 magnitude_as_f64 log2
rounded_up = refl

pub of_be-be_bytes : (x : ℕ) → x < modulus → of_be (be_bytes 8 x) 0 ≡ x
unfolding of_be be_bytes
of_be-be_bytes x h = omega arith

-- Does tokio make a channel of this size? It panics on no size, and on one above usize::MAX >> 3.
abbrev pub opens_channel : ℕ → Bool
opens_channel size = ltb 0 size && leb size (2 ^ 61 - 1)
