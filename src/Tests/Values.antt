-- ===== src/Tests/Values.antt =====
-- Values in JSON, and their arithmetic with f64 left out.
use lightflus.Base.{true, false, some, none, ◌≡◌, refl, ◌↔◌, map_option, [], ◌∷◌, ◌-◌, ◌^◌}
use lightflus.Base.Int.{to_int, of_int, fits, checked, ◌+ℤ◌, ◌*ℤ◌, quot}
use lightflus.Types.{
  TypedValue, big_int, number, array, object, invalid, nil, cons, end, field, to_json_value,
  from_json_value,
}
use lightflus.Types.JsonLaws.{in_json, from_json_value-to_json_value}
use lightflus.Types.Arithmetic.{Operation, Floats, operate, assign, exact, i64_operation}
use lightflus.Types.Arithmetic.Laws.{same_type_or, assign-operate, IsExact, operate_iff}

-- an object with an array that holds a NaN
abbrev mixed : TypedValue
mixed = object (field (107 ∷ []) (array (cons invalid (cons (number 0x7ff8000000000000) nil))) end)

from_json_value-to_json_value_example :
    (from_json_value (to_json_value mixed) ≡ in_json mixed)
    × (from_json_value (to_json_value (in_json mixed)) ≡ in_json mixed)
from_json_value-to_json_value_example = from_json_value-to_json_value mixed

abbrev no_floats : Floats
no_floats = record { calculate = λ op a b. 0 }

assign-operate_example :
    assign no_floats true Operation.add (big_int 5) (number 7)
    ≡ map_option
        (same_type_or (big_int 5))
        (operate no_floats true Operation.add (big_int 5) (number 7))
assign-operate_example = assign-operate no_floats true Operation.add (big_int 5) (number 7)

operate_iff_example :
    (operate no_floats true Operation.div (big_int 7) (big_int (2 ^ 64 - 2))
      ≡ some (big_int (2 ^ 64 - 3)))
    ↔ IsExact (exact Operation.div (to_int 7) (to_int (2 ^ 64 - 2))) (big_int (2 ^ 64 - 3))
operate_iff_example = operate_iff no_floats Operation.div 7 (2 ^ 64 - 2) (big_int (2 ^ 64 - 3))

truncated :
    operate no_floats true Operation.div (big_int 7) (big_int (2 ^ 64 - 2))
    ≡ some (big_int (2 ^ 64 - 3))
unfolding operate i64_operation exact to_int of_int fits checked quot
truncated = refl

overflow : operate no_floats true Operation.add (big_int (2 ^ 63 - 1)) (big_int 1) ≡ none
unfolding operate i64_operation exact to_int of_int fits checked ◌+ℤ◌
overflow = refl

wrapped :
    operate no_floats false Operation.mul (big_int (2 ^ 63)) (big_int (2 ^ 64 - 1))
    ≡ some (big_int (2 ^ 63))
unfolding operate i64_operation exact to_int of_int fits checked ◌*ℤ◌
wrapped = refl

by_zero : operate no_floats false Operation.div (big_int 1) (big_int 0) ≡ none
unfolding operate i64_operation exact to_int
by_zero = refl

smallest : operate no_floats false Operation.div (big_int (2 ^ 63)) (big_int (2 ^ 64 - 1)) ≡ none
unfolding operate i64_operation exact to_int fits checked quot
smallest = refl
