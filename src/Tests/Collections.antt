-- ===== src/Tests/Collections.antt =====
-- Numbers grouped by their last digit.
use lightflus.Base.{ℕ, ◌%◌, ◌+◌, ◌*◌, none, List, [], ◌∷◌, ◌≡◌, refl, same, keep, nat_ord}
use lightflus.Base.BTreeMap.{get}
use lightflus.Collections.{index_map, group, group_deque_as_btree_map}
use lightflus.Collections.Grouping.{with_more, group_lem}

abbrev last_digit : ℕ → ℕ
last_digit n = n % 10

abbrev some_numbers : List ℕ
some_numbers = 21 ∷ 40 ∷ 1 ∷ 33 ∷ 21 ∷ []

group_lem_example :
    ((k : ℕ)
      → get k (group last_digit some_numbers)
        ≡ with_more none (keep (λ x. same k (last_digit x)) some_numbers))
    × (group_deque_as_btree_map (λ x. (last_digit x, x)) some_numbers
        ≡ (group last_digit some_numbers, []))
group_lem_example = group_lem last_digit some_numbers

grouped : group last_digit some_numbers ≡ (0, 40 ∷ []) ∷ (1, 21 ∷ 1 ∷ 21 ∷ []) ∷ (3, 33 ∷ []) ∷ []
unfolding group
grouped = refl

indexed : index_map (λ i x. i * 100 + x) some_numbers ≡ 21 ∷ 140 ∷ 201 ∷ 333 ∷ 421 ∷ []
unfolding index_map
indexed = refl
