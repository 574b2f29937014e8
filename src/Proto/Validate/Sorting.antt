-- ===== src/Proto/Validate/Sorting.antt =====
-- What holds of every node of a dataflow holds of the sorted nodes, and back.
use lightflus.Base.{List, [], ◌∷◌, All, arith}
use lightflus.Proto.Graph.{DataflowMeta}
use lightflus.Proto.Validate.Checks.{insert_by_center, sort_by_center}

module _ (P : DataflowMeta → Type 0) where
  All-insert :
      (m : DataflowMeta) (ms : List DataflowMeta) → P m → All P ms → All P (insert_by_center m ms)
  unfolding insert_by_center
  All-insert m [] p h = (p, h)
  All-insert m (n ∷ ns) p h = ground (arith, All-insert m ns p h.1)

  insert-All :
      (m : DataflowMeta) (ms : List DataflowMeta) → All P (insert_by_center m ms) → P m × All P ms
  unfolding insert_by_center
  insert-All m [] h = h
  insert-All m (n ∷ ns) h = ground (arith, insert-All m ns)

  pub All-sort : (ms : List DataflowMeta) → All P ms → All P (sort_by_center ms)
  unfolding sort_by_center
  All-sort [] h = h
  All-sort (m ∷ ms) h = All-insert m (sort_by_center ms) h.0 (All-sort ms h.1)

  pub sort-All : (ms : List DataflowMeta) → All P (sort_by_center ms) → All P ms
  unfolding sort_by_center
  sort-All [] h = h
  sort-All (m ∷ ms) h = let (p, rest) = insert-All m (sort_by_center ms) h in (p, sort-All ms rest)
