-- ===== src/Collections.antt =====
-- The helpers on collections: src/common/src/collections/lang.rs.
use lightflus.Base.{
  ℕ, zero, suc, ◌+◌, Bool, true, false, Option, none, some, List, [], ◌∷◌, ◌++◌, Ord, map,
  if◌then◌else◌,
}
use lightflus.Base.BTreeMap.{BTreeMap, get, insert}
pub mod Grouping

-- index_map, from an index
unfoldable pub index_map_from {ℓ κ} : {U : Type ℓ} {T : Type κ} → (ℕ → U → T) → ℕ → List U → List T
index_map_from mapper index [] = []
index_map_from mapper index (elem ∷ list) =
    mapper index elem ∷ index_map_from mapper (index + 1) list

-- index_map
unfoldable pub index_map {ℓ κ} : {U : Type ℓ} {T : Type κ} → (ℕ → U → T) → List U → List T
unfolding index_map_from
index_map mapper list = index_map_from mapper 0 list

module _ {ℓ κ} {K : Type ℓ} {N : Type κ} ⦃o : Ord K⦄ where
  -- the elements of a key go behind those that are there
  unfoldable pub extend : K → List N → Option (List N) → BTreeMap K (List N) → BTreeMap K (List N)
  unfolding insert
  extend k elems none accum = insert k elems accum
  extend k elems (some values) accum = insert k (values ++ elems) accum

  -- the closure of reduce: the entries of a map go into the accumulator
  unfoldable pub merge : BTreeMap K (List N) → BTreeMap K (List N) → BTreeMap K (List N)
  unfolding get extend
  merge accum [] = accum
  merge accum ((k, elems) ∷ m) = merge (extend k elems (get k accum) accum) m

  unfoldable pub merge_all : BTreeMap K (List N) → List (BTreeMap K (List N)) → BTreeMap K (List N)
  unfolding merge
  merge_all accum [] = accum
  merge_all accum (m ∷ ms) = merge_all (merge accum m) ms

  -- Iterator::reduce, with the default of no maps
  unfoldable pub reduce_maps : List (BTreeMap K (List N)) → BTreeMap K (List N)
  unfolding merge_all
  reduce_maps [] = []
  reduce_maps (m ∷ ms) = merge_all m ms

  -- group; the map of one element has it under its key
  unfoldable pub group : (N → K) → List N → BTreeMap K (List N)
  unfolding reduce_maps
  group key_extractor list = reduce_maps (map (λ elem. (key_extractor elem, elem ∷ []) ∷ []) list)

  -- the loop of group_deque_as_btree_map, whose extractor may change the element
  unfoldable pub pop_all : (N → K × N) → List N → BTreeMap K (List N) → BTreeMap K (List N)
  unfolding get extend
  pop_all key_extractor [] result = result
  pop_all key_extractor (elem ∷ deque) result =
      let r = key_extractor elem in
      pop_all key_extractor deque (extend r.0 (r.1 ∷ []) (get r.0 result) result)

  -- group_deque_as_btree_map, with the deque that it leaves
  unfoldable pub group_deque_as_btree_map : (N → K × N) → List N → BTreeMap K (List N) × List N
  unfolding pop_all
  group_deque_as_btree_map key_extractor deque = (pop_all key_extractor deque [], [])
