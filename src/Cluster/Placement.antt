-- ===== src/Cluster/Placement.antt =====
-- Where Cluster::partition_dataflow (src/common/src/net/cluster.rs) places the operators.
use lightflus.Base.{
  ℕ, zero, suc, ◌<◌, ◌%◌, true, false, not, Option, none, some, List, [], ◌∷◌, map, ◌≡◌, In, get_or,
  length, keep, any, is_empty, arith, refl, ap, ◌∙◌, nat_ord, same_iff, inl, inr, if◌then◌else◌,
  map_option,
}
use lightflus.Base.HashMap
use lightflus.Base.HashMap.{HashMap}
use lightflus.Proto.Ids.{HostAddr, default_host_addr, is_valid}
use lightflus.Proto.Graph.{OperatorInfo, DataflowMeta, Dataflow}
use lightflus.Proto.Validate.{
  validate, check_operator, check_neighbors, check_metas, found_check, sort_by_center,
}
use lightflus.Cluster.Defs.{
  Node, Cluster, NodeBuilder, is_available, available, partition_key, cluster_is_available,
  place_operators, placed, partition_dataflow, build, index_nodes, node_build, new,
}

get_or-In : {A : Type 0} (xs : List A) (i : ℕ) (d : A) → i < length xs → In (get_or xs i d) xs
get_or-In [] i d h = absurd (omega arith)
get_or-In (x ∷ xs) zero d h = inl refl
get_or-In (x ∷ xs) (suc i) d h = inr (get_or-In xs i d (omega arith))

pick-In :
    (hash : ℕ → ℕ) (xs : List HostAddr) (key : ℕ)
    → is_empty xs ≡ false
    → In (get_or xs (hash key % length xs) default_host_addr) xs
pick-In hash [] key h = cc
pick-In hash (x ∷ xs) key h = get_or-In (x ∷ xs) _ default_host_addr (omega arith)

available-empty : (c : Cluster) → is_empty (available c) ≡ not (cluster_is_available c)
unfolding available cluster_is_available
available-empty c = go c.workers
  where
    go :
        (ns : List Node)
        → is_empty (map (λ (n : Node). n.host_addr) (keep is_available ns))
          ≡ not (any is_available ns)
    go [] = refl
    go (n ∷ ns) = ground (arith, go ns)

-- A key goes to the address of a worker that is available, where the cluster has one, and to the
-- default address, which is not valid, where it has none.
pub partition_key_lem :
    (hash : ℕ → ℕ) (c : Cluster) (key : ℕ)
    → (cluster_is_available c ≡ true → In (partition_key hash c key) (available c))
      × (cluster_is_available c ≡ false
          → (partition_key hash c key ≡ default_host_addr)
            × (is_valid (partition_key hash c key) ≡ false))
unfolding partition_key is_valid
partition_key_lem hash c key = (
  λ h.
      let some_left = available-empty c ∙ ap not h in
      rw some_left (pick-In hash (available c) key some_left),
  λ h. let none_left = available-empty c ∙ ap not h in (rw none_left refl, rw none_left refl),
)

-- Placing an operator changes its address alone, and only to an address that is valid.
pub placed_lem :
    (addr : HostAddr) (info : OperatorInfo)
    → placed addr info
      ≡ record info { host_addr = if is_valid addr then some addr else info.host_addr }
unfolding placed
placed_lem addr info = ground arith

pub get-place_operators :
    (hash : ℕ → ℕ) (c : Cluster) (nodes : HashMap ℕ OperatorInfo) (id : ℕ)
    → HashMap.get id (place_operators hash c nodes)
      ≡ map_option (placed (partition_key hash c id)) (HashMap.get id nodes)
unfolding HashMap.get place_operators
get-place_operators hash c [] id = refl
get-place_operators hash c ((k, info) ∷ nodes) id =
    ground (arith, same_iff id k, get-place_operators hash c nodes id)

-- The operator of a node after the partition: that of the dataflow with the node's key placed.
pub get-partition_dataflow :
    (hash : ℕ → ℕ) (c : Cluster) (d : Dataflow) (id : ℕ)
    → HashMap.get id (partition_dataflow hash c d).nodes
      ≡ map_option (placed (partition_key hash c id)) (HashMap.get id d.nodes)
unfolding partition_dataflow
get-partition_dataflow hash c d id = get-place_operators hash c d.nodes id

found_check-placed :
    (n : ℕ) (addr : HostAddr) (o : Option OperatorInfo)
    → found_check n (map_option (placed addr) o) ≡ found_check n o
unfolding found_check
found_check-placed n addr none = refl
found_check-placed n addr (some info) = rw placed_lem refl

module _ (hash : ℕ → ℕ) (c : Cluster) (d : Dataflow) where
  check_operator-partition :
      (n : ℕ) → check_operator (partition_dataflow hash c d) n ≡ check_operator d n
  unfolding check_operator
  check_operator-partition n =
      rw get-partition_dataflow
        (found_check-placed n (partition_key hash c n) (HashMap.get n d.nodes))

  check_neighbors-partition :
      (center : ℕ) (ns : List ℕ)
      → check_neighbors (partition_dataflow hash c d) center ns ≡ check_neighbors d center ns
  unfolding check_neighbors
  check_neighbors-partition center [] = refl
  check_neighbors-partition center (n ∷ ns) =
      rw (check_operator-partition n, check_neighbors-partition center ns) refl

  check_metas-partition :
      (ms : List DataflowMeta) → check_metas (partition_dataflow hash c d) ms ≡ check_metas d ms
  unfolding check_metas
  check_metas-partition [] = refl
  check_metas-partition (m ∷ ms) =
      rw
        (
          check_operator-partition m.center,
          check_neighbors-partition m.center m.neighbors,
          check_metas-partition ms,
        )
        refl

  -- Placing the operators does not change the answer of `validate`, error or not.
  pub validate-partition : validate (partition_dataflow hash c d) ≡ validate d
  unfolding validate partition_dataflow
  validate-partition = rw (check_metas-partition (sort_by_center d.meta)) refl

built_pending :
    (index : ℕ) (nodes : List NodeBuilder) → any is_available (index_nodes index nodes) ≡ false
unfolding index_nodes is_available node_build new
built_pending index [] = refl
built_pending index (b ∷ bs) = built_pending (suc index) bs

place_none :
    (hash : ℕ → ℕ) (c : Cluster) (nodes : HashMap ℕ OperatorInfo)
    → cluster_is_available c ≡ false
    → place_operators hash c nodes ≡ nodes
unfolding place_operators
place_none hash c [] h = refl
place_none hash c ((id, info) ∷ nodes) h =
    rw (placed_lem, ((partition_key_lem hash c id).1 h).1, place_none hash c nodes h)
      (unfold is_valid in refl)

-- A cluster as ClusterBuilder::build makes it has no available worker, and places nothing: the
-- dataflow keeps the addresses that it came with.
pub build-partition :
    (hash : ℕ → ℕ) (nodes : List NodeBuilder) (d : Dataflow)
    → (cluster_is_available (build nodes) ≡ false) × (partition_dataflow hash (build nodes) d ≡ d)
unfolding cluster_is_available build partition_dataflow
build-partition hash nodes d =
    let down = built_pending 0 nodes in
    (
      down,
      ap (λ (ns : HashMap ℕ OperatorInfo). record d { nodes = ns })
          (place_none hash (build nodes) d.nodes down),
    )
