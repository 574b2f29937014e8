-- ===== src/Coordinator/Division.antt =====
-- The parts of a dataflow that is divided, and its operators, are there once each
-- (src/lightflus-core/src/coordinator/managers.rs).
use lightflus.Base.{ℕ, some, List, [], ◌∷◌, ◌≡◌, refl, Option-cases, inl, inr, nat_ord, subst}
use mathlib.Core.Option.{some-injective}
use lightflus.Base.HashMap
use lightflus.Base.HashMap.{HashMap}
use lightflus.Proto.Ids.{sub_dataflow_id_ord, HostAddr, host_addr_ord}
use lightflus.Proto.Graph.{OperatorInfo, DataflowMeta, Dataflow}
use lightflus.Cluster.{
  Cluster, place_operators, split_into_subdataflow, group_by_host, push_node, address_of,
  sub_dataflow,
}
use lightflus.Cluster.Placement.{get-place_operators}

push_node-IsUnique :
    (d : Dataflow) (ms : List DataflowMeta) (group g : HashMap HostAddr (List DataflowMeta))
    → HashMap.IsUnique group
    → group_by_host d ms group ≡ some g
    → HashMap.IsUnique g
unfolding group_by_host push_node
push_node-IsUnique d [] group g u h = subst HashMap.IsUnique (some-injective _ _ h) u
push_node-IsUnique d (m ∷ ms) group g u h = elim (Option-cases (address_of d m.center)) [
  | inl e ↦ cc (rw e at h)
  | inr (a, e) ↦
      push_node-IsUnique d ms (push_node a m group) g (HashMap.insert-IsUnique a _ group u)
        (rw e at h)
]

pub split-IsUnique :
    (d : Dataflow) (subs : HashMap HostAddr Dataflow)
    → split_into_subdataflow d ≡ some subs
    → HashMap.IsUnique subs
unfolding split_into_subdataflow sub_dataflow
split-IsUnique d subs h = elim (Option-cases (group_by_host d d.meta [])) [
  | inl e ↦ cc (rw e at h)
  | inr (g, e) ↦
      subst HashMap.IsUnique (some-injective _ _ (rw e at h))
        (HashMap.map_values-IsUnique (sub_dataflow d) g (push_node-IsUnique d d.meta [] g tt e))
]

pub place-IsUnique :
    (hash : ℕ → ℕ) (c : Cluster) (nodes : HashMap ℕ OperatorInfo)
    → HashMap.IsUnique nodes
    → HashMap.IsUnique (place_operators hash c nodes)
unfolding place_operators
place-IsUnique hash c [] h = tt
place-IsUnique hash c ((id, info) ∷ nodes) h =
    (rw (get-place_operators hash c nodes id, h.0) refl, place-IsUnique hash c nodes h.1)
