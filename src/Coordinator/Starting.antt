-- ===== src/Coordinator/Starting.antt =====
-- The executions that the coordinator keeps of a sub-dataflow, with a sender of acks and one of
-- heartbeats for each operator (src/lightflus-core/src/coordinator/executions.rs).
use lightflus.Base.{
  ℕ, some, List, [], ◌∷◌, ◌≡◌, ◌↔◌, refl, All, Option-cases, inl, inr, nat_ord, subst, Bool, true,
  is_some, keep, arith, Bool-cases,
}
use mathlib.Core.Option.{some-injective}
use lightflus.Base.HashMap
use lightflus.Base.HashMap.{HashMap}
use lightflus.Proto.Ids.{sub_dataflow_id_ord, HostAddr, host_addr_ord}
use lightflus.Proto.Graph.{OperatorInfo, DataflowMeta, Dataflow}
use lightflus.Cluster.{split_into_subdataflow, group_by_host, sub_dataflow, sub_nodes}
use lightflus.Coordinator.Defs.{Network, starts, new_vertex, vertexes_of}

All-insert :
    (P : ℕ × OperatorInfo → Type 0) (k : ℕ) (v : OperatorInfo) (m : HashMap ℕ OperatorInfo)
    → P (k, v)
    → All P m
    → All P (HashMap.insert k v m)
unfolding HashMap.insert
All-insert P k v [] p h = (p, tt)
All-insert P k v ((j, w) ∷ m) p h = ground (arith, All-insert P k v m p h.1)

All-insert_all :
    (P : ℕ × OperatorInfo → Type 0) (new m : HashMap ℕ OperatorInfo)
    → All P new
    → All P m
    → All P (HashMap.insert_all new m)
unfolding HashMap.insert_all
All-insert_all P [] m h k = k
All-insert_all P ((id, v) ∷ new) m h k =
    All-insert_all P new (HashMap.insert id v m) h.1 (All-insert P id v m h.0 k)

All-keep :
    (P : ℕ × OperatorInfo → Type 0) (p : ℕ × OperatorInfo → Bool) (m : HashMap ℕ OperatorInfo)
    → All P m
    → All P (keep p m)
All-keep P p [] h = tt
All-keep P p (e ∷ m) h = ground (arith, All-keep P p m h.1)

All-sub_nodes :
    (P : ℕ × OperatorInfo → Type 0) (nodes : HashMap ℕ OperatorInfo) (ms : List DataflowMeta)
    (some_nodes : HashMap ℕ OperatorInfo)
    → All P nodes
    → All P some_nodes
    → All P (sub_nodes nodes ms some_nodes)
unfolding sub_nodes
All-sub_nodes P nodes [] some_nodes h k = k
All-sub_nodes P nodes (m ∷ ms) some_nodes h k =
    All-sub_nodes P nodes ms _ h (All-insert_all P _ some_nodes (All-keep P _ nodes h) k)

-- The senders of every operator of a dataflow can be made.
abbrev pub Starts : Network → Dataflow → Type 0
Starts net d = All (λ e. starts net e.1 ≡ true) d.nodes

pub Starts-split :
    (net : Network) (d : Dataflow) (subs : HashMap HostAddr Dataflow)
    → Starts net d
    → split_into_subdataflow d ≡ some subs
    → All (λ e. Starts net e.1) subs
unfolding split_into_subdataflow sub_dataflow
Starts-split net d subs h e = elim (Option-cases (group_by_host d d.meta [])) [
  | inl f ↦ cc (rw f at e)
  | inr (g, f) ↦ subst (All (λ e. Starts net e.1)) (some-injective _ _ (rw f at e)) (each g)
]
  where
    each :
        (g : HashMap HostAddr (List DataflowMeta))
        → All (λ e. Starts net e.1) (HashMap.map_values (sub_dataflow d) g)
    each [] = tt
    each ((a, ms) ∷ g) = (All-sub_nodes (λ e. starts net e.1 ≡ true) d.nodes ms [] h tt, each g)

module _ (net : Network) where
  pub vertexes_iff :
      (nodes : HashMap ℕ OperatorInfo)
      → (is_some (vertexes_of net nodes) ≡ true) ↔ All (λ e. starts net e.1 ≡ true) nodes
  unfolding vertexes_of new_vertex
  vertexes_iff [] = (λ h. tt, λ h. refl)
  vertexes_iff ((id, info) ∷ nodes) =
      let (to, from) = vertexes_iff nodes in
      elim (Bool-cases (starts net info)) [
        | inl e ↦ elim (Option-cases (vertexes_of net nodes)) [
          | inl f ↦ rw (e, f) (λ h. cc, λ h. rw f at (from h.1))
          | inr (vs, f) ↦ rw (e, f) (λ h. (refl, to (rw f refl)), λ h. refl)
        ]
        | inr e ↦ rw e (λ h. cc, λ h. cc (h.0))
      ]
