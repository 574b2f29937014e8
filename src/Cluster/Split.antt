-- ===== src/Cluster/Split.antt =====
-- The division of a dataflow among the workers: Cluster::split_into_subdataflow of
-- src/common/src/net/cluster.rs.
use lightflus.Base.{
  ℕ, Bool, false, Option, none, some, List, [], ◌∷◌, ◌++◌, ◌≡◌, ok, All, if◌then◌else◌, same,
  same_iff, ◌∙◌, keep, any, or_else, map_option, arith, refl, nat_ord, Bool-cases, Option-cases,
  inl, inr,
}
use mathlib.Core.List.{append_assoc, append-nil}
use mathlib.Core.Option.{some-injective}
use lightflus.Base.HashMap
use lightflus.Base.HashMap.{HashMap}
use lightflus.Proto.Ids.{HostAddr, host_addr_ord}
use lightflus.Proto.Graph.{OperatorInfo, DataflowMeta, Dataflow, get_host_addr}
use lightflus.Proto.Validate.{validate}
use lightflus.Proto.Validate.Soundness.{NodeReady, validate_iff}
use lightflus.Cluster.Defs.{
  address_of, append_node, push_node, group_by_host, wants, sub_nodes, sub_dataflow,
  split_into_subdataflow,
}

-- What a sub-dataflow's map of operators holds: the operators of the dataflow that one of the
-- nodes names, and no others.
pub get-sub_nodes :
    (all_nodes : HashMap ℕ OperatorInfo) (j : ℕ) (ms : List DataflowMeta)
    (nodes : HashMap ℕ OperatorInfo)
    → HashMap.IsUnique all_nodes
    → HashMap.get j (sub_nodes all_nodes ms nodes) ≡ (
        if any (λ m. wants m j) ms
        then or_else (HashMap.get j all_nodes) (HashMap.get j nodes)
        else HashMap.get j nodes)
unfolding sub_nodes
get-sub_nodes all_nodes j [] nodes u = refl
get-sub_nodes all_nodes j (m ∷ ms) nodes u =
    let kept = keep (λ (e : ℕ × OperatorInfo). wants m e.0) all_nodes in
    ground (
      arith,
      get-sub_nodes all_nodes j ms (HashMap.insert_all kept nodes) u,
      HashMap.get-insert_all j kept nodes (HashMap.keep-IsUnique (wants m) all_nodes u),
      HashMap.get-keep (wants m) j all_nodes,
    )

-- Does the operator of a node live at the address?
abbrev pub is_at : HostAddr → Option HostAddr → Bool
is_at addr none = false
is_at addr (some a) = same addr a

abbrev pub lives_at : Dataflow → HostAddr → DataflowMeta → Bool
lives_at d addr m = is_at addr (address_of d m.center)

-- What the loop adds to a group.
abbrev pub grow : Option (List DataflowMeta) → List DataflowMeta → Option (List DataflowMeta)
grow none [] = none
grow none (x ∷ xs) = some (x ∷ xs)
grow (some ys) xs = some (ys ++ xs)

grow-append_node :
    (o : Option (List DataflowMeta)) (m : DataflowMeta) (xs : List DataflowMeta)
    → grow (some (append_node o m)) xs ≡ grow o (m ∷ xs)
grow-append_node none m xs = refl
grow-append_node (some ys) m xs = simp append_assoc

grow-nil : (o : Option (List DataflowMeta)) → grow o [] ≡ o
grow-nil none = refl
grow-nil (some ys) = simp append-nil

get-push_node :
    (a addr : HostAddr) (m : DataflowMeta) (group : HashMap HostAddr (List DataflowMeta))
    → HashMap.get addr (push_node a m group)
      ≡ (if same addr a then some (append_node (HashMap.get a group) m) else HashMap.get addr group)
unfolding push_node
get-push_node a addr m group = HashMap.get-insert a addr (append_node (HashMap.get a group) m) group

grow-push_node :
    (a addr : HostAddr) (m : DataflowMeta) (ms : List DataflowMeta)
    (group : HashMap HostAddr (List DataflowMeta))
    → grow (HashMap.get addr (push_node a m group)) ms
      ≡ grow (HashMap.get addr group) (if same addr a then m ∷ ms else ms)
grow-push_node a addr m ms group = elim (Bool-cases (same addr a)) [
  | inl e ↦
      rw (get-push_node, e)
        (rw ((same_iff addr a).0 e) (grow-append_node (HashMap.get a group) m ms))
  | inr e ↦ rw get-push_node (rw e refl)
]

group_by_host_lem :
    (d : Dataflow) (ms : List DataflowMeta) (group g : HashMap HostAddr (List DataflowMeta))
    (addr : HostAddr)
    → group_by_host d ms group ≡ some g
    → HashMap.get addr g ≡ grow (HashMap.get addr group) (keep (lives_at d addr) ms)
unfolding group_by_host
group_by_host_lem d [] group g addr h = rw grow-nil (cc)
group_by_host_lem d (m ∷ ms) group g addr h = elim (Option-cases (address_of d m.center)) [
  | inl e ↦ cc (rw e at h)
  | inr (a, e) ↦ rw e (
      group_by_host_lem d ms (push_node a m group) g addr (rw e at h)
      ∙ grow-push_node a addr m (keep (lives_at d addr) ms) group)
]

-- The sub-dataflow at an address is that of the nodes which live there, in their order; where no
-- node lives there is none.
unfoldable pub whole : Dataflow → List DataflowMeta → Option Dataflow
whole d [] = none
whole d (m ∷ ms) = some (sub_dataflow d (m ∷ ms))

grow-whole :
    (d : Dataflow) (ms : List DataflowMeta)
    → map_option (sub_dataflow d) (grow none ms) ≡ whole d ms
unfolding whole
grow-whole d [] = refl
grow-whole d (m ∷ ms) = refl

-- Where the division of a dataflow answers, it has at each address exactly the nodes whose
-- operator lives at the address, in the order of the dataflow, and no entry where there are none.
pub get-split :
    (d : Dataflow) (subs : HashMap HostAddr Dataflow) (addr : HostAddr)
    → split_into_subdataflow d ≡ some subs
    → HashMap.get addr subs ≡ whole d (keep (lives_at d addr) d.meta)
unfolding split_into_subdataflow HashMap.get
get-split d subs addr h = elim (Option-cases (group_by_host d d.meta [])) [
  | inl e ↦ cc (rw e at h)
  | inr (g, e) ↦
      rw
        (
          ← some-injective _ _ (rw e at h),
          HashMap.get-map_values,
          group_by_host_lem d d.meta [] g addr e,
        )
        (grow-whole d (keep (lives_at d addr) d.meta))
]

group_total :
    (d : Dataflow) (ms : List DataflowMeta) (group : HashMap HostAddr (List DataflowMeta))
    → All (NodeReady d) ms
    → (g : HashMap HostAddr (List DataflowMeta)) × (group_by_host d ms group ≡ some g)
unfolding group_by_host address_of
group_total d [] group h = (group, refl)
group_total d (m ∷ ms) group h =
    let (info, found, ready) = h.0.0 in
    rw found (group_total d ms (push_node (get_host_addr info) m group) h.1)

-- The division of a dataflow that `validate` accepts does not panic on a missing operator.
pub split_total :
    (d : Dataflow)
    → validate d ≡ ok tt
    → (subs : HashMap HostAddr Dataflow) × (split_into_subdataflow d ≡ some subs)
unfolding split_into_subdataflow
split_total d h =
    let (g, e) = group_total d d.meta [] ((validate_iff d).0 h).1 in
    (HashMap.map_values (sub_dataflow d) g, rw e refl)
