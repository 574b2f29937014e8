-- ===== src/Cluster/Handover.antt =====
-- What a task manager receives: each sub-dataflow of Cluster::split_into_subdataflow
-- (src/common/src/net/cluster.rs) passes the validation that TaskWorkerBuilder::build makes.
use lightflus.Base.{
  ℕ, true, Option, none, some, List, [], ◌∷◌, ◌≡◌, ok, In, All-In, All-of-In, keep-In, any-In, ◌==◌,
  keep, any, or_else, arith, refl, sym, ◌∙◌, nat_ord,
}
use mathlib.Core.Option.{some-injective}
use lightflus.Base.HashMap
use lightflus.Base.HashMap.{HashMap}
use lightflus.Proto.Ids.{HostAddr, host_addr_ord}
use lightflus.Proto.Graph.{OperatorInfo, DataflowMeta, Dataflow}
use lightflus.Proto.Validate.{validate}
use lightflus.Proto.Validate.Soundness.{OperatorReady, NodeReady, validate_iff}
use lightflus.Cluster.Defs.{wants, sub_dataflow, split_into_subdataflow}
use lightflus.Cluster.Split.{get-sub_nodes, get-split, lives_at, whole}

any-same : (ns : List ℕ) (n : ℕ) → In n ns → any (λ k. k == n) ns ≡ true
any-same ns n i = any-In (λ k. k == n) ns n i (ground arith)

or_else-none : (o : Option OperatorInfo) → or_else o none ≡ o
or_else-none none = refl
or_else-none (some info) = refl

module _ (d : Dataflow) (metas : List DataflowMeta) (unique : HashMap.IsUnique d.nodes) where
  -- An operator that a node of the group names is the dataflow's own.
  get-named :
      (m : DataflowMeta) (n : ℕ)
      → In m metas
      → wants m n ≡ true
      → HashMap.get n (sub_dataflow d metas).nodes ≡ HashMap.get n d.nodes
  unfolding sub_dataflow HashMap.get
  get-named m n i w =
      rw (get-sub_nodes d.nodes n metas [] unique, any-In (λ k. wants k n) metas m i w)
        (or_else-none (HashMap.get n d.nodes))

  named-OperatorReady :
      (m : DataflowMeta) (n : ℕ)
      → In m metas
      → wants m n ≡ true
      → OperatorReady d n
      → OperatorReady (sub_dataflow d metas) n
  named-OperatorReady m n i w (info, found, ready) = (info, get-named m n i w ∙ found, ready)

  named-NodeReady :
      (m : DataflowMeta) → In m metas → NodeReady d m → NodeReady (sub_dataflow d metas) m
  named-NodeReady m i (ready, neighbors) = (
    named-OperatorReady m m.center i (ground arith) ready,
    All-of-In _ m.neighbors λ n j.
        let (up, r) = All-In _ m.neighbors n neighbors j in
        (up, named-OperatorReady m n i (ground (arith, any-same m.neighbors n j)) r),
  )

whole-some :
    (d : Dataflow) (ms : List DataflowMeta) (s : Dataflow)
    → whole d ms ≡ some s
    → s ≡ sub_dataflow d ms
unfolding whole
whole-some d [] s h = cc
whole-some d (m ∷ ms) s h = some-injective _ _ (sym h)

-- Each sub-dataflow of a dataflow that `validate` accepts, in whose map of operators no key occurs
-- twice, is accepted by `validate` too.
pub split-validate :
    (d : Dataflow) (subs : HashMap HostAddr Dataflow) (addr : HostAddr) (s : Dataflow)
    → HashMap.IsUnique d.nodes
    → validate d ≡ ok tt
    → split_into_subdataflow d ≡ some subs
    → HashMap.get addr subs ≡ some s
    → validate s ≡ ok tt
unfolding sub_dataflow
split-validate d subs addr s unique valid split here =
    let kept = keep (lives_at d addr) d.meta in
    let is = whole-some d kept s (sym (get-split d subs addr split) ∙ here) in
    let (job, nodes) = (validate_iff d).0 valid in
    rw is (
      (validate_iff (sub_dataflow d kept)).1 (
        job,
        All-of-In (NodeReady (sub_dataflow d kept)) kept λ m i.
            named-NodeReady d kept unique m i
              (All-In (NodeReady d) d.meta m nodes (keep-In _ d.meta m i).0),
      ))
