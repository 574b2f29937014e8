-- ===== src/Coordinator/Deploy.antt =====
-- What JobManager::deploy_dataflow (src/lightflus-core/src/coordinator/managers.rs) sends to the
-- task managers.
use lightflus.Base.{
  ℕ, Option, none, some, List, [], ◌∷◌, ◌++◌, ◌≡◌, ◌↔◌, refl, ◌∙◌, Result, ok, err, All, All-of-In,
  Option-cases, inl, inr, nat_ord, sym, subst, map_option,
}
use mathlib.Core.Option.{some-injective}
use lightflus.Base.HashMap
use lightflus.Base.BTreeMap
use lightflus.Base.BTreeMap.{BTreeMap}
use lightflus.Base.HashMap.{HashMap}
use lightflus.Proto.Ids.{ResourceId, sub_dataflow_id_ord, HostAddr, host_addr_ord, SubDataflowId}
use lightflus.Proto.Graph.{DataflowMeta, Dataflow, get_job_id}
use lightflus.Proto.Validate.{validate, check_metas, check_neighbors, check_operator}
use lightflus.Cluster.{Node, Cluster, get_node, partition_dataflow}
use lightflus.Cluster.Split.{split_total}
use lightflus.Cluster.Handover.{split-validate}
use lightflus.Cluster.Placement.{validate-partition}
use lightflus.Coordinator.Defs.{
  Scheduler, Call, RpcStatus, Network, Step, TaskDeploymentException, vertexes_of, new_execution,
  execute, execute_all, new_scheduler, save, called, go_on, request, marked, execution_on,
  VertexExecution,
}
use lightflus.Coordinator.Manager.{JobManager, new_manager, deploy_dataflow}
use lightflus.Coordinator.Division.{split-IsUnique, place-IsUnique}
use lightflus.Coordinator.Starting.{Starts, Starts-split, vertexes_iff}

-- The call carries a dataflow that `validate` accepts.
abbrev pub Acceptable : Call → Type 0
Acceptable call = (sub : Dataflow) × (call.1.dataflow ≡ some sub) × (validate sub ≡ ok tt)

-- The execution id that `deploy` writes does not matter to the checks.
module _ (d : Dataflow) (id : Option SubDataflowId) where
  check_neighbors-id :
      (center : ℕ) (ns : List ℕ)
      → check_neighbors (record d { execution_id = id }) center ns ≡ check_neighbors d center ns
  unfolding check_neighbors check_operator
  check_neighbors-id center [] = refl
  check_neighbors-id center (n ∷ ns) = rw (check_neighbors-id center ns) refl

  check_metas-id :
      (ms : List DataflowMeta) → check_metas (record d { execution_id = id }) ms ≡ check_metas d ms
  unfolding check_metas check_operator
  check_metas-id [] = refl
  check_metas-id (m ∷ ms) = rw (check_neighbors-id m.center m.neighbors, check_metas-id ms) refl

  validate-id : validate (record d { execution_id = id }) ≡ validate d
  unfolding validate
  validate-id = rw (check_metas-id _) refl

All-append {ℓ} :
    {A : Type ℓ} (P : A → Type 0) (xs ys : List A) → All P xs → All P ys → All P (xs ++ ys)
All-append P [] ys h k = k
All-append P (x ∷ xs) ys h k = (h.0, All-append P xs ys h.1 k)

module _ (net : Network) where
  -- The step returns, and its calls carry valid dataflows.
  abbrev Returns : Step → Type 0
  Returns step =
      (r : Scheduler × Result TaskDeploymentException (Unit {0})) × (step ≡ some r)
      × All Acceptable r.0.calls

  go_on_outcome :
      (r : Scheduler × Result TaskDeploymentException (Unit {0})) (rest : Scheduler → Step)
      → All Acceptable r.0.calls
      → ((s : Scheduler) → All Acceptable s.calls → Returns (rest s))
      → Returns (go_on (some r) rest)
  go_on_outcome (s, ok _) rest h k = k s h
  go_on_outcome (s, err e) rest h k = ((s, err e), refl, h)

  abbrev with_execution :
      ResourceId → Node → Dataflow → Scheduler → BTreeMap ℕ VertexExecution → Scheduler
  with_execution job_id node sub s vs = record {
    executions =
        BTreeMap.insert (execution_on job_id node)
          (record { worker = node; vertexes = vs; execution_id = execution_on job_id node })
          s.executions;
    calls = s.calls ++ (node, request job_id node sub) ∷ [];
  }

  called-Returns :
      (job_id : ResourceId) (node : Node) (sub : Dataflow) (s : Scheduler)
      (r : Result RpcStatus (Unit {0}))
      → validate sub ≡ ok tt
      → Starts net sub
      → All Acceptable s.calls
      → Returns (called net job_id node sub s r)
  unfolding called new_execution
  called-Returns job_id node sub s (err e) v st h = (
    _,
    refl,
    All-append Acceptable s.calls _ h ((marked job_id node sub, refl, validate-id sub _ ∙ v), tt),
  )
  called-Returns job_id node sub s (ok _) v st h = elim (Option-cases (vertexes_of net sub.nodes)) [
    | inl e ↦ cc (rw e at ((vertexes_iff net sub.nodes).1 st))
    | inr (vs, e) ↦ (
      (with_execution job_id node sub s vs, ok tt),
      rw e refl,
      All-append Acceptable s.calls _ h ((marked job_id node sub, refl, validate-id sub _ ∙ v), tt),
    )
  ]

  execute-Returns :
      (job_id : ResourceId) (o : Option Node) (sub : Dataflow) (s : Scheduler)
      → validate sub ≡ ok tt
      → Starts net sub
      → All Acceptable s.calls
      → Returns (execute net job_id o sub s)
  unfolding execute
  execute-Returns job_id none sub s v st h = (_, refl, h)
  execute-Returns job_id (some node) sub s v st h = called-Returns job_id node sub s _ v st h

  execute_all-Returns :
      (job_id : ResourceId) (c : Cluster) (subs : HashMap HostAddr Dataflow) (s : Scheduler)
      → All (λ e. validate e.1 ≡ ok tt) subs
      → All (λ e. Starts net e.1) subs
      → All Acceptable s.calls
      → Returns (execute_all net job_id c subs s)
  unfolding execute_all
  execute_all-Returns job_id c [] s v st h = (_, refl, h)
  execute_all-Returns job_id c ((addr, sub) ∷ subs) s v st h =
      let (r, e, h') = execute-Returns job_id (get_node c addr) sub s v.0 st.0 h in
      rw e (
        go_on_outcome r (execute_all net job_id c subs) h'
          (λ s' k. execute_all-Returns job_id c subs s' v.1 st.1 k))

  -- the outcome without the scheduler
  abbrev pub outcome : Step → Option (Result TaskDeploymentException (Unit {0}))
  outcome step = map_option (λ r. r.1) step

  module _ (job_id : ResourceId) (sub : Dataflow) (s : Scheduler) (rest : Scheduler → Step)
      (Q : Type 0) (k : (s' : Scheduler) → (outcome (rest s') ≡ some (ok tt)) ↔ Q) where
    called_iff :
        (node : Node) (r : Result RpcStatus (Unit {0}))
        → (outcome (go_on (called net job_id node sub s r) rest) ≡ some (ok tt))
          ↔ ((r ≡ ok tt) × Starts net sub × Q)
    unfolding called new_execution
    called_iff node (ok _) =
        let (to, from) = vertexes_iff net sub.nodes in
        elim (Option-cases (vertexes_of net sub.nodes)) [
          | inl e ↦ rw e (λ h. cc, λ h. cc (rw e at (from h.1)))
          | inr (vs, e) ↦ rw e (λ h. (refl, to (rw e refl), (k _).0 h), λ h. (k _).1 h.2)
        ]
    called_iff node (err e) = (λ h. cc, λ h. cc (h.0))

    execute_iff :
        (o : Option Node)
        → (outcome (go_on (execute net job_id o sub s) rest) ≡ some (ok tt)) ↔ (
            ((node : Node) × (o ≡ some node)
              × (net.rpc (node, request job_id node sub) ≡ ok tt)
              × Starts net sub)
            × Q)
    unfolding execute
    execute_iff none = (λ h. cc, λ h. cc (h.0.1))
    execute_iff (some node) =
        let (to, from) = called_iff node (net.rpc (node, request job_id node sub)) in
        (
          λ h. let (a, st, q) = to h in ((node, refl, a, st), q),
          λ h. from (
            subst (λ n. net.rpc (n, request job_id n sub) ≡ ok tt) (sym (some-injective _ _ h.0.1))
                h.0.2,
            h.0.3,
            h.1,
          ),
        )

  -- The deployment of a division succeeds exactly when there is a node at each address, each node
  -- answers the request for its sub-dataflow without an error, and the senders of acks and
  -- heartbeats to every operator of the sub-dataflows can be made; in every other case it ends with
  -- an error or panics.
  pub execute_all_iff :
      (job_id : ResourceId) (c : Cluster) (subs : HashMap HostAddr Dataflow) (s : Scheduler)
      → (outcome (execute_all net job_id c subs s) ≡ some (ok tt))
        ↔ All
            (λ e.
              (node : Node) × (get_node c e.0 ≡ some node)
              × (net.rpc (node, request job_id node e.1) ≡ ok tt)
              × Starts net e.1)
            subs
  unfolding execute_all
  execute_all_iff job_id c [] s = (λ h. tt, λ h. refl)
  execute_all_iff job_id c ((addr, sub) ∷ subs) s =
      execute_iff job_id sub s (execute_all net job_id c subs) _
        (λ s'. execute_all_iff job_id c subs s') (get_node c addr)

-- The deployment of a validated dataflow, whose operators have numbers of their own and, once they
-- are placed, can all be sent acks and heartbeats, does not panic, and every dataflow that it sends
-- to a node, also where it ends with an error, passes the validation of the receiver.
pub deploy-validate :
    (hash : ℕ → ℕ) (net : Network) (c : Cluster) (location : HostAddr) (d : Dataflow)
    → HashMap.IsUnique d.nodes
    → validate d ≡ ok tt
    → Starts net (partition_dataflow hash c d)
    → (m : JobManager) × (r : Result TaskDeploymentException (Unit {0})) × (deploy_dataflow hash net
          c
          (new_manager location d)
        ≡ some (m, r))
      × All Acceptable m.scheduler.calls
unfolding deploy_dataflow new_manager partition_dataflow
deploy-validate hash net c location d unique valid startable =
    let placed = partition_dataflow hash c d in
    let placed_valid = validate-partition hash c d ∙ valid in
    let (subs, split) = split_total placed placed_valid in
    let subs_unique = split-IsUnique placed subs split in
    let accepted : All (λ e. validate e.1 ≡ ok tt) subs = All-of-In _ subs (λ e i.
      split-validate placed subs e.0 e.1 (place-IsUnique hash c d.nodes unique) placed_valid split
        (HashMap.get-In subs e.0 e.1 subs_unique i)) in
    let (result, done, h) =
      execute_all-Returns net (get_job_id d) c subs new_scheduler accepted
        (Starts-split net placed subs startable split) tt in
    (
      record (new_manager location d) {
        dataflow = placed;
        storage = save d (record { cache = [] });
        scheduler = result.0;
      },
      result.1,
      rw (split, done) refl,
      h,
    )
