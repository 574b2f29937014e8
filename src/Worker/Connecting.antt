-- ===== src/Worker/Connecting.antt =====
-- The tasks that the closures of TaskWorkerBuilder::build connect
-- (src/lightflus-core/src/taskmanager/taskworker.rs), from the builders of all operators.
use lightflus.Base.{
  ℕ, suc, ◌≤◌, true, false, Option, none, some, List, [], ◌∷◌, ◌≡◌, refl, ap, All, All-of-In, any,
  any-In, arith, is_some, map_option, or_else, same, same_iff, same_refl, nat_ord, if◌then◌else◌,
  Bool-cases, Option-cases, inl, inr, All-In,
}
use lightflus.Base.BTreeMap
use lightflus.Base.BTreeMap.{BTreeMap}
use lightflus.Base.HashMap
use lightflus.Base.HashMap.{HashMap}
use lightflus.Proto.Ids.{ResourceId}
use lightflus.Proto.Graph.{Details, OperatorInfo, Dataflow, has_source, has_sink}
use lightflus.Proto.Validate.Soundness.{DetailsReady}
use lightflus.Worker.Defs.{
  Host, EdgeBuilder, OutEdge, StreamExecutor, Task, new_executor, build_out_edge, build_in_edge,
  create_stream_executor,
}
use lightflus.Worker.Build.{
  add_out_edge, with_sinks, attach, out_edges_of, connect_task, connect_tasks,
}
use lightflus.Worker.Sinks.{sinks_made, SinksMade, starts_task}
use lightflus.Worker.Builders.{get-All, Known, Ascending}
use lightflus.Worker.Tasks.{Connectable}

-- The task runs an executor. There is an out-edge for each operator of the downstream and for no
-- other, and an operator that is no source reads the edge that the worker and all upstream
-- operators write: the one of its builder. A source has a source connector and no in-edge.
pub record IsWired (d : Dataflow) (b : BTreeMap ℕ EdgeBuilder) (id : ℕ) (task : Task) : Type 0 where
  pub operator : OperatorInfo
  pub found : HashMap.get id d.nodes ≡ some operator
  pub executor : StreamExecutor
  pub started : task.executor ≡ some executor
  pub downstream :
      All
        (λ n.
          (builder : EdgeBuilder) × (BTreeMap.get n b ≡ some builder)
          × (BTreeMap.get n executor.out_edges ≡ some (build_out_edge builder)))
        task.downstream
  pub others :
      (n : ℕ)
      → any (λ i. same n i) task.downstream ≡ false
      → BTreeMap.get n executor.out_edges ≡ none
  pub upstream :
      has_source operator ≡ false
      → (builder : EdgeBuilder) × (BTreeMap.get id b ≡ some builder)
        × (task.in_edge ≡ some (build_out_edge builder))
        × (executor.in_edge ≡ build_in_edge builder)
  pub source :
      has_source operator ≡ true → (executor.in_edge ≡ none) × (is_some executor.source ≡ true)

get-add_out_edge :
    (id : ℕ) (o : Option EdgeBuilder) (edges : BTreeMap ℕ OutEdge) (n : ℕ)
    → BTreeMap.get n (add_out_edge id o edges) ≡ (
        if same n id
        then or_else (map_option build_out_edge o) (BTreeMap.get n edges)
        else BTreeMap.get n edges)
get-add_out_edge id none edges n = ground arith
get-add_out_edge id (some e) edges n =
    ground (arith, BTreeMap.get-insert id n (build_out_edge e) edges)

get-out_edges_of :
    (b : BTreeMap ℕ EdgeBuilder) (ids : List ℕ) (edges : BTreeMap ℕ OutEdge) (n : ℕ)
    → BTreeMap.get n (out_edges_of b ids edges) ≡ (
        if any (λ i. same n i) ids
        then or_else (map_option build_out_edge (BTreeMap.get n b)) (BTreeMap.get n edges)
        else BTreeMap.get n edges)
unfolding out_edges_of
get-out_edges_of b [] edges n = refl
get-out_edges_of b (id ∷ ids) edges n = ground (
  arith,
  same_iff n id,
  get-add_out_edge id (BTreeMap.get id b) edges n,
  get-out_edges_of b ids (add_out_edge id (BTreeMap.get id b) edges) n,
)

has_details : (o : Option Details) → DetailsReady o → (details : Details) × (o ≡ some details)
has_details none h = absurd h
has_details (some details) h = (details, refl)

creates :
    (task : Task) (operator : OperatorInfo) (details : Details)
    → operator.details ≡ some details
    → create_stream_executor task operator ≡ some (new_executor task operator details)
unfolding create_stream_executor
creates task operator details e = ap (map_option (new_executor task operator)) e

module _ (host : Host) (d : Dataflow) (b : BTreeMap ℕ EdgeBuilder) where
  -- The builders that are left agree with the first ones from a number on.
  abbrev pub Agree : ℕ → BTreeMap ℕ EdgeBuilder → Type 0
  Agree low left = (n : ℕ) → low ≤ n → BTreeMap.get n left ≡ BTreeMap.get n b

  Agree-remove :
      (id : ℕ) (left : BTreeMap ℕ EdgeBuilder)
      → Agree id left
      → Agree (suc id) (BTreeMap.remove id left)
  Agree-remove id left h n lt = ground (arith, BTreeMap.get-remove id n left, h n)

  -- The out-edges made from the builders that are left are those of the first builders.
  connected :
      (left : BTreeMap ℕ EdgeBuilder) (low : ℕ) (ids : List ℕ)
      → Agree low left
      → All (λ n. (low ≤ n) × Known b n) ids
      → All
          (λ n.
            (builder : EdgeBuilder) × (BTreeMap.get n b ≡ some builder)
            × (BTreeMap.get n (out_edges_of left ids []) ≡ some (build_out_edge builder)))
          ids
  unfolding BTreeMap.get
  connected left low ids agree h = All-of-In _ ids (λ n i.
      let (le, known) = All-In (λ n. (low ≤ n) × Known b n) ids n h i in
      elim (Option-cases (BTreeMap.get n b)) [
        | inl e ↦ cc (rw e at known)
        | inr (builder, e) ↦ (
          builder,
          e,
          rw
              (
                get-out_edges_of left ids [] n,
                any-In (λ i. same n i) ids n i (same_refl n),
                agree n le,
                e,
              )
              refl,
        )
      ])

  unconnected :
      (left : BTreeMap ℕ EdgeBuilder) (ids : List ℕ) (n : ℕ)
      → any (λ i. same n i) ids ≡ false
      → BTreeMap.get n (out_edges_of left ids []) ≡ none
  unfolding BTreeMap.get
  unconnected left ids n h = rw (get-out_edges_of left ids [] n, h) refl

  connect_task_total :
      (job_id : ResourceId) (id : ℕ) (task : Task) (left : BTreeMap ℕ EdgeBuilder)
      (operator : OperatorInfo)
      → HashMap.get id d.nodes ≡ some operator
      → DetailsReady operator.details
      → sinks_made host job_id operator ≡ true
      → Connectable d b (id, task)
      → Agree id left
      → (task' : Task) × (left' : BTreeMap ℕ EdgeBuilder) × (connect_task host job_id operator id
            task left
          ≡ some (task', left'))
        × Agree (suc id) left'
        × IsWired d b id task'
  unfolding connect_task
  connect_task_total job_id id task left operator found ready made h agree =
      let (details, e) = has_details operator.details ready in
      let created = creates task operator details e in
      let executor : StreamExecutor = record (new_executor task operator details) {
        out_edges = out_edges_of left task.downstream [];
      } in
      let sinks : List (ResourceId × OperatorInfo) =
        if has_sink operator then (job_id, operator) ∷ [] else [] in
      let begun = starts_task host job_id operator made in
      let near = connected left id task.downstream agree h.1 in
      let far = unconnected left task.downstream in
      elim (Bool-cases (has_source operator)) [
        | inl s ↦ (
          with_sinks (task, executor) sinks,
          left,
          rw (created, begun (task, executor) refl, s) refl,
          (λ n le. agree n (omega arith)),
          record {
            operator = operator;
            found = found;
            executor = record executor { external_sinks = sinks };
            started = refl;
            downstream = near;
            others = far;
            upstream = λ no. cc;
            source = λ yes. (refl, rw yes refl);
          },
        )
        | inr s ↦ elim (Option-cases (BTreeMap.get id b)) [
          | inl none_left ↦ cc (rw none_left at h.0)
          | inr (builder, own) ↦ (
            with_sinks (attach task executor builder) sinks,
            BTreeMap.remove id left,
            rw (created, agree id (omega arith), own, begun (attach task executor builder) refl, s)
                refl,
            Agree-remove id left agree,
            record {
              operator = operator;
              found = found;
              executor = record executor {
                in_edge = build_in_edge builder;
                external_sinks = sinks;
              };
              started = refl;
              downstream = near;
              others = far;
              upstream = λ no. (builder, own, refl, refl);
              source = λ yes. cc;
            },
          )
        ]
      ]

  pub connect_tasks_total :
      (job_id : ResourceId) (tasks : BTreeMap ℕ Task) (left : BTreeMap ℕ EdgeBuilder) (low : ℕ)
      → SinksMade host job_id d
      → Ascending tasks
      → All (λ e. low ≤ e.0) tasks
      → All (Connectable d b) tasks
      → Agree low left
      → (tasks' : HashMap ℕ Task) × (connect_tasks host job_id d.nodes tasks left ≡ some tasks')
        × All (λ e. IsWired d b e.0 e.1) tasks'
  unfolding connect_tasks
  connect_tasks_total job_id [] left low made up above h agree = ([], refl, tt)
  connect_tasks_total job_id ((id, task) ∷ tasks) left low made up above h agree =
      let (operator, found, ready) = h.0.2 in
      let (task', left', e, agree', wired) =
        connect_task_total job_id id task left operator found ready
          (get-All (λ o. sinks_made host job_id o ≡ true) id operator d.nodes made found) h.0
          (λ n le. agree n (omega (arith, above.0))) in
      let (rest, e', wires) =
        connect_tasks_total job_id tasks left' (suc id) made up.1 up.0 h.1 agree' in
      ((id, task') ∷ rest, rw (found, e, e') refl, (wired, wires))
