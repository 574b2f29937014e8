-- ===== src/Worker/Build.antt =====
-- TaskWorkerBuilder::build of src/lightflus-core/src/taskmanager/taskworker.rs. A panic is `none`.
use lightflus.Base.{
  ℕ, Option, none, some, List, [], ◌∷◌, Str, Result, ok, err, ◌&&◌, not, if◌then◌else◌, is_some,
  and_then, map_option, unwrap_or, nat_ord,
}
use lightflus.Base.HashMap
use lightflus.Base.HashMap.{HashMap}
use lightflus.Base.BTreeMap
use lightflus.Base.BTreeMap.{BTreeMap}
use lightflus.Proto.Ids.{ResourceId, SubDataflowId, default_sub_dataflow_id}
use lightflus.Proto.Graph.{OperatorInfo, DataflowMeta, Dataflow, has_source, has_sink}
use lightflus.Proto.Validate.{validate, DataflowValidateError}
use lightflus.Worker.Defs.{
  Host, external_sink, EdgeBuilder, OutEdge, StreamExecutor, Task, Channels, local_builder,
  remote_builder, build_out_edge, build_in_edge, new_task, create_stream_executor,
  is_remote_operator,
}

pub data TaskWorkerError : Type 0 where
  dataflow_validate_error : DataflowValidateError → TaskWorkerError
  channel_disconnected channel_empty : TaskWorkerError
  execution_error : Str → TaskWorkerError
  event_send_failure : Str → TaskWorkerError

pub record TaskWorker : Type 0 where
  pub tasks : HashMap ℕ Task
  pub subdataflow_id : SubDataflowId

module _ (host : Host) where
  -- the body of the loop over the neighbors: a builder is made where there is none
  unfoldable pub wire_neighbor : ℕ → OperatorInfo → Channels → Option Channels
  wire_neighbor id operator c =
      let known = is_some (BTreeMap.get id c.builders) in
      if is_remote_operator host.hostname operator && not known
      then remote_builder host id operator c
      else if not known
      then local_builder host id c
      else some c

  unfoldable pub wire_neighbors : HashMap ℕ OperatorInfo → List ℕ → Channels → Option Channels
  unfolding wire_neighbor
  wire_neighbors info_set [] c = some c
  wire_neighbors info_set (id ∷ ids) c =
      and_then (HashMap.get id info_set)
        (λ operator. and_then (wire_neighbor id operator c) (λ c'. wire_neighbors info_set ids c'))

  -- the loop over the nodes, which makes the tasks and the builders
  unfoldable pub wire_metas :
      ResourceId
      → HashMap ℕ OperatorInfo
      → List DataflowMeta
      → Channels
      → BTreeMap ℕ Task
      → Option (Channels × BTreeMap ℕ Task)
  unfolding wire_neighbors
  wire_metas job_id info_set [] c tasks = some (c, tasks)
  wire_metas job_id info_set (m ∷ ms) c tasks = and_then (HashMap.get m.center info_set) (λ info.
      and_then (local_builder host m.center c) (λ opened.
        and_then (wire_neighbors info_set m.neighbors opened) (λ c'.
          wire_metas job_id info_set ms c' (BTreeMap.insert m.center (new_task job_id m) tasks))))

-- the loop over the downstream, with StreamExecutor::add_out_edge
abbrev pub add_out_edge : ℕ → Option EdgeBuilder → BTreeMap ℕ OutEdge → BTreeMap ℕ OutEdge
add_out_edge id none edges = edges
add_out_edge id (some builder) edges = BTreeMap.insert id (build_out_edge builder) edges

unfoldable pub out_edges_of :
    BTreeMap ℕ EdgeBuilder → List ℕ → BTreeMap ℕ OutEdge → BTreeMap ℕ OutEdge
out_edges_of builders [] edges = edges
out_edges_of builders (id ∷ ids) edges =
    out_edges_of builders ids (add_out_edge id (BTreeMap.get id builders) edges)

-- the in-edge of an operator that is no source, from its builder
abbrev pub attach : Task → StreamExecutor → EdgeBuilder → Task × StreamExecutor
attach task executor builder = (
  record task { in_edge = some (build_out_edge builder) },
  record executor { in_edge = build_in_edge builder },
)

-- what the closure does after the in-edge: the external sink, and Task::start
abbrev pub with_sinks : Task × StreamExecutor → List (ResourceId × OperatorInfo) → Task
with_sinks (task, executor) sinks = record task {
  executor = some (record executor { external_sinks = sinks });
}

unfoldable pub start : Host → ResourceId → OperatorInfo → Task × StreamExecutor → Option Task
unfolding external_sink
start host job_id operator connected =
    if has_sink operator
    then map_option (λ sink. with_sinks connected (sink ∷ [])) (external_sink host job_id operator)
    else some (with_sinks connected connected.1.external_sinks)

-- the closure that connects one task; `edge_builders` is used up as the tasks are connected
unfoldable pub connect_task :
    Host
    → ResourceId
    → OperatorInfo
    → ℕ
    → Task
    → BTreeMap ℕ EdgeBuilder
    → Option (Task × BTreeMap ℕ EdgeBuilder)
connect_task host job_id operator id task builders =
    and_then (create_stream_executor task operator) (λ created.
      let executor = record created {
        out_edges = out_edges_of builders task.downstream created.out_edges;
      } in
      if has_source operator
      then map_option (λ started. (started, builders)) (start host job_id operator (task, executor))
      else and_then (BTreeMap.get id builders) (λ builder.
        map_option (λ started. (started, BTreeMap.remove id builders))
          (start host job_id operator (attach task executor builder))))

unfoldable pub connect_tasks :
    Host
    → ResourceId
    → HashMap ℕ OperatorInfo
    → BTreeMap ℕ Task
    → BTreeMap ℕ EdgeBuilder
    → Option (HashMap ℕ Task)
unfolding connect_task
connect_tasks host job_id info_set [] builders = some []
connect_tasks host job_id info_set ((id, task) ∷ tasks) builders =
    and_then (HashMap.get id info_set) (λ operator.
      and_then (connect_task host job_id operator id task builders) (λ connected.
        map_option (λ rest. (id, connected.0) ∷ rest)
          (connect_tasks host job_id info_set tasks connected.1)))

abbrev pub no_channels : Channels
no_channels = record { next = 0; builders = [] }

-- the closure of `map`, for a dataflow that was validated
unfoldable pub build_worker : Host → Dataflow → Option TaskWorker
unfolding wire_metas connect_tasks
build_worker host d = and_then d.job_id (λ job_id.
    and_then (wire_metas host job_id d.nodes d.meta no_channels []) (λ wired.
      map_option
        (λ tasks. record {
          tasks = tasks;
          subdataflow_id = unwrap_or d.execution_id default_sub_dataflow_id;
        })
        (connect_tasks host job_id d.nodes wired.1 wired.0.builders)))

abbrev built :
    Host
    → Dataflow
    → Result DataflowValidateError (Unit {0})
    → Option (Result TaskWorkerError TaskWorker)
built host d (err e) = some (err (dataflow_validate_error e))
built host d (ok _) = map_option ok (build_worker host d)

-- TaskWorkerBuilder::build
unfoldable pub build : Host → Dataflow → Option (Result TaskWorkerError TaskWorker)
unfolding build_worker
build host d = built host d (validate d)
