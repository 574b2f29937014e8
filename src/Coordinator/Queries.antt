-- ===== src/Coordinator/Queries.antt =====
-- What the coordinator is asked while a job runs: its states, heartbeats and acks (managers.rs,
-- scheduler.rs, executions.rs and coord.rs of src/lightflus-core/src/coordinator).
use mathlib.Core.List.{append-nil, append_assoc}
use lightflus.Base.{
  Bool, true, false, Option, none, some, List, [], ◌∷◌, ◌++◌, Result, ok, err, and_then,
  if◌then◌else◌, is_some, unwrap_or, any, ◌≡◌, ◌↔◌, refl, ap, ◌||◌, Option-cases, inl, inr,
}
use lightflus.Base.BTreeMap
use lightflus.Base.BTreeMap.{BTreeMap}
use lightflus.Proto.Ids.{
  ResourceId, resource_id_ord, SubDataflowId, SubdataflowInfo, DataflowStatus, Ack, NodeType,
  to_node_type, default_resource_id,
}
use lightflus.Proto.Graph.{Dataflow}
use lightflus.Cluster.{Node}
use lightflus.Coordinator.Defs.{Scheduler, SubdataflowExecution, RpcStatus}
use lightflus.Coordinator.Manager.{JobManager, Dispatcher, DispatcherException, not_found_dataflow}

pub record DataflowStates : Type 0 where
  pub graph : Option Dataflow
  pub subdataflow_infos : List SubdataflowInfo
  pub status : DataflowStatus

-- `remote` is how a node answers `get_sub_dataflow` for a job
module _ (remote : Node → ResourceId → Result RpcStatus (Option SubdataflowInfo)) where
  -- SubdataflowExecution::get_states
  unfoldable pub get_states : SubdataflowExecution → Result RpcStatus (Option SubdataflowInfo)
  get_states execution =
      remote execution.worker (unwrap_or execution.execution_id.job_id default_resource_id)

  -- the body of the loop of Scheduler::get_dataflow
  unfoldable pub with_states :
      SubDataflowId → Result RpcStatus (Option SubdataflowInfo) → DataflowStates → DataflowStates
  with_states id (ok none) states = states
  with_states id (ok (some infos)) states = record states {
    subdataflow_infos = states.subdataflow_infos ++ infos ∷ [];
  }
  with_states id (err status) states = record states {
    subdataflow_infos =
        states.subdataflow_infos ++ record { execution_id = some id; executors_info = [] } ∷ [];
    status = DataflowStatus.running;
  }

  unfoldable pub all_states :
      BTreeMap SubDataflowId SubdataflowExecution → DataflowStates → DataflowStates
  unfolding get_states with_states
  all_states [] states = states
  all_states ((id, execution) ∷ executions) states =
      all_states executions (with_states id (get_states execution) states)

  -- Scheduler::get_dataflow
  unfoldable pub scheduler_states : Dataflow → Scheduler → DataflowStates
  unfolding all_states
  scheduler_states dataflow s = all_states s.executions (record {
    graph = some dataflow;
    subdataflow_infos = [];
    status = DataflowStatus.initialized;
  })

  abbrev states_of : ResourceId → Option JobManager → Result DispatcherException DataflowStates
  unfolding scheduler_states
  states_of job_id none = err (not_found_dataflow job_id)
  states_of job_id (some m) = ok (scheduler_states m.dataflow m.scheduler)

  -- Dispatcher::get_dataflow, with JobManager::get_dataflow
  unfoldable pub get_dataflow : ResourceId → Dispatcher → Result DispatcherException DataflowStates
  unfolding scheduler_states
  get_dataflow job_id s = states_of job_id (BTreeMap.get job_id s.managers)

-- JobManager::ack_from_execution; Scheduler::ack is `todo!()`, which panics
abbrev ack_from_execution : Ack → Option (Unit {0})
ack_from_execution ack = if is_some ack.execution_id then none else some tt

abbrev acked_by : Ack → Option JobManager → Option (Unit {0})
acked_by ack none = some tt
acked_by ack (some m) = ack_from_execution ack

-- Dispatcher::ack_from_task_manager
unfoldable pub ack_from_task_manager : Ack → Dispatcher → Option (Unit {0})
ack_from_task_manager ack s = acked_by ack (
    and_then ack.execution_id (λ id. and_then id.job_id (λ job_id. BTreeMap.get job_id s.managers)))

abbrev from_node : NodeType → Ack → Dispatcher → Option (Unit {0})
unfolding ack_from_task_manager
from_node NodeType.task_worker ack s = ack_from_task_manager ack s
from_node _ ack s = some tt

-- Coordinator::receive_ack
unfoldable pub receive_ack : Ack → Dispatcher → Option (Unit {0})
unfolding ack_from_task_manager
receive_ack ack s = from_node (to_node_type ack.node_type) ack s

module _ (remote : Node → ResourceId → Result RpcStatus (Option SubdataflowInfo)) where
  -- what one execution adds to the states of its job
  abbrev pub info_of :
      SubDataflowId → Result RpcStatus (Option SubdataflowInfo) → List SubdataflowInfo
  info_of id (ok none) = []
  info_of id (ok (some info)) = info ∷ []
  info_of id (err status) = record { execution_id = some id; executors_info = [] } ∷ []

  abbrev pub is_failed : Result RpcStatus (Option SubdataflowInfo) → Bool
  is_failed (ok _) = false
  is_failed (err _) = true

  -- what the executions add, one after the other
  unfoldable pub infos : BTreeMap SubDataflowId SubdataflowExecution → List SubdataflowInfo
  infos [] = []
  infos ((id, execution) ∷ executions) =
      info_of id (get_states remote execution) ++ infos executions

  abbrev running_if : Bool → DataflowStatus → DataflowStatus
  running_if failed status = if failed then DataflowStatus.running else status

  abbrev after :
      SubDataflowId → Result RpcStatus (Option SubdataflowInfo) → DataflowStates → DataflowStates
  after id r states = record {
    graph = states.graph;
    subdataflow_infos = states.subdataflow_infos ++ info_of id r;
    status = running_if (is_failed r) states.status;
  }

  running-twice :
      (a b : Bool) (st : DataflowStatus) → running_if b (running_if a st) ≡ running_if (a || b) st
  running-twice true true st = refl
  running-twice true false st = refl
  running-twice false b st = refl

  with_states-after :
      (id : SubDataflowId) (r : Result RpcStatus (Option SubdataflowInfo)) (states : DataflowStates)
      → with_states remote id r states ≡ after id r states
  unfolding with_states
  with_states-after id (ok none) states = rw (append-nil states.subdataflow_infos) refl
  with_states-after id (ok (some info)) states = refl
  with_states-after id (err status) states = refl

  all_states-after :
      (es : BTreeMap SubDataflowId SubdataflowExecution) (states : DataflowStates)
      → all_states remote es states ≡ record {
        graph = states.graph;
        subdataflow_infos = states.subdataflow_infos ++ infos es;
        status = running_if (any (λ e. is_failed (get_states remote e.1)) es) states.status;
      }
  unfolding all_states infos
  all_states-after [] states = rw (append-nil states.subdataflow_infos) refl
  all_states-after ((id, e) ∷ es) states =
      rw
        (
          with_states-after id (get_states remote e) states,
          all_states-after es (after id (get_states remote e) states),
          append_assoc states.subdataflow_infos (info_of id (get_states remote e)) (infos es),
        )
        (ap
          (λ (st : DataflowStatus). record {
            graph = states.graph;
            subdataflow_infos =
                states.subdataflow_infos ++ (info_of id (get_states remote e) ++ infos es);
            status = st;
          })
          (running-twice (is_failed (get_states remote e)) _ states.status))

  -- The states of a job that has a manager are the manager's dataflow and what the nodes of its
  -- executions answer, in the order of the executions, with an empty one for each call that fails;
  -- the job is reported as running where a call fails, and else as initialized.
  pub get_dataflow_lem :
      (job_id : ResourceId) (s : Dispatcher) (m : JobManager)
      → BTreeMap.get job_id s.managers ≡ some m
      → get_dataflow remote job_id s
        ≡ ok (record {
          graph = some m.dataflow;
          subdataflow_infos = infos m.scheduler.executions;
          status =
              if any (λ e. is_failed (get_states remote e.1)) m.scheduler.executions
              then DataflowStatus.running
              else DataflowStatus.initialized;
        })
  unfolding get_dataflow scheduler_states
  get_dataflow_lem job_id s m h = rw h (ap ok (all_states-after m.scheduler.executions _))

-- The execution that an ack is for belongs to a job that has a manager.
abbrev pub IsKnown : Ack → Dispatcher → Type 0
IsKnown ack s =
    (id : SubDataflowId) × (job_id : ResourceId) × (m : JobManager) × (ack.execution_id ≡ some id)
    × (id.job_id ≡ some job_id)
    × (BTreeMap.get job_id s.managers ≡ some m)

going-on : {X : Type 0} → ◌≡◌ {A = Option (Unit {0})} (some tt) none → X
going-on h = cc

ack-IsKnown : (ack : Ack) (s : Dispatcher) → ack_from_task_manager ack s ≡ none → IsKnown ack s
unfolding ack_from_task_manager
ack-IsKnown ack s h = elim (Option-cases ack.execution_id) [
  | inl e ↦ going-on (rw e at h)
  | inr (id, e) ↦ elim (Option-cases id.job_id) [
    | inl f ↦ going-on (rw (e, f) at h)
    | inr (job_id, f) ↦ elim (Option-cases (BTreeMap.get job_id s.managers)) [
      | inl g ↦ going-on (rw (e, f, g) at h)
      | inr (m, g) ↦ (id, job_id, m, e, f, g)
    ]
  ]
]

by-task_worker :
    (t : NodeType) (ack : Ack) (s : Dispatcher)
    → from_node t ack s ≡ none
    → (t ≡ NodeType.task_worker) × IsKnown ack s
unfolding from_node
by-task_worker NodeType.task_worker ack s h = (refl, ack-IsKnown ack s h)
by-task_worker NodeType.job_manager ack s h = going-on h

-- The coordinator panics exactly on the acks of task workers for a job that has a manager.
pub receive_ack_iff :
    (ack : Ack) (s : Dispatcher)
    → (receive_ack ack s ≡ none)
      ↔ ((to_node_type ack.node_type ≡ NodeType.task_worker) × IsKnown ack s)
unfolding receive_ack ack_from_task_manager
receive_ack_iff ack s = (
  by-task_worker (to_node_type ack.node_type) ack s,
  λ (worker, (id, job_id, m, e, f, g)). rw (worker, e, f, g) refl,
)
