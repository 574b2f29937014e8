-- ===== src/Coordinator/Defs.antt =====
-- Deployment and the life of a job: executions.rs, scheduler.rs and storage.rs of
-- src/lightflus-core/src/coordinator.
use lightflus.Base.{
  ℕ, Bool, Option, none, some, List, [], ◌∷◌, ◌++◌, Result, ok, err, is_some, is_empty,
  if◌then◌else◌, nat_ord, Str, ◌&&◌, ltb, and_then, map_option,
}
use lightflus.Base.HashMap.{HashMap}
use lightflus.Base.BTreeMap
use lightflus.Base.BTreeMap.{BTreeMap}
use lightflus.Base.Word.{opens_channel}
use lightflus.Proto.Ids.{
  ResourceId, resource_id_ord, HostAddr, SubDataflowId, sub_dataflow_id_ord, DataflowStatus, as_uri,
}
use lightflus.Proto.Graph.{OperatorInfo, Dataflow, get_job_id, get_host_addr}
use lightflus.Cluster.{Node, Cluster, get_node}

-- MemDataflowStorage; none of its operations fails
pub record MemDataflowStorage : Type 0 where
  pub cache : BTreeMap ResourceId Dataflow

unfoldable pub save : Dataflow → MemDataflowStorage → MemDataflowStorage
save d s = record { cache = BTreeMap.insert (get_job_id d) d s.cache }

unfoldable pub get : ResourceId → MemDataflowStorage → Option Dataflow
get job_id s = BTreeMap.get job_id s.cache

unfoldable pub may_exists : ResourceId → MemDataflowStorage → Bool
may_exists job_id s = is_some (BTreeMap.get job_id s.cache)

unfoldable pub delete : ResourceId → MemDataflowStorage → MemDataflowStorage
delete job_id s = record { cache = BTreeMap.remove job_id s.cache }

-- The senders of acks and heartbeats that a vertex owns run beside the program and are left out.
pub record VertexExecution : Type 0 where
  pub executor_id : ℕ
  pub operator : OperatorInfo

pub record SubdataflowExecution : Type 0 where
  pub worker : Node
  pub vertexes : BTreeMap ℕ VertexExecution
  pub execution_id : SubDataflowId

pub record CreateSubDataflowRequest : Type 0 where
  pub job_id : Option ResourceId
  pub dataflow : Option Dataflow

-- A status of a remote procedure call, by its code.
abbrev pub RpcStatus : Type 0
RpcStatus = ℕ

pub data TaskDeploymentException : Type 0 where
  invalid_worker_endpoint : TaskDeploymentException
  rpc_error : RpcStatus → TaskDeploymentException

-- the id of the execution on a node, which `deploy` writes into the sub-dataflow
abbrev pub execution_on : ResourceId → Node → SubDataflowId
execution_on job_id node = record { job_id = some job_id; sub_id = node.node_id }

abbrev pub marked : ResourceId → Node → Dataflow → Dataflow
marked job_id node sub = record sub { execution_id = some (execution_on job_id node) }

abbrev pub request : ResourceId → Node → Dataflow → CreateSubDataflowRequest
request job_id node sub = record {
  job_id = some (get_job_id sub);
  dataflow = some (marked job_id node sub);
}

-- A call that is made, with the node that is called.
abbrev pub Call : Type 0
Call = Node × CreateSubDataflowRequest

-- The scheduler of a job, with the calls made so far.
pub record Scheduler : Type 0 where
  pub executions : BTreeMap SubDataflowId SubdataflowExecution
  pub calls : List Call

-- What the deployment meets: how remote nodes answer `create_sub_dataflow`, whether tonic parses the
-- address of a gateway, and the settings of the builders of heartbeats and acks.
pub record Network : Type 0 where
  pub rpc : Call → Result RpcStatus (Unit {0})
  pub parses : Str → Bool
  pub period : ℕ
  pub delay : ℕ
  pub buf_size : ℕ

-- the outcome of a step, `none` where it panics
abbrev pub Step : Type 0
Step = Option (Scheduler × Result TaskDeploymentException (Unit {0}))

-- the next step of the loop after one that ended without an error
abbrev pub go_on : Step → (Scheduler → Step) → Step
go_on none rest = none
go_on (some (s, err e)) rest = some (s, err e)
go_on (some (s, ok _)) rest = rest s

module _ (net : Network) where
  open net use {rpc, parses, period, delay, buf_size}

  -- Does VertexExecution::new return? The gateways of the two senders panic where the address of the
  -- operator does not parse, and tokio panics on an interval of no length and a channel of no size or of too great a one.
  unfoldable pub starts : OperatorInfo → Bool
  unfolding as_uri
  starts info =
      parses (as_uri (get_host_addr info))
      && (ltb 0 delay && (opens_channel buf_size && ltb 0 period))

  -- VertexExecution::new
  unfoldable pub new_vertex : ℕ → OperatorInfo → Option VertexExecution
  unfolding starts
  new_vertex id info =
      if starts info then some (record { executor_id = id; operator = info }) else none

  -- the vertexes of SubdataflowExecution::new
  unfoldable pub vertexes_of : HashMap ℕ OperatorInfo → Option (BTreeMap ℕ VertexExecution)
  unfolding new_vertex
  vertexes_of [] = some []
  vertexes_of ((id, info) ∷ nodes) =
      and_then (new_vertex id info) (λ v. map_option (BTreeMap.insert id v) (vertexes_of nodes))

  -- SubdataflowExecution::new
  unfoldable pub new_execution : Node → Dataflow → SubDataflowId → Option SubdataflowExecution
  unfolding vertexes_of
  new_execution worker subdataflow execution_id =
      map_option
        (λ vertexes. record { worker = worker; vertexes = vertexes; execution_id = execution_id })
        (vertexes_of subdataflow.nodes)

  unfoldable pub called :
      ResourceId → Node → Dataflow → Scheduler → Result RpcStatus (Unit {0}) → Step
  unfolding new_execution
  called job_id node sub s (err status) =
      some (
        record s { calls = s.calls ++ (node, request job_id node sub) ∷ [] },
        err (rpc_error status),
      )
  called job_id node sub s (ok _) =
      map_option
        (λ execution. (
          record {
            executions = BTreeMap.insert (execution_on job_id node) execution s.executions;
            calls = s.calls ++ (node, request job_id node sub) ∷ [];
          },
          ok tt,
        ))
        (new_execution node (marked job_id node sub) (execution_on job_id node))

  -- Scheduler::execute, with SubdataflowDeploymentPlan::deploy
  unfoldable pub execute : ResourceId → Option Node → Dataflow → Scheduler → Step
  unfolding called
  execute job_id none sub s = some (s, err invalid_worker_endpoint)
  execute job_id (some node) sub s = called job_id node sub s (rpc (node, request job_id node sub))

  -- the loop of JobManager::deploy_dataflow, which stops at the first error
  unfoldable pub execute_all : ResourceId → Cluster → HashMap HostAddr Dataflow → Scheduler → Step
  unfolding execute
  execute_all job_id c [] s = some (s, ok tt)
  execute_all job_id c ((addr, sub) ∷ subs) s =
      go_on (execute job_id (get_node c addr) sub s) (execute_all job_id c subs)

-- Scheduler::new
abbrev pub new_scheduler : Scheduler
new_scheduler = record { executions = []; calls = [] }

-- Scheduler::terminate_dataflow. SubdataflowExecution::try_terminate is `todo!()`, which panics:
-- `none`.
unfoldable pub terminate_executions : Scheduler → Option DataflowStatus
terminate_executions s = if is_empty s.executions then some DataflowStatus.closing else none
