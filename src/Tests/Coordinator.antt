-- ===== src/Tests/Coordinator.antt =====
-- Deploying the job of three operators, and ending it.
use lightflus.Base.{
  true, ltb, length, Option, err, any, none, some, [], ◌∷◌, ◌≡◌, ◌↔◌, refl, Result, ok, All,
  if◌then◌else◌, nat_ord,
}
use lightflus.Base.BTreeMap
use lightflus.Base.HashMap
use lightflus.Base.HashMap.{HashMap}
use lightflus.Proto.Ids.{
  as_uri, is_valid, HostAddr, ResourceId, SubdataflowInfo, DataflowStatus, Ack, NodeType,
  to_node_type, resource_id_ord, resource_id_cmp,
}
use lightflus.Proto.Graph.{Dataflow, get_host_addr}
use lightflus.Cluster.{
  Node, NodeStatus, get_node, partition_dataflow, place_operators, placed, partition_key, available,
  is_available,
}
use lightflus.Coordinator.{
  JobManager, Dispatcher, Network, starts, RpcStatus, TaskDeploymentException, deploy_dataflow,
  new_manager, execute_all, new_scheduler, terminate_dataflow, create_dataflow, request,
  execution_on,
}
use lightflus.Coordinator.Starting.{Starts}
use lightflus.Coordinator.Deploy.{Acceptable, outcome, deploy-validate, execute_all_iff}
use lightflus.Coordinator.Termination.{
  is_deployed, final_status, terminate_dataflow_lem, create-deployed,
}
use lightflus.Coordinator.Queries.{
  get_states, get_dataflow, receive_ack, infos, is_failed, get_dataflow_lem, IsKnown,
  receive_ack_iff,
}
use lightflus.Tests.Fixtures.{words, job, left}
use lightflus.Tests.Cluster.{pair}
use lightflus.Tests.Validate.{words_valid}

abbrev accept : Network
accept = record {
  rpc = λ call. ok tt;
  parses = λ uri. ltb 0 (length uri);
  period = 3;
  delay = 3;
  buf_size = 500;
}

words-IsUnique : HashMap.IsUnique words.nodes
unfolding HashMap.get
words-IsUnique = (refl, (refl, (refl, tt)))

words-Starts : Starts accept (partition_dataflow (λ k. k) pair words)
unfolding starts partition_dataflow place_operators get_host_addr as_uri placed is_valid
    partition_key available is_available
words-Starts = (refl, (refl, (refl, tt)))

deploy-validate_example :
    (m : JobManager) × (r : Result TaskDeploymentException (Unit {0})) × (deploy_dataflow
        (λ k. k)
        accept
        pair
        (new_manager left words)
      ≡ some (m, r))
    × All Acceptable m.scheduler.calls
deploy-validate_example =
    deploy-validate (λ k. k) accept pair left words words-IsUnique words_valid words-Starts

abbrev whole_job : HashMap HostAddr Dataflow
whole_job = (left, words) ∷ []

execute_all_iff_example :
    (outcome accept (execute_all accept job pair whole_job new_scheduler) ≡ some (ok tt))
    ↔ All
        (λ e.
          (node : Node) × (get_node pair e.0 ≡ some node)
          × (accept.rpc (node, request job node e.1) ≡ ok tt)
          × Starts accept e.1)
        whole_job
execute_all_iff_example = execute_all_iff accept job pair whole_job new_scheduler

abbrev node : Node
node = record { status = NodeStatus.running; host_addr = left; node_id = 0 }

abbrev deployed_manager : JobManager
deployed_manager = record {
  dataflow = words;
  job_id = job;
  scheduler = record {
    executions =
        (
          execution_on job node,
          record { worker = node; vertexes = []; execution_id = execution_on job node },
        )
        ∷ [];
    calls = [];
  };
  location = left;
  storage = record { cache = [] };
}

abbrev busy : Dispatcher
busy = record { managers = (job, deployed_manager) ∷ []; cluster = pair; location = left }

terminate_dataflow_lem_example : terminate_dataflow job busy ≡ (
    let manager = BTreeMap.get job busy.managers in
    if is_deployed manager then none else some (busy, ok (final_status manager)))
terminate_dataflow_lem_example = terminate_dataflow_lem job busy

busy_deployed : is_deployed (BTreeMap.get job busy.managers) ≡ true
unfolding BTreeMap.get resource_id_cmp
busy_deployed = refl

deployed_panics : create_dataflow (λ k. k) accept words busy ≡ none
deployed_panics = create-deployed (λ k. k) accept words job busy words_valid refl busy_deployed

-- every node answers that it is not available
abbrev unavailable : Node → ResourceId → Result RpcStatus (Option SubdataflowInfo)
unavailable _ _ = err 14

job-busy : BTreeMap.get job busy.managers ≡ some deployed_manager
unfolding BTreeMap.get resource_id_cmp
job-busy = refl

get_dataflow_lem_example :
    get_dataflow unavailable job busy
    ≡ ok (record {
      graph = some deployed_manager.dataflow;
      subdataflow_infos = infos unavailable deployed_manager.scheduler.executions;
      status =
          if any
            (λ e. is_failed unavailable (get_states unavailable e.1))
            deployed_manager.scheduler.executions
          then DataflowStatus.running
          else DataflowStatus.initialized;
    })
get_dataflow_lem_example = get_dataflow_lem unavailable job busy deployed_manager job-busy

abbrev first_ack : Ack
first_ack = record {
  request_id = some 1;
  timestamp = none;
  ack_type = 0;
  node_type = 1;
  execution_id = some (record { job_id = some job; sub_id = 0 });
}

receive_ack_iff_example :
    (receive_ack first_ack busy ≡ none)
    ↔ ((to_node_type first_ack.node_type ≡ NodeType.task_worker) × IsKnown first_ack busy)
receive_ack_iff_example = receive_ack_iff first_ack busy
