-- ===== src/Coordinator/Manager.antt =====
-- Job managers and the dispatcher: managers.rs and coord.rs of src/lightflus-core/src/coordinator.
-- A panic is `none`.
use lightflus.Base.{Option, none, some, [], Result, ok, err, ℕ, and_then, map_option}
use lightflus.Base.BTreeMap
use lightflus.Base.BTreeMap.{BTreeMap}
use lightflus.Proto.Ids.{ResourceId, resource_id_ord, HostAddr, DataflowStatus}
use lightflus.Proto.Graph.{Dataflow, get_job_id}
use lightflus.Proto.Validate.{validate, DataflowValidateError}
use lightflus.Cluster.{Cluster, partition_dataflow, split_into_subdataflow}
use lightflus.Coordinator.Defs.{
  MemDataflowStorage, save, Scheduler, new_scheduler, Network, TaskDeploymentException, execute_all,
  terminate_executions,
}

pub record JobManager : Type 0 where
  pub dataflow : Dataflow
  pub job_id : ResourceId
  pub scheduler : Scheduler
  pub location : HostAddr
  pub storage : MemDataflowStorage

-- JobManager::new, with a storage in memory
unfoldable pub new_manager : HostAddr → Dataflow → JobManager
new_manager location d = record {
  dataflow = d;
  job_id = get_job_id d;
  scheduler = new_scheduler;
  location = location;
  storage = record { cache = [] };
}

pub record Dispatcher : Type 0 where
  pub managers : BTreeMap ResourceId JobManager
  pub cluster : Cluster
  pub location : HostAddr

pub data DispatcherException : Type 0 where
  deployment_error : TaskDeploymentException → DispatcherException
  unexpected_dataflow_status : DataflowStatus → DispatcherException
  not_found_dataflow : ResourceId → DispatcherException

-- What the coordinator answers instead of a result: the status of an invalid argument, or of the
-- dispatcher's error.
pub data Refusal : Type 0 where
  invalid_argument : DataflowValidateError → Refusal
  dispatcher_error : DispatcherException → Refusal

-- Hashing and the remote nodes are parameters.
module _ (hash : ℕ → ℕ) (net : Network) where
  abbrev pub deployed :
      JobManager
      → Scheduler × Result TaskDeploymentException (Unit {0})
      → JobManager × Result TaskDeploymentException (Unit {0})
  deployed m (s, r) = (record m { scheduler = s }, r)

  -- JobManager::deploy_dataflow
  unfoldable pub deploy_dataflow :
      Cluster → JobManager → Option (JobManager × Result TaskDeploymentException (Unit {0}))
  deploy_dataflow c m =
      let placed = partition_dataflow hash c m.dataflow in
      and_then (split_into_subdataflow placed) (λ subs.
        map_option (deployed (record m { storage = save m.dataflow m.storage; dataflow = placed }))
          (execute_all net m.job_id c subs m.scheduler))

  abbrev with_manager :
      ResourceId
      → Dispatcher
      → JobManager × Result TaskDeploymentException (Unit {0})
      → Dispatcher × Result DispatcherException (Unit {0})
  with_manager job_id s (m, ok _) =
      (record s { managers = BTreeMap.insert job_id m s.managers }, ok tt)
  with_manager job_id s (m, err e) =
      (record s { managers = BTreeMap.insert job_id m s.managers }, err (deployment_error e))

  -- Dispatcher::create_dataflow
  unfoldable pub dispatch :
      Dataflow → Dispatcher → Option (Dispatcher × Result DispatcherException (Unit {0}))
  unfolding deploy_dataflow new_manager
  dispatch d s =
      map_option (with_manager (get_job_id d) s)
        (deploy_dataflow s.cluster (new_manager s.location d))

-- the `match` on the status in Dispatcher::terminate_dataflow
abbrev pub settle :
    ResourceId
    → Dispatcher
    → DataflowStatus
    → Dispatcher × Result DispatcherException DataflowStatus
settle job_id s DataflowStatus.initialized =
    (s, err (unexpected_dataflow_status DataflowStatus.initialized))
settle job_id s DataflowStatus.running =
    (s, err (unexpected_dataflow_status DataflowStatus.running))
settle job_id s DataflowStatus.closing = (s, ok DataflowStatus.closing)
settle job_id s DataflowStatus.closed =
    (record s { managers = BTreeMap.remove job_id s.managers }, ok DataflowStatus.closed)

abbrev pub terminate_found :
    ResourceId
    → Dispatcher
    → Option JobManager
    → Option (Dispatcher × Result DispatcherException DataflowStatus)
terminate_found job_id s none = some (s, ok DataflowStatus.closed)
terminate_found job_id s (some m) = map_option (settle job_id s) (terminate_executions m.scheduler)

-- Dispatcher::terminate_dataflow, with JobManager::terminate_dataflow
unfoldable pub terminate_dataflow :
    ResourceId → Dispatcher → Option (Dispatcher × Result DispatcherException DataflowStatus)
terminate_dataflow job_id s = terminate_found job_id s (BTreeMap.get job_id s.managers)

abbrev refused :
    Dispatcher × Result DispatcherException (Unit {0}) → Dispatcher × Result Refusal (Unit {0})
refused (s, ok _) = (s, ok tt)
refused (s, err e) = (s, err (dispatcher_error e))

module _ (hash : ℕ → ℕ) (net : Network) where
  abbrev pub after_terminate :
      Dataflow
      → Dispatcher × Result DispatcherException DataflowStatus
      → Option (Dispatcher × Result Refusal (Unit {0}))
  after_terminate d (s, err e) = some (s, err (dispatcher_error e))
  after_terminate d (s, ok status) = map_option refused (dispatch hash net d s)

  abbrev pub after_validate :
      Dataflow
      → Dispatcher
      → Result DataflowValidateError (Unit {0})
      → Option (Dispatcher × Result Refusal (Unit {0}))
  after_validate d s (err e) = some (s, err (invalid_argument e))
  after_validate d s (ok _) =
      and_then d.job_id (λ job_id. and_then (terminate_dataflow job_id s) (after_terminate d))

  -- Coordinator::create_dataflow
  unfoldable pub create_dataflow :
      Dataflow → Dispatcher → Option (Dispatcher × Result Refusal (Unit {0}))
  unfolding dispatch
  create_dataflow d s = after_validate d s (validate d)
