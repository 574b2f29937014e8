-- ===== src/Coordinator/Termination.antt =====
-- Ending and replacing jobs: Dispatcher::terminate_dataflow and Coordinator::create_dataflow of
-- src/lightflus-core/src/coordinator.
use lightflus.Base.{
  ℕ, Bool, true, false, not, Option, none, some, ◌≡◌, refl, ok, is_empty, if◌then◌else◌, arith,
}
use lightflus.Base.BTreeMap
use lightflus.Proto.Ids.{ResourceId, resource_id_ord, DataflowStatus}
use lightflus.Proto.Graph.{Dataflow}
use lightflus.Proto.Validate.{validate}
use lightflus.Coordinator.Defs.{Network, terminate_executions}
use lightflus.Coordinator.Manager.{
  JobManager, Dispatcher, terminate_found, terminate_dataflow, create_dataflow,
}

-- Has a sub-dataflow of the job been deployed?
abbrev pub is_deployed : Option JobManager → Bool
is_deployed none = false
is_deployed (some m) = not (is_empty m.scheduler.executions)

-- what a termination that returns answers
abbrev pub final_status : Option JobManager → DataflowStatus
final_status none = DataflowStatus.closed
final_status (some m) = DataflowStatus.closing

terminate_found_lem :
    (job_id : ResourceId) (s : Dispatcher) (o : Option JobManager)
    → terminate_found job_id s o ≡ (if is_deployed o then none else some (s, ok (final_status o)))
unfolding terminate_executions
terminate_found_lem job_id s none = refl
terminate_found_lem job_id s (some m) = ground arith

-- A job of which a sub-dataflow was deployed cannot be ended: the call panics. In every other case
-- the dispatcher stays as it is, and the answer is `Closed` for a job without a manager and
-- `Closing` for one with a manager.
pub terminate_dataflow_lem :
    (job_id : ResourceId) (s : Dispatcher)
    → terminate_dataflow job_id s ≡ (
        let manager = BTreeMap.get job_id s.managers in
        if is_deployed manager then none else some (s, ok (final_status manager)))
unfolding terminate_dataflow
terminate_dataflow_lem job_id s = terminate_found_lem job_id s (BTreeMap.get job_id s.managers)

-- A job of which a sub-dataflow was deployed cannot be deployed again: the call panics.
pub create-deployed :
    (hash : ℕ → ℕ) (net : Network) (d : Dataflow) (job_id : ResourceId) (s : Dispatcher)
    → validate d ≡ ok tt
    → d.job_id ≡ some job_id
    → is_deployed (BTreeMap.get job_id s.managers) ≡ true
    → create_dataflow hash net d s ≡ none
unfolding create_dataflow
create-deployed hash net d job_id s valid e h =
    rw (valid, e, terminate_dataflow_lem job_id s, h) refl
