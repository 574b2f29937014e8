-- ===== src/Worker/Handling.antt =====
-- What the handlers of src/lightflus-core/src/taskmanager/rpc.rs leave in the task manager.
use lightflus.Base.{
  Option, none, some, [], ◌∷◌, ◌≡◌, refl, ap, Result, ok, err, if◌then◌else◌, same, same_iff, arith,
  Ord, nat_ord, and_then, Option-cases, inl, inr, sym, subst,
}
use lightflus.Base.HashMap
use lightflus.Base.HashMap.{HashMap}
use lightflus.Base.BTreeMap
use lightflus.Proto.Ids.{
  ResourceId, resource_id_ord, Heartbeat, NodeType, to_node_type, DataflowStatus,
}
use lightflus.Proto.Graph.{Dataflow}
use lightflus.Worker.Defs.{Task, receive_heartbeat}
use lightflus.Worker.Defs.{Host}
use lightflus.Worker.Build.{TaskWorker, TaskWorkerError, build}
use lightflus.Worker.Service.{
  TaskManager, Status, install, remove_worker, update_task, from_node, beat, worker_error,
  create_sub_dataflow, worker_heartbeat, manager_heartbeat,
}

-- the worker that runs after a build, and the answer to its request
abbrev pub running : Option (Result TaskWorkerError TaskWorker) → Option TaskWorker
running none = none
running (some (err e)) = none
running (some (ok worker)) = some worker

abbrev pub answer :
    Option (Result TaskWorkerError TaskWorker) → Option (Result Status DataflowStatus)
answer none = none
answer (some (err e)) = some (err (worker_error e))
answer (some (ok worker)) = some (ok DataflowStatus.initialized)

-- The statement of `get-create`, for any outcome of the build.
get-install :
    (job_id k : ResourceId) (manager : TaskManager) (r : Option (Result TaskWorkerError TaskWorker))
    → (BTreeMap.get k (install (some job_id) (remove_worker (some job_id) manager) r).0.workers
        ≡ (if same k job_id then running r else BTreeMap.get k manager.workers))
      × ((install (some job_id) (remove_worker (some job_id) manager) r).1 ≡ answer r)
get-install job_id k manager none = (BTreeMap.get-remove job_id k manager.workers, refl)
get-install job_id k manager (some (err e)) = (BTreeMap.get-remove job_id k manager.workers, refl)
get-install job_id k manager (some (ok worker)) = (
  ground (
    arith,
    BTreeMap.get-insert job_id k worker (BTreeMap.remove job_id manager.workers),
    BTreeMap.get-remove job_id k manager.workers,
  ),
  refl,
)

-- A request for a job replaces the job's worker by the one that is built, and only that: where the
-- build is refused or panics the job is left without a worker, the old one included. The answer is
-- that of the build.
pub get-create :
    (host : Host) (d : Dataflow) (job_id k : ResourceId) (manager : TaskManager)
    → d.job_id ≡ some job_id
    → (BTreeMap.get k (create_sub_dataflow host (some d) manager).0.workers
        ≡ (if same k job_id then running (build host d) else BTreeMap.get k manager.workers))
      × ((create_sub_dataflow host (some d) manager).1 ≡ answer (build host d))
unfolding create_sub_dataflow
get-create host d job_id k manager e =
    subst
      (λ j.
        (BTreeMap.get k (install j (remove_worker j manager) (build host d)).0.workers
          ≡ (if same k job_id then running (build host d) else BTreeMap.get k manager.workers))
        × ((install j (remove_worker j manager) (build host d)).1 ≡ answer (build host d)))
      (sym e) (get-install job_id k manager (build host d))

insert-same {ℓ κ} :
    {K : Type ℓ} {V : Type κ} ⦃o : Ord K⦄ (k : K) (v : V) (m : HashMap K V)
    → HashMap.get k m ≡ some v
    → HashMap.insert k v m ≡ m
unfolding HashMap.get HashMap.insert
insert-same k v [] h = cc
insert-same k v ((j, w) ∷ m) h = ground (arith, same_iff k j, insert-same k v m)

update_idle :
    (heartbeat : Heartbeat) (found : Option Task) (worker : TaskWorker)
    → HashMap.get heartbeat.task_id worker.tasks ≡ found
    → update_task heartbeat found worker ≡ worker
unfolding receive_heartbeat
update_idle heartbeat none worker e = refl
update_idle heartbeat (some task) worker e =
    ap (λ tasks. record worker { tasks = tasks })
      (insert-same heartbeat.task_id task worker.tasks e)

node_idle :
    (node_type : NodeType) (heartbeat : Heartbeat) (worker : TaskWorker)
    → from_node node_type heartbeat worker ≡ worker
node_idle NodeType.job_manager heartbeat worker =
    update_idle heartbeat (HashMap.get heartbeat.task_id worker.tasks) worker refl
node_idle NodeType.task_worker heartbeat worker = refl

beat_idle :
    (heartbeat : Heartbeat) (job_id k : ResourceId) (found : Option TaskWorker)
    (manager : TaskManager)
    → BTreeMap.get job_id manager.workers ≡ found
    → BTreeMap.get k (beat heartbeat job_id found manager).workers ≡ BTreeMap.get k manager.workers
unfolding worker_heartbeat
beat_idle heartbeat job_id k none manager e = refl
beat_idle heartbeat job_id k (some worker) manager e =
    let idle_worker = node_idle (to_node_type heartbeat.node_type) heartbeat worker in
    rw (idle_worker)
      (ground (arith, BTreeMap.get-insert job_id k worker manager.workers, same_iff k job_id))

-- A heartbeat changes no task: the number of the last heartbeat stays what it was at the start.
pub manager_heartbeat-idle :
    (heartbeat : Heartbeat) (k : ResourceId) (manager : TaskManager)
    → BTreeMap.get k (manager_heartbeat heartbeat manager).0.workers
      ≡ BTreeMap.get k manager.workers
unfolding manager_heartbeat
manager_heartbeat-idle heartbeat k manager =
    elim (Option-cases (and_then heartbeat.subdataflow_id (λ id. id.job_id))) [
      | inl e ↦ rw e refl
      | inr (job_id, e) ↦
          rw e (beat_idle heartbeat job_id k (BTreeMap.get job_id manager.workers) manager refl)
    ]
