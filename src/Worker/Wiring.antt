-- ===== src/Worker/Wiring.antt =====
-- What TaskWorkerBuilder::build (src/lightflus-core/src/taskmanager/taskworker.rs) answers for a
-- validated dataflow: tasks whose edges lead to each other.
use lightflus.Base.{
  ℕ, ◌≤◌, some, [], ◌∷◌, ◌≡◌, refl, All, arith, ok, subst, unwrap_or, nat_ord, Option-cases, inl,
  inr,
}
use lightflus.Base.BTreeMap.{BTreeMap}
use lightflus.Base.HashMap.{HashMap}
use lightflus.Proto.Ids.{ResourceId, default_sub_dataflow_id}
use lightflus.Proto.Graph.{Dataflow, get_job_id}
use lightflus.Proto.Validate.{validate}
use lightflus.Proto.Validate.Soundness.{validate_iff}
use lightflus.Worker.Defs.{Host, EdgeBuilder, Task, Channels}
use lightflus.Worker.Build.{TaskWorker, connect_tasks, build_worker, build, wire_metas, no_channels}
use lightflus.Worker.Sinks.{SinksMade}
use lightflus.Worker.Builders.{Reachable}
use lightflus.Worker.Tasks.{wire_metas_total}
use lightflus.Worker.Connecting.{IsWired, connect_tasks_total}

job_of : (d : Dataflow) (job_id : ResourceId) → d.job_id ≡ some job_id → get_job_id d ≡ job_id
unfolding get_job_id
job_of d job_id e = rw e refl

from_zero : (tasks : BTreeMap ℕ Task) → All (λ e. 0 ≤ e.0) tasks
from_zero [] = tt
from_zero (e ∷ tasks) = (omega arith, from_zero tasks)

builds :
    (host : Host) (d : Dataflow) (job_id : ResourceId) (c : Channels) (tasks : BTreeMap ℕ Task)
    (tasks' : HashMap ℕ Task)
    → validate d ≡ ok tt
    → d.job_id ≡ some job_id
    → wire_metas host job_id d.nodes d.meta no_channels [] ≡ some (c, tasks)
    → connect_tasks host job_id d.nodes tasks c.builders ≡ some tasks'
    → build host d
      ≡ some (
          ok (record {
            tasks = tasks';
            subdataflow_id = unwrap_or d.execution_id default_sub_dataflow_id;
          }))
unfolding build build_worker
builds host d job_id c tasks tasks' h e wired done = rw (h, e, wired, done) refl

pub build_wires :
    (host : Host) (d : Dataflow)
    → validate d ≡ ok tt
    → Reachable host d
    → SinksMade host (get_job_id d) d
    → (worker : TaskWorker) × (b : BTreeMap ℕ EdgeBuilder) × (build host d ≡ some (ok worker))
      × All (λ e. IsWired d b e.0 e.1) worker.tasks
build_wires host d h near made =
    let (job, metas) = (validate_iff d).0 h in
    elim (Option-cases d.job_id) [
      | inl e ↦ cc (rw e at job)
      | inr (job_id, e) ↦
          let (c, tasks, wired, up, ready) =
            wire_metas_total host d job_id d.meta no_channels [] near metas tt tt in
          let (tasks', done, all_wired) =
            connect_tasks_total host d c.builders job_id tasks c.builders 0
              (subst (λ j. SinksMade host j d) (job_of d job_id e) made) up (from_zero tasks) ready
              (λ n le. refl) in
          (
            record {
              tasks = tasks';
              subdataflow_id = unwrap_or d.execution_id default_sub_dataflow_id;
            },
            c.builders,
            builds host d job_id c tasks tasks' h e wired done,
            all_wired,
          )
    ]
