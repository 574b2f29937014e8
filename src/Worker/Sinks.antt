-- ===== src/Worker/Sinks.antt =====
-- The external sinks that TaskWorkerBuilder::build makes
-- (src/lightflus-core/src/taskmanager/taskworker.rs).
use lightflus.Base.{
  true, some, [], ◌∷◌, ◌≡◌, refl, All, Bool, is_some, if◌then◌else◌, Bool-cases, Option-cases, inl,
  inr,
}
use lightflus.Proto.Ids.{ResourceId}
use lightflus.Proto.Graph.{OperatorInfo, Dataflow, has_sink}
use lightflus.Connector.Sink.{sink_from}
use lightflus.Worker.Defs.{Host, external_sink, StreamExecutor, Task}
use lightflus.Worker.Build.{start, with_sinks}

-- Is the external sink of the operator made, if it has one?
unfoldable pub sinks_made : Host → ResourceId → OperatorInfo → Bool
unfolding external_sink
sinks_made host job_id operator =
    if has_sink operator then is_some (external_sink host job_id operator) else true

-- The external sinks of all operators are made.
abbrev pub SinksMade : Host → ResourceId → Dataflow → Type 0
SinksMade host job_id d = All (λ e. sinks_made host job_id e.1 ≡ true) d.nodes

sink_is :
    (host : Host) (job_id : ResourceId) (operator : OperatorInfo)
    → is_some (external_sink host job_id operator) ≡ true
    → external_sink host job_id operator ≡ some (job_id, operator)
unfolding external_sink
sink_is host job_id operator h =
    elim (Option-cases (sink_from host.rdkafka host.redis host.hash job_id operator)) [
      | inl e ↦ cc (rw e at h)
      | inr (made, e) ↦ rw e refl
    ]

pub starts_task :
    (host : Host) (job_id : ResourceId) (operator : OperatorInfo)
    → sinks_made host job_id operator ≡ true
    → (connected : Task × StreamExecutor) → connected.1.external_sinks ≡ []
    → start host job_id operator connected
      ≡ some (with_sinks connected (if has_sink operator then (job_id, operator) ∷ [] else []))
unfolding start sinks_made
starts_task host job_id operator made connected none_yet = elim (Bool-cases (has_sink operator)) [
  | inl e ↦ rw (e, sink_is host job_id operator (rw e at made)) refl
  | inr e ↦ rw (e, none_yet) refl
]
