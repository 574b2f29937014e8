-- ===== src/Worker/Tasks.antt =====
-- The tasks of a validated dataflow and their builders: the first loop of
-- TaskWorkerBuilder::build in src/lightflus-core/src/taskmanager/taskworker.rs.
use lightflus.Base.{ℕ, ◌≤◌, some, List, [], ◌∷◌, ◌≡◌, refl, All, nat_ord}
use lightflus.Base.BTreeMap
use lightflus.Base.BTreeMap.{BTreeMap}
use lightflus.Proto.Ids.{ResourceId}
use lightflus.Proto.Graph.{DataflowMeta, Dataflow}
use lightflus.Proto.Validate.Soundness.{OperatorReady, NodeReady}
use lightflus.Worker.Defs.{Host, EdgeBuilder, Task, Channels, open_channel, local_builder, new_task}
use lightflus.Worker.Build.{wire_metas}
use lightflus.Worker.Builders.{
  Reachable, Known, Grows, Ascending, All-insert, insert-Ascending, All-id_set, insert-Grows,
  insert-Known, wire_neighbors_total,
}

-- The task can be connected: there are builders for it and for its downstream, which is not below
-- it, and its operator is ready.
abbrev pub Connectable : Dataflow → BTreeMap ℕ EdgeBuilder → ℕ × Task → Type 0
Connectable d b e =
    Known b e.0 × All (λ n. (e.0 ≤ n) × Known b n) e.1.downstream × OperatorReady d e.0

still-Connectable :
    (d : Dataflow) (b b' : BTreeMap ℕ EdgeBuilder) (tasks : BTreeMap ℕ Task)
    → Grows b b'
    → All (Connectable d b) tasks
    → All (Connectable d b') tasks
still-Connectable d b b' [] g h = tt
still-Connectable d b b' ((id, task) ∷ tasks) g h =
    ((g id h.0.0, still_known task.downstream h.0.1, h.0.2), still-Connectable d b b' tasks g h.1)
  where
    still_known :
        (ns : List ℕ) → All (λ n. (id ≤ n) × Known b n) ns → All (λ n. (id ≤ n) × Known b' n) ns
    still_known [] k = tt
    still_known (n ∷ ns) k = ((k.0.0, g n k.0.1), still_known ns k.1)

both :
    (d : Dataflow) (b : BTreeMap ℕ EdgeBuilder) (low : ℕ) (ids : List ℕ)
    → All (λ n. (low ≤ n) × OperatorReady d n) ids
    → All (Known b) ids
    → All (λ n. (low ≤ n) × Known b n) ids
both d b low [] h k = tt
both d b low (n ∷ ns) h k = ((h.0.0, k.0), both d b low ns h.1 k.1)

module _ (host : Host) (d : Dataflow) (job_id : ResourceId) where
  -- The first loop does not panic on the nodes of a validated dataflow, and its tasks can be
  -- connected, in the order of their numbers.
  pub wire_metas_total :
      (ms : List DataflowMeta) (c : Channels) (tasks : BTreeMap ℕ Task)
      → Reachable host d
      → All (NodeReady d) ms
      → Ascending tasks
      → All (Connectable d c.builders) tasks
      → (c' : Channels) × (tasks' : BTreeMap ℕ Task) × (wire_metas host job_id d.nodes ms c tasks
          ≡ some (c', tasks'))
        × Ascending tasks'
        × All (Connectable d c'.builders) tasks'
  unfolding wire_metas new_task local_builder
  wire_metas_total [] c tasks near h up ok = (c, tasks, refl, up, ok)
  wire_metas_total (m ∷ ms) c tasks near h up ok =
      let (info, found, ready) = h.0.0 in
      let opened = open_channel m.center c in
      let (c', e, grows, known) =
        wire_neighbors_total host d m.center m.neighbors opened near h.0.1 in
      let own : Known c'.builders m.center = grows m.center (insert-Known m.center _ c.builders) in
      let here : Connectable d c'.builders (m.center, new_task job_id m) = (
        own,
        All-id_set _ m.neighbors (both d c'.builders m.center m.neighbors h.0.1 known),
        h.0.0,
      ) in
      let old =
        still-Connectable d c.builders c'.builders tasks
          (λ n k. grows n (insert-Grows m.center _ c.builders n k)) ok in
      let (c'', tasks', e', up', ok') =
        wire_metas_total ms c' (BTreeMap.insert m.center (new_task job_id m) tasks) near h.1
          (insert-Ascending m.center (new_task job_id m) tasks up)
          (All-insert (Connectable d c'.builders) m.center (new_task job_id m) tasks here old) in
      (c'', tasks', rw (found, near.0, e) e', up', ok')
