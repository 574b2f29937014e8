-- ===== src/Coordinator/Storage/Agreement.antt =====
-- Storages that are used through their interface (src/lightflus-core/src/coordinator/storage.rs).
use lightflus.Base.{
  Option, none, List, [], ◌∷◌, ◌≡◌, refl, ◌∙◌, ap, sym, Result, ok, same, Ord, if◌then◌else◌,
}
use lightflus.Proto.Ids.{ResourceId, resource_id_ord}
use lightflus.Proto.Graph.{Dataflow, get_job_id}
use lightflus.Coordinator.Defs.{MemDataflowStorage}
use lightflus.Coordinator.Storage.{StorageError, DataflowStorage, memory, Sled, Prost, local}

-- What a job manager asks of its storage.
pub data Request : Type 0 where
  save : Dataflow → Request
  delete : ResourceId → Request

module _ {S : Type 0} (storage : DataflowStorage S) where
  abbrev pub answer : Request → S → S × Result StorageError (Unit {0})
  answer (save d) s = storage.save d s
  answer (delete id) s = storage.delete id s

  unfoldable pub after : List Request → S → S
  after [] s = s
  after (r ∷ rs) s = after rs (answer r s).0

  -- Every request is answered without an error.
  abbrev pub Succeeds : List Request → S → Type 0
  Succeeds [] s = Unit
  Succeeds (r ∷ rs) s = ((answer r s).1 ≡ ok tt) × Succeeds rs (answer r s).0

module _ {S T : Type 0} (a : DataflowStorage S) (b : DataflowStorage T) where
  -- The two storages hold the same dataflows.
  abbrev pub Agree : S → T → Type 0
  Agree s t = (id : ResourceId) → a.get id s ≡ b.get id t

  Agree-answer :
      (r : Request) (s : S) (t : T)
      → Agree s t
      → (answer a r s).1 ≡ ok tt
      → (answer b r t).1 ≡ ok tt
      → Agree (answer a r s).0 (answer b r t).0
  Agree-answer (save d) s t h p q id =
      a.get-save d s id p
      ∙ ap (λ o. if same id (get_job_id d) then Option.some d else o) (h id)
      ∙ sym (b.get-save d t id q)
  Agree-answer (delete job_id) s t h p q id =
      a.get-delete job_id s id p
      ∙ ap (λ o. if same id job_id then none else o) (h id)
      ∙ sym (b.get-delete job_id t id q)

  Agree-after :
      (rs : List Request) (s : S) (t : T)
      → Agree s t
      → Succeeds a rs s
      → Succeeds b rs t
      → Agree (after a rs s) (after b rs t)
  unfolding after
  Agree-after [] s t h p q = h
  Agree-after (r ∷ rs) s t h p q = Agree-after rs _ _ (Agree-answer r s t h p.0 q.0) p.1 q.1

memory-Succeeds : (rs : List Request) (m : MemDataflowStorage) → Succeeds memory rs m
memory-Succeeds [] m = tt
memory-Succeeds (save d ∷ rs) m = (refl, memory-Succeeds rs _)
memory-Succeeds (delete id ∷ rs) m = (refl, memory-Succeeds rs _)

-- The storage on disk refines the one in memory: from states that hold the same dataflows, and after
-- any requests that the one on disk answers without an error, each finds what the other finds.
pub local-refines-memory :
    {K V S : Type 0} ⦃o : Ord K⦄ (sled : Sled K V S) (prost : Prost K V) (rs : List Request) (s : S)
    (m : MemDataflowStorage)
    → Agree (local sled prost) memory s m
    → Succeeds (local sled prost) rs s
    → Agree (local sled prost) memory (after (local sled prost) rs s) (after memory rs m)
local-refines-memory sled prost rs s m h p =
    Agree-after (local sled prost) memory rs s m h p (memory-Succeeds rs m)
