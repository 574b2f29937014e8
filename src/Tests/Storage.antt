-- ===== src/Tests/Storage.antt =====
-- The storage on disk over a database in memory, used beside the storage in memory.
use lightflus.Base.{
  true, none, some, [], ◌∷◌, List, ◌≡◌, refl, ok, Result, is_some, same, if◌then◌else◌, arith,
}
use lightflus.Base.BTreeMap
use lightflus.Base.BTreeMap.{BTreeMap}
use lightflus.Proto.Ids.{ResourceId, resource_id_ord, default_resource_id}
use lightflus.Proto.Graph.{Dataflow, default_dataflow}
use lightflus.Coordinator.{MemDataflowStorage, get}
use lightflus.Coordinator.Storage.{Sled, Prost, local, memory, local_save, local_get, local_delete}
use lightflus.Coordinator.Storage.Agreement.{Request, after, Agree, Succeeds, local-refines-memory}
use lightflus.Tests.Fixtures.{job}

abbrev Stored : Type 0
Stored = BTreeMap ResourceId Dataflow

abbrev answered : {A : Type 0} → A → Result (Unit {0}) A
answered a = ok a

inner : {A : Type 0} {a b : A} → answered a ≡ answered b → a ≡ b
inner e = cc

found :
    (k : ResourceId) (v : Dataflow) (s : Stored)
    → answered (BTreeMap.get k s) ≡ ok (some v)
    → answered (is_some (BTreeMap.get k s)) ≡ ok true
found k v s h = rw (inner h) refl

after_insert :
    (k : ResourceId) (v : Dataflow) (s : Stored) (j : ResourceId)
    → answered (BTreeMap.get j (BTreeMap.insert k v s))
      ≡ (if same j k then ok (some v) else ok (BTreeMap.get j s))
after_insert k v s j = ground (arith, BTreeMap.get-insert k j v s)

after_remove :
    (k : ResourceId) (s : Stored) (j : ResourceId)
    → answered (BTreeMap.get j (BTreeMap.remove k s))
      ≡ (if same j k then ok none else ok (BTreeMap.get j s))
after_remove k s j = ground (arith, BTreeMap.get-remove k j s)

abbrev in_memory : Sled ResourceId Dataflow Stored
in_memory = record {
  insert = λ k v s. (BTreeMap.insert k v s, ok tt);
  read = λ k s. ok (BTreeMap.get k s);
  contains_key = λ k s. ok (is_some (BTreeMap.get k s));
  remove = λ k s. (BTreeMap.remove k s, ok tt);
  read-insert = λ k v s j h. after_insert k v s j;
  read-remove = λ k s j h. after_remove k s j;
  read-contains = found;
}

abbrev verbatim : Prost ResourceId Dataflow
verbatim = record {
  empty = default_resource_id;
  encode_id = λ id. id;
  encode = λ d. d;
  from_pb_slice = λ d. some d;
  encode_id-default = refl;
  encode_id-injective = λ a b e. e;
  from-encode = λ d. refl;
}

abbrev named : Dataflow
named = record default_dataflow { job_id = some job }

abbrev requests : List Request
requests = Request.save named ∷ Request.save default_dataflow ∷ Request.delete job ∷ []

abbrev nothing_stored : MemDataflowStorage
nothing_stored = record { cache = [] }

agreed : Agree (local in_memory verbatim) memory [] nothing_stored
unfolding local local_get get BTreeMap.get
agreed id = refl

succeeded : Succeeds (local in_memory verbatim) requests []
unfolding local local_save local_delete
succeeded = (refl, (refl, (refl, tt)))

local-refines-memory_example :
    Agree
      (local in_memory verbatim)
      memory
      (after (local in_memory verbatim) requests [])
      (after memory requests nothing_stored)
local-refines-memory_example =
    local-refines-memory in_memory verbatim requests [] nothing_stored agreed succeeded
