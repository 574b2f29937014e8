-- ===== src/Coordinator/Storage.antt =====
-- The storages of dataflows behind one interface: the trait DataflowStorage, LocalDataflowStorage and
-- MemDataflowStorage of src/lightflus-core/src/coordinator/storage.rs.
use lightflus.Base.{
  ℕ, Bool, true, false, Option, none, some, List, [], ◌∷◌, ◌≡◌, refl, ap, ◌∙◌, sym, ◌↔◌, Result, ok,
  err, is_some, and_then, unwrap_or, map_option, if◌then◌else◌, same, same_iff, Ord, arith,
  Option-cases, inl, inr,
}
use lightflus.Base.BTreeMap
use lightflus.Proto.Ids.{ResourceId, resource_id_ord, default_resource_id}
use lightflus.Proto.Graph.{Dataflow, get_job_id}
use lightflus.Coordinator.Defs
use lightflus.Coordinator.Defs.{MemDataflowStorage}
pub mod Agreement

pub data StorageError : Type 0 where
  save_dataflow_failed delete_dataflow_failed : StorageError

-- The trait DataflowStorage, with what its users rely on: what was saved is found under its job's
-- id until it is deleted, and nothing else changes.
pub record DataflowStorage (S : Type 0) : Type 0 where
  pub save : Dataflow → S → S × Result StorageError (Unit {0})
  pub get : ResourceId → S → Option Dataflow
  pub may_exists : ResourceId → S → Bool
  pub delete : ResourceId → S → S × Result StorageError (Unit {0})
  pub get-save :
      (d : Dataflow) (s : S) (id : ResourceId)
      → (save d s).1 ≡ ok tt
      → get id (save d s).0 ≡ (if same id (get_job_id d) then some d else get id s)
  pub get-delete :
      (job_id : ResourceId) (s : S) (id : ResourceId)
      → (delete job_id s).1 ≡ ok tt
      → get id (delete job_id s).0 ≡ (if same id job_id then none else get id s)
  pub get-exists :
      (id : ResourceId) (s : S) (d : Dataflow) → get id s ≡ some d → may_exists id s ≡ true

pub mem_get-exists :
    (id : ResourceId) (s : MemDataflowStorage) (d : Dataflow)
    → Defs.get id s ≡ some d
    → Defs.may_exists id s ≡ true
unfolding Defs.get Defs.may_exists
mem_get-exists id s d h = rw h refl

pub mem_get-save :
    (d : Dataflow) (s : MemDataflowStorage) (id : ResourceId)
    → Defs.get id (Defs.save d s) ≡ (if same id (get_job_id d) then some d else Defs.get id s)
unfolding Defs.get Defs.save
mem_get-save d s id = BTreeMap.get-insert (get_job_id d) id d s.cache

pub mem_get-delete :
    (job_id : ResourceId) (s : MemDataflowStorage) (id : ResourceId)
    → Defs.get id (Defs.delete job_id s) ≡ (if same id job_id then none else Defs.get id s)
unfolding Defs.get Defs.delete
mem_get-delete job_id s id = BTreeMap.get-remove job_id id s.cache

-- MemDataflowStorage, whose operations do not fail
abbrev pub memory : DataflowStorage MemDataflowStorage
memory = record {
  save = λ d s. (Defs.save d s, ok tt);
  get = Defs.get;
  may_exists = Defs.may_exists;
  delete = λ id s. (Defs.delete id s, ok tt);
  get-save = λ d s id h. mem_get-save d s id;
  get-delete = λ job_id s id h. mem_get-delete job_id s id;
  get-exists = mem_get-exists;
}

-- The database sled over buffers of bytes, K for the keys and V for the values: an operation that
-- succeeds has the effect of the operation of a map.
pub record Sled (K V S : Type 0) ⦃o : Ord K⦄ : Type 0 where
  pub insert : K → V → S → S × Result (Unit {0}) (Unit {0})
  pub read : K → S → Result (Unit {0}) (Option V)
  pub contains_key : K → S → Result (Unit {0}) Bool
  pub remove : K → S → S × Result (Unit {0}) (Unit {0})
  pub read-insert :
      (k : K) (v : V) (s : S) (j : K)
      → (insert k v s).1 ≡ ok tt
      → read j (insert k v s).0 ≡ (if same j k then ok (some v) else read j s)
  pub read-remove :
      (k : K) (s : S) (j : K)
      → (remove k s).1 ≡ ok tt
      → read j (remove k s).0 ≡ (if same j k then ok none else read j s)
  pub read-contains : (k : K) (v : V) (s : S) → read k s ≡ ok (some v) → contains_key k s ≡ ok true

-- The encoding of messages by prost: it can be read back, and the default message is the empty buffer.
pub record Prost (K V : Type 0) : Type 0 where
  pub empty : K
  pub encode_id : ResourceId → K
  pub encode : Dataflow → V
  pub from_pb_slice : V → Option Dataflow
  pub encode_id-default : encode_id default_resource_id ≡ empty
  pub encode_id-injective : (a b : ResourceId) → encode_id a ≡ encode_id b → a ≡ b
  pub from-encode : (d : Dataflow) → from_pb_slice (encode d) ≡ some d

abbrev answer {ℓ} :
    {S : Type ℓ}
    → StorageError
    → S × Result (Unit {0}) (Unit {0})
    → S × Result StorageError (Unit {0})
answer e (s, ok _) = (s, ok tt)
answer e (s, err _) = (s, err e)

module _ {K V S : Type 0} ⦃o : Ord K⦄ (sled : Sled K V S) (prost : Prost K V) where
  open sled use {insert, read, contains_key, remove, read-insert, read-remove, read-contains}
  open prost use {
    empty, encode_id, encode, from_pb_slice, encode_id-default, encode_id-injective, from-encode,
  }

  -- LocalDataflowStorage::save
  unfoldable pub local_save : Dataflow → S → S × Result StorageError (Unit {0})
  local_save d s =
      answer save_dataflow_failed
        (insert (unwrap_or (map_option encode_id d.job_id) empty) (encode d) s)

  abbrev decoded : Result (Unit {0}) (Option V) → Option Dataflow
  decoded (ok buf) = and_then buf from_pb_slice
  decoded (err _) = none

  -- LocalDataflowStorage::get
  unfoldable pub local_get : ResourceId → S → Option Dataflow
  local_get job_id s = decoded (read (encode_id job_id) s)

  abbrev or_false : Result (Unit {0}) Bool → Bool
  or_false (ok b) = b
  or_false (err _) = false

  -- LocalDataflowStorage::may_exists
  unfoldable pub local_may_exists : ResourceId → S → Bool
  local_may_exists job_id s = or_false (contains_key (encode_id job_id) s)

  -- LocalDataflowStorage::delete
  unfoldable pub local_delete : ResourceId → S → S × Result StorageError (Unit {0})
  local_delete job_id s = answer delete_dataflow_failed (remove (encode_id job_id) s)

  key_of :
      (d : Dataflow) → unwrap_or (map_option encode_id d.job_id) empty ≡ encode_id (get_job_id d)
  unfolding get_job_id
  key_of d = elim (Option-cases d.job_id) [
    | inl e ↦ rw (e, encode_id-default) refl
    | inr (id, e) ↦ rw e refl
  ]

  same-encode : (a b : ResourceId) → same (encode_id a) (encode_id b) ≡ same a b
  same-encode a b =
      grind (arith, same_iff (encode_id a) (encode_id b), same_iff a b, encode_id-injective a b)

  answer-ok :
      (e : StorageError) (r : S × Result (Unit {0}) (Unit {0}))
      → (answer e r).1 ≡ ok tt
      → (r.1 ≡ ok tt) × ((answer e r).0 ≡ r.0)
  answer-ok e (s, ok tt) h = (refl, refl)
  answer-ok e (s, err u) h = cc

  decoded_if :
      (b : Bool) (r r' : Result (Unit {0}) (Option V))
      → decoded (if b then r else r') ≡ (if b then decoded r else decoded r')
  decoded_if true r r' = refl
  decoded_if false r r' = refl

  pub local_get-save :
      (d : Dataflow) (s : S) (id : ResourceId)
      → (local_save d s).1 ≡ ok tt
      → local_get id (local_save d s).0
        ≡ (if same id (get_job_id d) then some d else local_get id s)
  unfolding local_save local_get
  local_get-save d s id h =
      let (done, state) = answer-ok save_dataflow_failed _ h in
      ap (λ s'. decoded (read (encode_id id) s')) state
      ∙ ap decoded (read-insert _ (encode d) s (encode_id id) done)
      ∙ rw (key_of d, same-encode id (get_job_id d))
          (decoded_if (same id (get_job_id d)) _ _ ∙ rw (from-encode d) refl)

  pub local_get-delete :
      (job_id : ResourceId) (s : S) (id : ResourceId)
      → (local_delete job_id s).1 ≡ ok tt
      → local_get id (local_delete job_id s).0 ≡ (if same id job_id then none else local_get id s)
  unfolding local_delete local_get
  local_get-delete job_id s id h =
      let (done, state) = answer-ok delete_dataflow_failed _ h in
      ap (λ s'. decoded (read (encode_id id) s')) state
      ∙ ap decoded (read-remove (encode_id job_id) s (encode_id id) done)
      ∙ rw (same-encode id job_id) (decoded_if (same id job_id) _ _)

  found-some :
      (r : Result (Unit {0}) (Option V)) (d : Dataflow)
      → decoded r ≡ some d
      → (v : V) × (r ≡ ok (some v))
  found-some (ok none) d h = cc
  found-some (ok (some v)) d h = (v, refl)
  found-some (err e) d h = cc

  pub local_get-exists :
      (id : ResourceId) (s : S) (d : Dataflow)
      → local_get id s ≡ some d
      → local_may_exists id s ≡ true
  unfolding local_get local_may_exists
  local_get-exists id s d h =
      let (v, stored) = found-some (read (encode_id id) s) d h in
      rw (read-contains (encode_id id) v s stored) refl

  -- LocalDataflowStorage
  unfoldable pub local : DataflowStorage S
  local = record {
    save = local_save;
    get = local_get;
    may_exists = local_may_exists;
    delete = local_delete;
    get-save = local_get-save;
    get-delete = local_get-delete;
    get-exists = local_get-exists;
  }
