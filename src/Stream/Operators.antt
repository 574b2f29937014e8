-- ===== src/Stream/Operators.antt =====
-- The operators: call_fn of MapOperator, FilterOperator, FlatMapOperator, KeyByOperator and
-- ReduceOperator, and process_event of OperatorImpl (src/stream/src/dataflow.rs).
use lightflus.Base.{
  ℕ, Bool, false, Option, some, Ordering, List, [], ◌∷◌, ◌++◌, Result, ok, err, unwrap_or, is_empty,
  if◌then◌else◌, map, Str,
}
use lightflus.Proto.Graph.{Details}
use lightflus.Proto.Event.{Entry, KeyedDataEvent, default_event}
use lightflus.Types.{
  TypedValue, Values, Formats, Decoded, decoded, map_decoded, from_vec, from_slice, get_data, cmp,
  invalid, boolean, array, nil, cons,
}
use lightflus.Stream.Defs.{Engine, StateManager, get_operator_state_key}
use lightflus.Types.{bind, to_entry}
use lightflus.Proto.Event.{get_key}

pub data ExecutionError : Type 0 where
  operator_unimplemented : ℕ → ExecutionError

abbrev pub reduce : Str
reduce = 114 ∷ 101 ∷ 100 ∷ 117 ∷ 99 ∷ 101 ∷ []

module _ (f : Formats) {J : Type 0} (engine : Engine J) where
  open engine use {call_one_arg, call_two_args}

  -- The entries of an event one after the other: an entry is decoded and the engine called, and
  -- `step` answers with the entries that come of it.
  unfoldable pub each :
      (List ℕ → Decoded TypedValue)
      → (Entry → Option TypedValue → List Entry)
      → List Entry
      → J
      → Decoded (List Entry × J)
  each decode step [] j = decoded ([], j)
  each decode step (e ∷ es) j = bind (decode e.value) (λ v.
      let (answer, j') = call_one_arg v j in
      bind (each decode step es j') (λ rest. decoded (step e answer ++ rest.0, rest.1)))

  abbrev with_data : KeyedDataEvent → Decoded (List Entry × J) → Decoded (List KeyedDataEvent × J)
  with_data event r = map_decoded (λ done. (record event { «data» = done.0 } ∷ [], done.1)) r

  abbrev pub map_step : Entry → Option TypedValue → List Entry
  map_step e answer = to_entry f (unwrap_or answer invalid) ∷ []

  -- the operator of the macro stateless_operator_impl, MapOperator::call_fn
  unfoldable pub call_map : ℕ → KeyedDataEvent → J → Decoded (List KeyedDataEvent × J)
  unfolding each from_vec
  call_map operator_id event j =
      with_data (record event { from_operator_id = operator_id })
        (each (from_vec f) map_step event.«data» j)

  abbrev is_flag : TypedValue → Bool
  is_flag (boolean flag) = flag
  is_flag _ = false

  abbrev pub filter_step : Entry → Option TypedValue → List Entry
  filter_step e answer = if is_flag (unwrap_or answer (boolean false)) then e ∷ [] else []

  -- FilterOperator::call_fn
  unfoldable pub call_filter : KeyedDataEvent → J → Decoded (List KeyedDataEvent × J)
  unfolding each from_slice
  call_filter event j = with_data event (each (from_slice f) filter_step event.«data» j)

  abbrev entries_of : Values → List Entry
  entries_of nil = []
  entries_of (cons v vs) = to_entry f v ∷ entries_of vs

  abbrev items : TypedValue → List Entry
  items (array vs) = entries_of vs
  items _ = []

  abbrev pub flat_map_step : Entry → Option TypedValue → List Entry
  flat_map_step e answer = items (unwrap_or answer (array nil))

  -- FlatMapOperator::call_fn
  unfoldable pub call_flat_map : KeyedDataEvent → J → Decoded (List KeyedDataEvent × J)
  unfolding each from_slice
  call_flat_map event j = with_data event (each (from_slice f) flat_map_step event.«data» j)

  -- The keys that the engine gives the entries, with the entries encoded again.
  unfoldable pub keyed : List Entry → J → Decoded (List (TypedValue × Entry) × J)
  unfolding from_vec
  keyed [] j = decoded ([], j)
  keyed (e ∷ es) j = bind (from_vec f e.value) (λ v.
      let (answer, j') = call_one_arg v j in
      bind (keyed es j')
        (λ rest. decoded ((unwrap_or answer invalid, to_entry f v) ∷ rest.0, rest.1)))

  -- the event of a key that was not there before, with its first value
  abbrev pub first_event : ℕ → TypedValue → Entry → KeyedDataEvent
  first_event operator_id key value = record default_event {
    from_operator_id = operator_id;
    key = some (to_entry f key);
    «data» = value ∷ [];
  }

  abbrev pub push_value : Entry → KeyedDataEvent → KeyedDataEvent
  push_value value event = record event { «data» = event.«data» ++ value ∷ [] }

  abbrev pub Groups : Type 0
  Groups = List (TypedValue × KeyedDataEvent)

  abbrev pub group_at :
      Ordering → ℕ → TypedValue → Entry → TypedValue → KeyedDataEvent → Groups → Groups → Groups
  group_at Ordering.eq operator_id key value k event groups rest =
      (k, push_value value event) ∷ groups
  group_at Ordering.lt operator_id key value k event groups rest =
      (key, first_event operator_id key value) ∷ (k, event) ∷ groups
  group_at Ordering.gt operator_id key value k event groups rest = (k, event) ∷ rest

  -- One value goes into a BTreeMap ordered by TypedValue::cmp, which is searched from the least
  -- key on, as std searches a map of one node.
  unfoldable pub group_value : ℕ → TypedValue → Entry → Groups → Groups
  group_value operator_id key value [] = (key, first_event operator_id key value) ∷ []
  group_value operator_id key value ((k, event) ∷ groups) =
      group_at (cmp key k) operator_id key value k event groups
        (group_value operator_id key value groups)

  unfoldable pub group_values : ℕ → List (TypedValue × Entry) → Groups → Groups
  unfolding group_value
  group_values operator_id [] groups = groups
  group_values operator_id ((key, value) ∷ pairs) groups =
      group_values operator_id pairs (group_value operator_id key value groups)

  -- KeyByOperator::call_fn
  unfoldable pub call_key_by : ℕ → KeyedDataEvent → J → Decoded (List KeyedDataEvent × J)
  unfolding keyed group_values
  call_key_by operator_id event j =
      map_decoded (λ done. (map (λ g. g.1) (group_values operator_id done.0 []), done.1))
        (keyed event.«data» j)

  -- `fold` over entries, each decoded and given to the engine with the value so far
  unfoldable pub fold_entries :
      (List ℕ → Decoded TypedValue) → TypedValue → List Entry → J → Decoded (TypedValue × J)
  fold_entries decode accum [] j = decoded (accum, j)
  fold_entries decode accum (e ∷ es) j = bind (decode e.value) (λ v.
      let (answer, j') = call_two_args accum v j in
      fold_entries decode (unwrap_or answer invalid) es j')

  -- Iterator::reduce, with `unwrap_or(TypedValue::Invalid)`
  unfoldable pub reduce_entries : List Entry → J → Decoded (TypedValue × J)
  unfolding fold_entries from_vec
  reduce_entries [] j = decoded (invalid, j)
  reduce_entries (e ∷ es) j = bind (from_vec f e.value) (λ v. fold_entries (from_vec f) v es j)

  module _ {S : Type 0} (manager : StateManager S) where
    open manager use {get, set}

    -- the accumulator, from the state of the key
    unfoldable pub accumulate : List ℕ → List Entry → J → Decoded (TypedValue × J)
    unfolding reduce_entries fold_entries from_vec from_slice
    accumulate state entries j =
        if is_empty state
        then reduce_entries entries j
        else bind (from_vec f state) (λ accum. fold_entries (from_slice f) accum entries j)

    abbrev pub state_key : ℕ → KeyedDataEvent → List ℕ
    unfolding get_operator_state_key
    state_key operator_id event = get_operator_state_key operator_id reduce (get_key event).value

    -- ReduceOperator::call_fn
    unfoldable pub call_reduce : ℕ → KeyedDataEvent → S → J → Decoded (List KeyedDataEvent × S × J)
    unfolding accumulate state_key
    call_reduce operator_id event s j =
        let key = state_key operator_id event in
        map_decoded
          (λ done. (
            record event { «data» = to_entry f done.0 ∷ [] } ∷ [],
            set key (get_data f done.0) s,
            done.1,
          ))
          (accumulate (get key s) event.«data» j)

-- OperatorImpl, without the state manager that its operators own
pub data OperatorImpl : Type 0 where
  map_operator filter_operator key_by_operator flat_map_operator reduce_operator : ℕ → OperatorImpl
  empty_operator : ℕ → OperatorImpl

-- the operator that Execution::new chooses
unfoldable pub operator_of : ℕ → Details → OperatorImpl
operator_of id (Details.mapper m) = map_operator id
operator_of id (Details.filter p) = filter_operator id
operator_of id (Details.key_by k) = key_by_operator id
operator_of id (Details.reducer r) = reduce_operator id
operator_of id (Details.flat_map m) = flat_map_operator id
operator_of id _ = empty_operator id

module _ (f : Formats) {J S : Type 0} (engine : Engine J) (manager : StateManager S) where
  abbrev stateless :
      S
      → Decoded (List KeyedDataEvent × J)
      → Decoded (Result ExecutionError (List KeyedDataEvent) × S × J)
  stateless s r = map_decoded (λ done. (ok done.0, s, done.1)) r

  -- OperatorImpl::process_event
  unfoldable pub process_event :
      OperatorImpl
      → KeyedDataEvent
      → S
      → J
      → Decoded (Result ExecutionError (List KeyedDataEvent) × S × J)
  unfolding call_map call_filter call_key_by call_flat_map call_reduce
  process_event (map_operator id) event s j = stateless s (call_map f engine id event j)
  process_event (filter_operator id) event s j = stateless s (call_filter f engine event j)
  process_event (key_by_operator id) event s j = stateless s (call_key_by f engine id event j)
  process_event (flat_map_operator id) event s j = stateless s (call_flat_map f engine event j)
  process_event (reduce_operator id) event s j =
      map_decoded (λ done. (ok done.0, done.1, done.2)) (call_reduce f engine manager id event s j)
  process_event (empty_operator id) event s j = decoded (err (operator_unimplemented id), s, j)
