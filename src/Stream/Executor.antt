-- ===== src/Stream/Executor.antt =====
-- StreamExecutor of src/stream/src/task.rs at work: process, the sinks, and the loop of `poll`.
use lightflus.Base.{
  ℕ, Bool, Option, none, some, List, [], ◌∷◌, ◌++◌, map, Result, ok, err, is_some, if◌then◌else◌,
}
use lightflus.Base.BTreeMap.{BTreeMap}
use lightflus.Proto.Ids.{ResourceId, ExecutorInfo, ExecutorStatus}
use lightflus.Proto.Graph.{OperatorInfo}
use lightflus.Proto.Event.{
  KeyedDataEvent, KeyedEventSet, LocalEvent, terminate, keyed_data_stream_event,
}
use lightflus.Types.{Formats, Decoded, decoded, map_decoded}
use lightflus.Worker.{StreamExecutor, OutEdge}
use lightflus.Stream.Defs.{Engine, MemoryStateManager, memory}
use lightflus.Types.{bind}
use lightflus.Stream.Operators.{ExecutionError, operator_unimplemented, operator_of, process_event}

-- What is written to an edge or to a sink, with the id it goes to; whether it arrives is up to the
-- receiver, and an error is only logged.
pub data Delivery : Type 0 where
  write : ℕ → OutEdge → LocalEvent → Delivery
  batch_write : ℕ → OutEdge → Option ResourceId → ℕ → List LocalEvent → Delivery
  sink : ℕ → LocalEvent → Delivery
  batch_sink : ℕ → KeyedEventSet → Delivery

abbrev pub addressed : ℕ → KeyedDataEvent → LocalEvent
addressed id event = keyed_data_stream_event (record event { to_operator_id = id })

abbrev writes : KeyedDataEvent → BTreeMap ℕ OutEdge → List Delivery
writes event [] = []
writes event ((id, edge) ∷ edges) = write id edge (addressed id event) ∷ writes event edges

-- the id of a sink is the id of its operator
abbrev sinks : KeyedDataEvent → List (ResourceId × OperatorInfo) → List Delivery
sinks event [] = []
sinks event ((job_id, info) ∷ rest) =
    sink info.operator_id (addressed info.operator_id event) ∷ sinks event rest

-- StreamExecutor::sink_event_to_external_and_local
unfoldable pub sink_event : StreamExecutor → KeyedDataEvent → List Delivery
sink_event executor event = writes event executor.out_edges ++ sinks event executor.external_sinks

abbrev pub batch_writes : ℕ → KeyedEventSet → BTreeMap ℕ OutEdge → List Delivery
batch_writes from event_set [] = []
batch_writes from event_set ((id, edge) ∷ edges) =
    batch_write id edge event_set.job_id from (map (addressed id) event_set.events)
    ∷ batch_writes from event_set edges

abbrev pub batch_sinks : KeyedEventSet → List (ResourceId × OperatorInfo) → List Delivery
batch_sinks event_set [] = []
batch_sinks event_set ((job_id, info) ∷ rest) =
    batch_sink info.operator_id (record event_set { to_operator_id = info.operator_id })
    ∷ batch_sinks event_set rest

-- StreamExecutor::sink_event_set_to_external_and_local
unfoldable pub sink_event_set : StreamExecutor → KeyedEventSet → List Delivery
sink_event_set executor event_set =
    batch_writes executor.executor_id event_set executor.out_edges
    ++ batch_sinks event_set executor.external_sinks

-- StateMangerType
pub data StateManagerType : Type 0 where
  key_value memory_only : StateManagerType

-- state::new_state_mgt: the state in a new manager, where `stored` is what the job's database
-- holds
unfoldable pub new_state_mgt : StateManagerType → MemoryStateManager → MemoryStateManager
new_state_mgt key_value stored = stored
new_state_mgt memory_only stored = record { cache = [] }

-- what the job's database holds after an event that ends with the given state
abbrev pub kept : StateManagerType → MemoryStateManager → MemoryStateManager → MemoryStateManager
kept key_value stored left = left
kept memory_only stored left = stored

abbrev pub answered : ℕ → KeyedDataEvent → List KeyedDataEvent → KeyedEventSet
answered executor_id event events = record {
  events = events;
  job_id = event.job_id;
  to_operator_id = event.to_operator_id;
  from_operator_id = executor_id;
}

abbrev pub passed_on : StreamExecutor → KeyedDataEvent → KeyedEventSet
passed_on executor event = record {
  events = event ∷ [];
  job_id = some executor.job_id;
  to_operator_id = executor.executor_id;
  from_operator_id = executor.executor_id;
}

abbrev pub deliveries :
    StreamExecutor → KeyedDataEvent → Result ExecutionError (List KeyedDataEvent) → List Delivery
deliveries executor event (ok events) =
    sink_event_set executor (answered executor.executor_id event events)
deliveries executor event (err (operator_unimplemented id)) =
    sink_event_set executor (passed_on executor event)

-- What `poll_next` answers, and how a call of `poll` ends: `looping` where it has not returned when
-- the answers are used up.
pub data Poll : Type 0 where
  pending : Poll
  ready : Option LocalEvent → Poll

pub data Verdict : Type 0 where
  waiting finished looping : Verdict

-- StreamExecutor::poll_next, from what the in-edge or the source answers
unfoldable pub poll_next : StreamExecutor → Poll → Poll → Poll
poll_next executor from_edge from_source =
    if is_some executor.in_edge
    then from_edge
    else if is_some executor.source
    then from_source
    else pending

abbrev pub Ran : Type 0
Ran = Verdict × List Delivery × MemoryStateManager

abbrev pub after : List Delivery → Ran → Ran
after first (verdict, rest, stored) = (verdict, first ++ rest, stored)

-- An engine is made for every event, and starts in the state `boot`.
module _ (f : Formats) {J : Type 0} (engine : Engine J) (boot : J) (type : StateManagerType) where
  abbrev run_operator :
      StreamExecutor
      → KeyedDataEvent
      → MemoryStateManager
      → Decoded (List Delivery × MemoryStateManager)
  run_operator executor event stored =
      map_decoded (λ done. (deliveries executor event done.0, kept type stored done.1))
        (process_event f engine memory (operator_of executor.executor_id executor.operator_details)
          event (new_state_mgt type stored) boot)

  -- StreamExecutor::process
  unfoldable pub process :
      StreamExecutor
      → KeyedDataEvent
      → MemoryStateManager
      → Decoded (List Delivery × MemoryStateManager)
  process executor event stored =
      if is_some executor.source
      then decoded (sink_event executor event, stored)
      else run_operator executor event stored

  -- the loop of `poll`, over the answers of `poll_next`
  unfoldable pub run : StreamExecutor → List Poll → MemoryStateManager → Decoded Ran
  run executor [] stored = decoded (looping, [], stored)
  run executor (pending ∷ polls) stored = decoded (waiting, [], stored)
  run executor (ready none ∷ polls) stored =
      let rest = run executor polls stored in
      if is_some executor.source then decoded (waiting, [], stored) else rest
  run executor (ready (some (terminate job_id to event_time)) ∷ polls) stored =
      decoded (finished, [], stored)
  run executor (ready (some (keyed_data_stream_event event)) ∷ polls) stored =
      bind (process executor event stored) (λ done.
        let rest = run executor polls done.1 in
        if is_some executor.source
        then decoded (waiting, done.0, done.1)
        else map_decoded (after done.0) rest)

  -- Future::poll of StreamExecutor: it waits where the lock on the states is taken
  unfoldable pub poll :
      Bool
      → StreamExecutor
      → ExecutorInfo
      → List Poll
      → MemoryStateManager
      → Decoded (ExecutorInfo × Ran)
  poll lock_free executor info polls stored =
      if lock_free
      then map_decoded (λ ran. (record info { status = ExecutorStatus.running }, ran))
          (run executor polls stored)
      else decoded (info, (waiting, [], stored))
