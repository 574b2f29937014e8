-- ===== src/Stream/Progress.antt =====
-- The loop of StreamExecutor::poll and the state that outlives an event (src/stream/src/task.rs).
use lightflus.Base.{
  false, some, List, [], ◌∷◌, ◌++◌, ◌≡◌, refl, sym, ap, ◌∙◌, Result, is_some, map, Bool-cases, inl,
  inr,
}
use mathlib.Core.List.{append_assoc}
use lightflus.Proto.Event.{KeyedDataEvent, keyed_data_stream_event}
use lightflus.Types.{Formats, Decoded, decoded, panicked, out_of_fuel, map_decoded}
use lightflus.Worker.{StreamExecutor}
use lightflus.Stream.Defs.{Engine, MemoryStateManager}
use lightflus.Types.{bind, bind_assoc, bind_cong}
use lightflus.Stream.Operators.{ExecutionError}
use lightflus.Stream.Executor.{
  Delivery, deliveries, kept, StateManagerType, memory_only, new_state_mgt, process, run, Poll,
  ready, Ran, after,
}

module _ (f : Formats) {J : Type 0} (engine : Engine J) (boot : J) (type : StateManagerType) where
  -- What the executor does with events one after the other.
  unfoldable pub process_all :
      StreamExecutor
      → List KeyedDataEvent
      → MemoryStateManager
      → Decoded (List Delivery × MemoryStateManager)
  process_all executor [] stored = decoded ([], stored)
  process_all executor (event ∷ events) stored =
      bind (process f engine boot type executor event stored) (λ done.
        map_decoded (λ rest. (done.0 ++ rest.0, rest.1)) (process_all executor events done.1))

  abbrev pub arriving : List KeyedDataEvent → List Poll
  arriving events = map (λ event. ready (some (keyed_data_stream_event event))) events

  abbrev and_then_run :
      StreamExecutor → List Poll → Decoded (List Delivery × MemoryStateManager) → Decoded Ran
  and_then_run executor polls r =
      bind r (λ done. map_decoded (after done.0) (run f engine boot type executor polls done.1))

  after_nothing : (r : Decoded Ran) → r ≡ map_decoded (after []) r
  after_nothing (decoded ran) = refl
  after_nothing panicked = refl
  after_nothing out_of_fuel = refl

  after_append :
      (first second : List Delivery) (r : Decoded Ran)
      → map_decoded (after first) (map_decoded (after second) r)
        ≡ map_decoded (after (first ++ second)) r
  after_append first second (decoded (verdict, rest, stored)) = simp append_assoc
  after_append first second panicked = refl
  after_append first second out_of_fuel = refl

  after_both :
      (executor : StreamExecutor) (polls : List Poll) (first : List Delivery)
      (r : Decoded (List Delivery × MemoryStateManager))
      → map_decoded (after first) (and_then_run executor polls r)
        ≡ and_then_run executor polls (map_decoded (λ rest. (first ++ rest.0, rest.1)) r)
  after_both executor polls first (decoded done) =
      after_append first done.0 (run f engine boot type executor polls done.1)
  after_both executor polls first panicked = refl
  after_both executor polls first out_of_fuel = refl

  -- An executor that is no source takes all the events that have arrived, one after the other,
  -- before it looks at what comes next.
  pub run-arriving :
      (executor : StreamExecutor) (events : List KeyedDataEvent) (polls : List Poll)
      (stored : MemoryStateManager)
      → is_some executor.source ≡ false
      → run f engine boot type executor (arriving events ++ polls) stored
        ≡ bind
            (process_all executor events stored)
            (λ done. map_decoded (after done.0) (run f engine boot type executor polls done.1))
  unfolding run process_all
  run-arriving executor [] polls stored h = after_nothing _
  run-arriving executor (event ∷ events) polls stored h = rw h (
      bind_cong (process f engine boot type executor event stored) _ _ (λ done.
        ap (map_decoded (after done.0)) (run-arriving executor events polls done.1 h)
        ∙ after_both executor polls done.0 (process_all executor events done.1))
      ∙ sym (bind_assoc (process f engine boot type executor event stored) _ _))

-- what is sent on
abbrev pub sent : Decoded (List Delivery × MemoryStateManager) → Decoded (List Delivery)
sent r = map_decoded (λ done. done.0) r

forgets :
    {J : Type 0} (executor : StreamExecutor) (event : KeyedDataEvent)
    (stored stored' : MemoryStateManager)
    (r : Decoded (Result ExecutionError (List KeyedDataEvent) × MemoryStateManager × J))
    → sent
        (map_decoded (λ done. (deliveries executor event done.0, kept memory_only stored done.1)) r)
      ≡ sent (
          map_decoded
            (λ done. (deliveries executor event done.0, kept memory_only stored' done.1))
            r)
forgets executor event stored stored' (decoded done) = refl
forgets executor event stored stored' panicked = refl
forgets executor event stored stored' out_of_fuel = refl

-- With the state manager in memory, what an executor does with an event does not depend on any
-- event before it: the state that an operator has written is gone.
pub process-memory_only :
    (f : Formats) {J : Type 0} (engine : Engine J) (boot : J) (executor : StreamExecutor)
    (event : KeyedDataEvent) (stored stored' : MemoryStateManager)
    → sent (process f engine boot memory_only executor event stored)
      ≡ sent (process f engine boot memory_only executor event stored')
unfolding process new_state_mgt
process-memory_only f engine boot executor event stored stored' =
    elim (Bool-cases (is_some executor.source)) [
      | inl e ↦ rw e refl
      | inr e ↦ rw e (forgets executor event stored stored' _)
    ]
