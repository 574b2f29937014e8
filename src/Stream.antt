-- ===== src/Stream.antt =====
-- The operators of a stream: src/stream/src/dataflow.rs and state.rs. The JavaScript engine is a
-- parameter with a state of its own, which every call passes on.
mod Defs
mod Operators
mod Executor
pub mod Reduce
pub mod Grouping
pub mod Progress
pub use Defs.{Engine, StateManager, memory, MemoryStateManager}
unfoldable pub use Defs.{get_operator_state_key, get_keyed_state, set_key_state}
pub use Operators.{ExecutionError, operator_unimplemented, OperatorImpl, Groups, state_key}
unfoldable pub use Operators.{
  call_map, call_filter, call_flat_map, call_key_by, call_reduce, process_event, operator_of, each,
  keyed, fold_entries, reduce_entries, accumulate, group_value, group_values,
}
pub use Executor.{
  Delivery, Poll, pending, ready, Verdict, waiting, finished, looping, StateManagerType, key_value,
  memory_only, after, Ran,
}
unfoldable pub use Executor.{
  process, run, poll, sink_event, sink_event_set, new_state_mgt, poll_next,
}
