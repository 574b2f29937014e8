-- ===== src/Worker.antt =====
-- The task manager: src/lightflus-core/src/taskmanager (taskworker.rs and rpc.rs), and the tasks,
-- edges and executors of src/stream/src/task.rs that a worker is made of. The workers and tasks
-- are states that the handlers pass on; a panic is a missing result.
mod Defs
mod Build
mod Service
pub mod Builders
pub mod Sinks
mod Tasks
pub mod Connecting
pub mod Wiring
pub mod Handling
pub use Defs.{Host, EdgeBuilder, OutEdge, InEdge, StreamExecutor, Task, Channels}
pub use Build.{
  TaskWorker, TaskWorkerError, dataflow_validate_error, channel_disconnected, channel_empty,
  execution_error, event_send_failure,
}
pub use Service.{TaskManager, Status, Write}
unfoldable pub use Build.{build}
unfoldable pub use Defs.{external_sink, is_remote_operator}
unfoldable pub use Service.{create_sub_dataflow, manager_heartbeat, get_sub_dataflow}
