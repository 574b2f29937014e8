-- ===== src/Coordinator.antt =====
-- The coordinator: src/lightflus-core/src/coordinator. Its calls to the task managers are answered
-- by a parameter, and the calls made are recorded.
mod Defs
mod Manager
pub mod Queries
pub mod Storage
pub mod Starting
mod Division
pub mod Deploy
pub mod Termination
pub use Defs.{
  MemDataflowStorage, Scheduler, SubdataflowExecution, VertexExecution, CreateSubDataflowRequest,
  Call, RpcStatus, Network, Step, TaskDeploymentException, new_scheduler, request, execution_on,
  invalid_worker_endpoint, rpc_error,
}
pub use Manager.{
  JobManager, Dispatcher, DispatcherException, Refusal, deployment_error, dispatcher_error,
}
unfoldable pub use Defs.{
  save, get, may_exists, delete, starts, execute, execute_all, terminate_executions,
}
unfoldable pub use Manager.{
  new_manager, deploy_dataflow, dispatch, terminate_dataflow, create_dataflow,
}
