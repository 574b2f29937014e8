-- ===== src/Gateway.antt =====
-- The clients of remote nodes: src/common/src/net/gateway.rs.
mod Api
pub mod TaskManager
pub mod Coordinator
pub mod Calls
pub use Api.{RpcApi}
unfoldable pub use Api.{with_connection_timeout, connect_with_timeout, client_of, calls}
