-- ===== src/Errors.antt =====
-- The errors between components: src/common/src/err.rs and src/lightflus-core/src/errors.
mod Rpc
mod Reporting
pub mod Parsing
pub use Rpc.{Code, StatusApi, BizError, BizJson, RpcError}
unfoldable pub use Rpc.{into_tonic_status, parse}
pub use Reporting.{Debug, ApiError, ErrorCode}
unfoldable pub use Reporting.{
  rpc_error_of, into_grpc_status, from_status, from_error, error_code_of,
}
