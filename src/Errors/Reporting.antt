-- ===== src/Errors/Reporting.antt =====
-- The errors that the task manager, the coordinator and the API server report:
-- src/lightflus-core/src/errors/mod.rs, and the code of a validation error of src/common/src/err.rs.
use Prim.Native.Char.{code}
use Prim.Native.String.{String}
use lightflus.Base.{ℕ, [], ◌∷◌, ◌++◌, Str}
use lightflus.Proto.Ids.{ResourceId, DataflowStatus}
use lightflus.Proto.Validate.{
  DataflowValidateError, operator_info_missing, cyclic_dataflow, operator_detail_missing,
}
use lightflus.Worker.{
  TaskWorkerError, dataflow_validate_error, channel_disconnected, channel_empty, execution_error,
  event_send_failure,
}
use lightflus.Errors.Rpc.{Code, StatusApi, BizJson, RpcError, into_tonic_status}

-- The texts that `{:?}` makes, and the JSON of a validation error.
pub record Debug : Type 0 where
  pub of_validate_error : DataflowValidateError → Str
  pub of_text : Str → Str
  pub of_status : DataflowStatus → Str
  pub of_resource_id : ResourceId → Str
  pub json_of_validate_error : DataflowValidateError → Str

-- The bytes of an ASCII text.
abbrev text : String → Str
text String.[] = []
text (String.◌∷◌ c s) = code c ∷ text s

abbrev pub task_manager_biz_code : ℕ
task_manager_biz_code = 200

abbrev pub coordinator_biz_code : ℕ
coordinator_biz_code = 100

-- proto::common::ErrorCode
pub data ErrorCode : Type 0 where
  unspecified resource_not_found rpc_unauthorized rpc_invalid_argument : ErrorCode
  rpc_permission_denied internal_error dataflow_operator_info_missing : ErrorCode
  cyclic_dataflow_code dataflow_configuration_missing : ErrorCode

-- the errors of channels that From<TryRecvError> reads
pub data TryRecvError : Type 0 where
  empty disconnected : TryRecvError

unfoldable pub from_try_recv : TryRecvError → TaskWorkerError
from_try_recv empty = channel_empty
from_try_recv disconnected = channel_disconnected

-- Error for DataflowValidateError
unfoldable pub error_code_of : DataflowValidateError → ErrorCode
error_code_of (operator_info_missing n) = ErrorCode.dataflow_operator_info_missing
error_code_of cyclic_dataflow = ErrorCode.cyclic_dataflow_code
error_code_of (operator_detail_missing n) = ErrorCode.dataflow_operator_info_missing
error_code_of _ = ErrorCode.dataflow_configuration_missing

pub record ApiError : Type 0 where
  pub api_code : ErrorCode
  pub msg : Str

module _ {T : Type 0} (api : StatusApi T) (json : BizJson) (debug : Debug) where
  open api use {new_status}

  abbrev reported : ℕ → ℕ → Code → Str → RpcError T
  reported biz_code error_code c message = record {
    biz_err = record { biz_code = biz_code; error_code = error_code; message = message };
    status = new_status c message;
  }

  -- taskmanager::resource_id_unprovided
  unfoldable pub resource_id_unprovided : RpcError T
  resource_id_unprovided =
      reported task_manager_biz_code 1 Code.invalid_argument (text "no resource id provided")

  -- taskmanager::execution_id_unprovided
  unfoldable pub execution_id_unprovided : RpcError T
  execution_id_unprovided =
      reported task_manager_biz_code 2 Code.invalid_argument (text "no execution id provided")

  -- taskmanager::no_found_worker
  unfoldable pub no_found_worker : RpcError T
  no_found_worker = reported task_manager_biz_code 3 Code.not_found (text "no valid worker found")

  -- the error that TaskWorkerError::into_grpc_status makes
  unfoldable pub rpc_error_of : TaskWorkerError → RpcError T
  rpc_error_of (dataflow_validate_error e) =
      reported task_manager_biz_code 4 Code.invalid_argument
        (text "validate dataflow faield: " ++ debug.of_validate_error e)
  rpc_error_of channel_disconnected =
      reported task_manager_biz_code 5 Code.internal (text "channel disconnected")
  rpc_error_of channel_empty = reported task_manager_biz_code 6 Code.internal (text "channel empty")
  rpc_error_of (execution_error e) =
      reported task_manager_biz_code 7 Code.aborted (text "execution error: " ++ debug.of_text e)
  rpc_error_of (event_send_failure e) =
      reported task_manager_biz_code 8 Code.internal (text "event sent error: " ++ debug.of_text e)

  -- TaskWorkerError::into_grpc_status
  unfoldable pub into_grpc_status : TaskWorkerError → T
  unfolding into_tonic_status rpc_error_of
  into_grpc_status e = into_tonic_status api json (rpc_error_of e)

  -- coordinator::unexpected_dataflow_staus
  unfoldable pub unexpected_dataflow_staus : DataflowStatus → RpcError T
  unexpected_dataflow_staus status =
      reported coordinator_biz_code 1 Code.internal
        (text "unexpected dataflow status " ++ debug.of_status status)

  -- coordinator::task_deployment_err
  unfoldable pub task_deployment_err : Str → RpcError T
  task_deployment_err message = reported coordinator_biz_code 2 Code.internal message

  -- coordinator::not_found_dataflow
  unfoldable pub not_found_dataflow : ResourceId → RpcError T
  not_found_dataflow job_id =
      reported coordinator_biz_code 3 Code.not_found
        (text "not found dataflow " ++ debug.of_resource_id job_id)

  -- the code of From<tonic::Status> for ApiError
  abbrev pub api_code_of : Code → ErrorCode
  api_code_of Code.invalid_argument = ErrorCode.rpc_invalid_argument
  api_code_of Code.not_found = ErrorCode.resource_not_found
  api_code_of Code.permission_denied = ErrorCode.rpc_permission_denied
  api_code_of Code.unauthenticated = ErrorCode.rpc_unauthorized
  api_code_of _ = ErrorCode.internal_error

  -- From<tonic::Status> for ApiError, with the text that a status is shown as
  unfoldable pub from_status : (T → Str) → T → ApiError
  from_status shown status = record { api_code = api_code_of (api.code status); msg = shown status }

  -- ApiError::from_error of a validation error
  unfoldable pub from_error : DataflowValidateError → ApiError
  unfolding error_code_of
  from_error e = record { api_code = error_code_of e; msg = debug.json_of_validate_error e }
