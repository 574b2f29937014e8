-- ===== src/Errors/Rpc.antt =====
-- Errors in the statuses of calls: RpcError of src/common/src/err.rs.
use lightflus.Base.{
  ℕ, Bool, false, Option, none, some, [], ◌∷◌, Str, Result, ok, err, if◌then◌else◌, same, list_ord,
  nat_ord,
}

-- tonic::Code
pub data Code : Type 0 where
  ok_code cancelled unknown invalid_argument deadline_exceeded not_found already_exists : Code
  permission_denied resource_exhausted failed_precondition aborted out_of_range : Code
  unimplemented internal unavailable data_loss unauthenticated : Code

-- What is taken of the statuses T of the crate tonic.
pub record StatusApi (T : Type 0) : Type 0 where
  pub new_status : Code → Str → T
  pub append : Str → Str → T → T
  pub code : T → Code
  pub message : T → Str
  pub get : Str → T → Option Str

pub record BizError : Type 0 where
  pub biz_code : ℕ
  pub error_code : ℕ
  pub message : Str

-- serde_json on BizError; an error is its text
pub record BizJson : Type 0 where
  pub to_text : BizError → Result Str Str
  pub from_text : Str → Result Str BizError

pub record RpcError (T : Type 0) : Type 0 where
  pub biz_err : BizError
  pub status : T

-- X_LIGHTFLUS_CODE_METADATA_KEY, "x-lightflus-code"
abbrev pub code_key : Str
code_key =
    120 ∷ 45 ∷ 108 ∷ 105 ∷ 103 ∷ 104 ∷ 116 ∷ 102 ∷ 108 ∷ 117 ∷ 115 ∷ 45 ∷ 99 ∷ 111 ∷ 100 ∷ 101 ∷ []

-- LIGHTFLUS_RPC_CODE, "999"
abbrev pub rpc_code : Str
rpc_code = 57 ∷ 57 ∷ 57 ∷ []

module _ {T : Type 0} (api : StatusApi T) (json : BizJson) where
  open api use {new_status, append, code, message, get}
  open json use {to_text, from_text}

  abbrev status_of : RpcError T → Result Str Str → T
  status_of e (ok text) = append code_key rpc_code (new_status (code e.status) text)
  status_of e (err text) = new_status Code.internal text

  -- RpcError::into_tonic_status
  unfoldable pub into_tonic_status : RpcError T → T
  into_tonic_status e = status_of e (to_text e.biz_err)

  abbrev pub is_marked : Option Str → Bool
  is_marked none = false
  is_marked (some value) = same value rpc_code

  abbrev parsed : T → Result Str BizError → Result T (RpcError T)
  parsed status (ok biz_err) = ok (record { biz_err = biz_err; status = status })
  parsed status (err text) = err (new_status Code.internal text)

  -- RpcError::parse
  unfoldable pub parse : T → Result T (RpcError T)
  parse status =
      if is_marked (get code_key status)
      then parsed status (from_text (message status))
      else err status
