-- ===== src/Tests/Errors.antt =====
-- An error through a status of a small kind and back.
use lightflus.Base.{List, [], ◌∷◌, Str, Result, ok, err, ◌≡◌, refl, subst, list_ord, nat_ord}
use lightflus.Base.BTreeMap
use lightflus.Errors.{
  Code, StatusApi, BizError, BizJson, RpcError, into_tonic_status, parse, Debug, rpc_error_of,
  from_status, ErrorCode,
}
use lightflus.Errors.Parsing.{IsTonic, IsFaithful, parse-into_tonic_status}
use lightflus.Worker.{execution_error}

record Reply : Type 0 where
  reply_code : Code
  says : Str
  metadata : List (Str × Str)

abbrev replies : StatusApi Reply
unfolding BTreeMap.get
replies = record {
  new_status = λ c t. record { reply_code = c; says = t; metadata = [] };
  append = λ k v s. record s { metadata = (k, v) ∷ s.metadata };
  code = λ s. s.reply_code;
  message = λ s. s.says;
  get = λ k s. BTreeMap.get k s.metadata;
}

-- the codes before the message, in place of JSON
abbrev read : Str → Result Str BizError
read (b ∷ c ∷ m) = ok (record { biz_code = b; error_code = c; message = m })
read _ = err []

abbrev numbers : BizJson
numbers = record { to_text = λ e. ok (e.biz_code ∷ e.error_code ∷ e.message); from_text = read }

replies-IsTonic : IsTonic replies numbers
unfolding BTreeMap.get replies
replies-IsTonic = record {
  code_new = λ c t. refl;
  message_new = λ c t. refl;
  get_new = λ k c t. refl;
  code_append = λ k v s. refl;
  message_append = λ k v s. refl;
  get_append = λ k j v s h. refl;
}

numbers-IsFaithful : IsFaithful replies numbers
numbers-IsFaithful e t h = subst (λ u. read u ≡ ok e) (text-eq h) refl
  where
    text-eq : {s u : Str} → ◌≡◌ {A = Result Str Str} (ok s) (ok u) → s ≡ u
    text-eq q = cc

abbrev plain : Debug
plain = record {
  of_validate_error = λ e. [];
  of_text = λ t. t;
  of_status = λ s. [];
  of_resource_id = λ r. [];
  json_of_validate_error = λ e. [];
}

abbrev no_memory : RpcError Reply
unfolding rpc_error_of
no_memory = rpc_error_of replies numbers plain (execution_error (111 ∷ 111 ∷ 109 ∷ []))

parse-into_tonic_status_example :
    (replies.code (into_tonic_status replies numbers no_memory) ≡ replies.code no_memory.status)
    × (parse replies numbers (into_tonic_status replies numbers no_memory)
        ≡ ok (record {
          biz_err = no_memory.biz_err;
          status = into_tonic_status replies numbers no_memory;
        }))
    × (parse replies numbers (replies.new_status Code.unavailable [])
        ≡ err (replies.new_status Code.unavailable []))
parse-into_tonic_status_example =
    parse-into_tonic_status replies numbers replies-IsTonic numbers-IsFaithful no_memory
      (no_memory.biz_err.biz_code ∷ no_memory.biz_err.error_code ∷ no_memory.biz_err.message)
      Code.unavailable [] refl

aborted_is_internal :
    (from_status replies numbers plain (λ s. []) no_memory.status).api_code
    ≡ ErrorCode.internal_error
unfolding from_status rpc_error_of no_memory replies
aborted_is_internal = refl
