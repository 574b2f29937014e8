-- ===== src/Errors/Parsing.antt =====
-- Errors through a status and back (src/common/src/err.rs).
use lightflus.Base.{
  none, some, Str, ok, err, ◌≡◌, refl, ◌∙◌, if◌then◌else◌, same, list_ord, nat_ord,
}
use lightflus.Errors.Rpc.{
  Code, StatusApi, BizError, BizJson, RpcError, code_key, rpc_code, into_tonic_status, parse,
}

module _ {T : Type 0} (api : StatusApi T) (json : BizJson) where
  -- A status has the code and the text that it is made with, and only the metadata appended to it.
  pub record IsTonic : Type 0 where
    pub code_new : (c : Code) (t : Str) → api.code (api.new_status c t) ≡ c
    pub message_new : (c : Code) (t : Str) → api.message (api.new_status c t) ≡ t
    pub get_new : (k : Str) (c : Code) (t : Str) → api.get k (api.new_status c t) ≡ none
    pub code_append : (k v : Str) (s : T) → api.code (api.append k v s) ≡ api.code s
    pub message_append : (k v : Str) (s : T) → api.message (api.append k v s) ≡ api.message s
    pub get_append :
        (k j v : Str) (s : T)
        → api.get j s ≡ none
        → api.get k (api.append j v s) ≡ (if same k j then some v else api.get k s)

  -- An error that is written as JSON is read again.
  abbrev pub IsFaithful : Type 0
  IsFaithful = (e : BizError) (t : Str) → json.to_text e ≡ ok t → json.from_text t ≡ ok e

  parse-marked :
      (s : T) (text : Str) (b : BizError)
      → api.get code_key s ≡ some rpc_code
      → api.message s ≡ text
      → json.from_text text ≡ ok b
      → parse api json s ≡ ok (record { biz_err = b; status = s })
  unfolding parse
  parse-marked s text b marked says read = rw (marked, says, read) refl

  -- Where statuses keep what they are made with and JSON is read as it was written: the status of an
  -- error that can be written as JSON has the code of the error's own status, and parse finds the
  -- error in it; a status that was made without metadata is given back by parse as it is.
  pub parse-into_tonic_status :
      IsTonic
      → IsFaithful
      → (e : RpcError T) (text : Str) (c : Code) (t : Str) → json.to_text e.biz_err ≡ ok text
      → (api.code (into_tonic_status api json e) ≡ api.code e.status)
        × (parse api json (into_tonic_status api json e)
            ≡ ok (record { biz_err = e.biz_err; status = into_tonic_status api json e }))
        × (parse api json (api.new_status c t) ≡ err (api.new_status c t))
  unfolding into_tonic_status parse
  parse-into_tonic_status laws faithful e text c t h = (
    rw h (laws.code_append _ _ _ ∙ laws.code_new _ _),
    rw h (
        parse-marked _ text e.biz_err
          (laws.get_append code_key code_key rpc_code _ (laws.get_new _ _ _))
          (laws.message_append _ _ _ ∙ laws.message_new _ _) (faithful e.biz_err text h)),
    rw (laws.get_new code_key c t) refl,
  )
