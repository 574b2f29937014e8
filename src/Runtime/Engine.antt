-- ===== src/Runtime/Engine.antt =====
-- An engine with the function of one operator: RuntimeEngine of src/stream/src/v8_runtime.rs.
use lightflus.Base.{ℕ, Option, none, some, List, [], ◌∷◌, Str, and_then}
use lightflus.Types.{TypedValue, Decoded, decoded, panicked, map_decoded, JsonText}
use lightflus.Runtime.Convert.{V8, wrap_value, to_typed_value}

-- What is taken of the crate v8 for scripts, with the state J of a context: what fails or throws
-- is `none`.
pub record Context (W J : Type 0) : Type 0 where
  pub compile : W → Option W
  pub run : W → J → Option W × J
  pub global_get : W → J → Option W
  pub to_function : W → Option W
  pub invoke : W → List W → J → Option W × J

pub record RuntimeEngine (W J : Type 0) : Type 0 where
  pub process_fn : Option W
  pub ctx : J

module _ {W J : Type 0} (v8 : V8 W) (context : Context W J) where
  open context use {compile, run, global_get, to_function, invoke}

  -- RuntimeEngine::new; a panic is `none`, and a script that throws is only logged
  unfoldable pub new : Str → Str → J → Option (RuntimeEngine W J)
  new source_code fn_name j = and_then (v8.string_new source_code) (λ code.
      and_then (compile code) (λ script.
        let j' = (run script j).1 in
        and_then (v8.string_new fn_name) (λ process_str.
          and_then (global_get process_str j')
            (λ fn_value. some (record { process_fn = to_function fn_value; ctx = j' })))))

  module _ (text : JsonText) (fuel : ℕ) where
    -- what a call answers, converted; an exception is logged
    abbrev pub answered :
        Option W → RuntimeEngine W J → Decoded (Option TypedValue × RuntimeEngine W J)
    unfolding to_typed_value
    answered none e = decoded (none, e)
    answered (some w) e = map_decoded (λ v. (v, e)) (to_typed_value v8 fuel w)

    abbrev pub invoked :
        Option W → List W → RuntimeEngine W J → Decoded (Option TypedValue × RuntimeEngine W J)
    unfolding to_typed_value
    invoked none args e = panicked
    invoked (some f) args e =
        let r = invoke f args e.ctx in
        answered r.0 (record { process_fn = e.process_fn; ctx = r.1 })

    abbrev with_one : RuntimeEngine W J → Option W → Decoded (Option TypedValue × RuntimeEngine W J)
    unfolding to_typed_value
    with_one e none = panicked
    with_one e (some arg) = invoked e.process_fn (arg ∷ []) e

    -- RuntimeEngine::call_one_arg
    unfoldable pub call_one_arg :
        TypedValue → RuntimeEngine W J → Decoded (Option TypedValue × RuntimeEngine W J)
    unfolding wrap_value to_typed_value
    call_one_arg val e = with_one e (wrap_value v8 text val)

    abbrev with_two :
        RuntimeEngine W J → Option W → Option W → Decoded (Option TypedValue × RuntimeEngine W J)
    unfolding to_typed_value
    with_two e (some a) (some b) = invoked e.process_fn (a ∷ b ∷ []) e
    with_two e none b = panicked
    with_two e a none = panicked

    -- RuntimeEngine::call_two_args
    unfoldable pub call_two_args :
        TypedValue
        → TypedValue
        → RuntimeEngine W J
        → Decoded (Option TypedValue × RuntimeEngine W J)
    unfolding wrap_value to_typed_value
    call_two_args a b e = with_two e (wrap_value v8 text a) (wrap_value v8 text b)
