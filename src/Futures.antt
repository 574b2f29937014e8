-- ===== src/Futures.antt =====
-- Waiting for futures: join_all of src/common/src/futures/mod.rs, with index_all_match_mut of
-- src/common/src/collections/lang.rs.
use lightflus.Base.{
  ℕ, zero, suc, Bool, true, false, Option, none, some, List, [], ◌∷◌, ◌++◌, if◌then◌else◌,
  map_option, is_empty, any, ◌==◌,
}
pub mod Joining

-- A future, by its answers to polls: ready with its value, pending once more, or pending for ever.
pub data Future (T : Type 0) : Type 0 where
  now : T → Future T
  later : Future T → Future T
  never : Future T

-- One pass over the futures: whether all are ready, what became of the futures and of
-- `ready_index`, and the values given to the callback.
pub record Pass (T : Type 0) : Type 0 where
  pub all_ready : Bool
  pub futures : List (Future T)
  pub ready_index : List ℕ
  pub values : List T

module _ {T : Type 0} where
  -- Future::poll
  abbrev pub poll : Future T → Option T × Future T
  poll (now v) = (some v, now v)
  poll (later fut) = (none, fut)
  poll never = (none, never)

  abbrev pub kept_future : Future T → Pass T → Pass T
  kept_future fut p = record p { futures = fut ∷ p.futures }

  abbrev pub called_back : T → Future T → Pass T → Pass T
  called_back v fut p = record p { futures = fut ∷ p.futures; values = v ∷ p.values }

  -- `all` ends at the first future that is pending.
  abbrev pub polled : List (Future T) → List ℕ → Pass T → Option T × Future T → Pass T
  polled futs ready_index rest (none, fut) = record {
    all_ready = false;
    futures = fut ∷ futs;
    ready_index = ready_index;
    values = [];
  }
  polled futs ready_index rest (some v, fut) = called_back v fut rest

  unfoldable pub pass : ℕ → List ℕ → List (Future T) → Pass T
  pass idx ready_index [] = record {
    all_ready = true;
    futures = [];
    ready_index = ready_index;
    values = [];
  }
  pass idx ready_index (fut ∷ futs) =
      let skipped = pass (suc idx) ready_index futs in
      let rest = pass (suc idx) (idx ∷ ready_index) futs in
      if any (λ i. i == idx) ready_index
      then kept_future fut skipped
      else polled futs ready_index rest (poll fut)

  abbrev pub finish : Pass T → Option (List T) → Option (List T)
  finish p rest = if p.all_ready then some p.values else map_option (λ vs. p.values ++ vs) rest

  -- the passes, on fuel: `none` where it runs out
  unfoldable pub passes : ℕ → List ℕ → List (Future T) → Option (List T)
  passes zero ready_index futs = none
  passes (suc fuel) ready_index futs =
      let p = pass 0 ready_index futs in finish p (passes fuel p.ready_index p.futures)

  -- futures::join_all, with the values given to the callback
  unfoldable pub join_all : ℕ → List (Future T) → Option (List T)
  join_all fuel futs = if is_empty futs then some [] else passes fuel [] futs
