-- ===== src/Stream/Defs.antt =====
-- The JavaScript engine, the state managers of src/stream/src/state.rs and the events that the
-- operators of src/stream/src/dataflow.rs make.
use lightflus.Base.{
  ℕ, Option, List, [], ◌∷◌, ◌++◌, ◌≡◌, Str, if◌then◌else◌, same, nat_ord, list_ord, unwrap_or,
  arith,
}
use lightflus.Base.Word.{decimal}
use lightflus.Base.BTreeMap
use lightflus.Base.BTreeMap.{BTreeMap}
use lightflus.Types.{TypedValue}

-- RuntimeEngine with the function of an operator: a call that fails answers `none`.
pub record Engine (J : Type 0) : Type 0 where
  pub call_one_arg : TypedValue → J → Option TypedValue × J
  pub call_two_args : TypedValue → TypedValue → J → Option TypedValue × J

-- The trait StateManager, with a state that is passed on. What is written for a key is read for
-- it, and for no other key.
pub record StateManager (S : Type 0) : Type 0 where
  pub get : List ℕ → S → List ℕ
  pub set : List ℕ → List ℕ → S → S
  pub get-set : (j k v : List ℕ) (s : S) → get j (set k v s) ≡ (if same j k then v else get j s)

pub record MemoryStateManager : Type 0 where
  pub cache : BTreeMap (List ℕ) (List ℕ)

-- MemoryStateManager::get_keyed_state
unfoldable pub get_keyed_state : List ℕ → MemoryStateManager → List ℕ
get_keyed_state key m = unwrap_or (BTreeMap.get key m.cache) []

-- MemoryStateManager::set_key_state
unfoldable pub set_key_state : List ℕ → List ℕ → MemoryStateManager → MemoryStateManager
set_key_state key value m = record { cache = BTreeMap.insert key value m.cache }

pub get-set :
    (j k v : List ℕ) (m : MemoryStateManager)
    → get_keyed_state j (set_key_state k v m) ≡ (if same j k then v else get_keyed_state j m)
unfolding get_keyed_state set_key_state
get-set j k v m = ground (arith, BTreeMap.get-insert k j v m.cache)

abbrev pub memory : StateManager MemoryStateManager
memory = record { get = get_keyed_state; set = set_key_state; get-set = get-set }

-- get_operator_state_key; the id, a u32, has at most ten digits
unfoldable pub get_operator_state_key : ℕ → Str → List ℕ → List ℕ
get_operator_state_key operator_id operator reference =
    operator ++ 45 ∷ decimal 10 operator_id ++ reference
