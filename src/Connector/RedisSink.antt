-- ===== src/Connector/RedisSink.antt =====
-- Events sent to Redis: `Redis` of src/stream/src/connector.rs.
use lightflus.Base.{
  ℕ, ◌+◌, ◌%◌, Option, none, some, Ordering, List, [], ◌∷◌, ◌++◌, Result, ok, err, Str, unwrap_or,
  map_option,
}
use lightflus.Base.Word.{sign_bit, modulus}
use lightflus.Base.Sorting.{sort_by_key}
use lightflus.Proto.Graph.{RedisDesc, Func}
use lightflus.Proto.Event.{KeyedDataEvent, KeyedEventSet, LocalEvent, keyed_data_stream_event}
use lightflus.Types.{TypedValue, Formats, Decoded, decoded, panicked, map_decoded, bind, cmp}
use lightflus.Connector.Errors.{ErrorKind, SinkException, BatchSinkException, of_batch}
use lightflus.Connector.Redis.{RedisApi, new_client}
use lightflus.Connector.Extract.{Scripts, extract_arguments}

pub record Redis : Type 0 where
  pub connector_id : ℕ
  pub key_extractor : Str
  pub value_extractor : Str

abbrev function_of : Option Func → Str
function_of o = unwrap_or (map_option (λ func. func.function) o) []

-- Redis::with_config; a panic is `none`
unfoldable pub with_config : RedisApi → ℕ → RedisDesc → Option Redis
unfolding new_client
with_config redis connector_id conf =
    map_option
      (λ client. record {
        connector_id = connector_id;
        key_extractor = function_of conf.key_extractor;
        value_extractor = function_of conf.value_extractor;
      })
      (new_client redis conf)

abbrev redis_extractor : Str
redis_extractor =
    114 ∷ 101 ∷ 100 ∷ 105 ∷ 115 ∷ 95 ∷ 101 ∷ 120 ∷ 116 ∷ 114 ∷ 97 ∷ 99 ∷ 116 ∷ 111 ∷ 114 ∷ []

-- `kv[0]` and `kv[1]` of a row; a row with fewer values panics
abbrev pub pair_of : List TypedValue → Option (TypedValue × TypedValue)
pair_of (k ∷ v ∷ rest) = some (k, v)
pair_of _ = none

abbrev and_pair :
    Option (TypedValue × TypedValue)
    → Decoded (List (TypedValue × TypedValue))
    → Decoded (List (TypedValue × TypedValue))
and_pair none rest = panicked
and_pair (some p) rest = map_decoded (λ ps. p ∷ ps) rest

unfoldable pub pairs_of : List (List TypedValue) → Decoded (List (TypedValue × TypedValue))
pairs_of [] = decoded []
pairs_of (row ∷ rows) = and_pair (pair_of row) (pairs_of rows)

-- BTreeMap::insert by TypedValue::cmp, searched from the least key on: a key that compares Equal is
-- kept, with the new value.
abbrev pub place_pair :
    Ordering
    → TypedValue
    → TypedValue
    → TypedValue × TypedValue
    → List (TypedValue × TypedValue)
    → List (TypedValue × TypedValue)
    → List (TypedValue × TypedValue)
place_pair Ordering.eq k v (j, w) m rest = (j, v) ∷ m
place_pair Ordering.lt k v (j, w) m rest = (k, v) ∷ (j, w) ∷ m
place_pair Ordering.gt k v (j, w) m rest = (j, w) ∷ rest

unfoldable pub insert_pair :
    TypedValue → TypedValue → List (TypedValue × TypedValue) → List (TypedValue × TypedValue)
insert_pair k v [] = (k, v) ∷ []
insert_pair k v (p ∷ m) = place_pair (cmp k p.0) k v p m (insert_pair k v m)

unfoldable pub insert_pairs :
    List (TypedValue × TypedValue) → List (TypedValue × TypedValue) → List (TypedValue × TypedValue)
unfolding insert_pair
insert_pairs [] m = m
insert_pairs ((k, v) ∷ ps) m = insert_pairs ps (insert_pair k v m)

-- an i64 in the order of the integers
abbrev pub time_key : KeyedDataEvent → ℕ
time_key e = (e.event_time + sign_bit) % modulus

-- Pairs that were set, and an outcome.
abbrev pub Setting : Type 0 → Type 0
Setting A = List (TypedValue × TypedValue) × A

-- `server` is how RedisClient::set_multiple ends, with the connection to the server.
module _ (f : Formats) (scripts : Scripts)
    (server : List (TypedValue × TypedValue) → Result (Unit {0}) (Unit {0})) where
  -- the pairs of keys and values that the extractors make of an event
  unfoldable pub key_values : Redis → LocalEvent → Decoded (List (TypedValue × TypedValue))
  unfolding extract_arguments pairs_of
  key_values r event =
      bind
        (extract_arguments f scripts redis_extractor (r.key_extractor ∷ r.value_extractor ∷ [])
          event)
        pairs_of

  abbrev outcome : Result (Unit {0}) (Unit {0}) → Result SinkException (Unit {0})
  outcome (ok _) = ok tt
  outcome (err e) = err ErrorKind.redis_sink_failed

  -- Redis::sink
  unfoldable pub sink : Redis → LocalEvent → Decoded (Setting (Result SinkException (Unit {0})))
  unfolding key_values
  sink r event = map_decoded (λ kvs. (kvs, outcome (server kvs))) (key_values r event)

  unfoldable pub all_key_values :
      Redis → List KeyedDataEvent → Decoded (List (TypedValue × TypedValue))
  unfolding key_values
  all_key_values r [] = decoded []
  all_key_values r (e ∷ es) =
      bind (key_values r (keyed_data_stream_event e))
        (λ kvs. map_decoded (λ rest. kvs ++ rest) (all_key_values r es))

  abbrev pub batch_outcome : Result (Unit {0}) (Unit {0}) → Result BatchSinkException (Unit {0})
  batch_outcome (ok _) = ok tt
  batch_outcome (err e) = err (of_batch ErrorKind.redis_sink_failed)

  -- Redis::batch_sink: the events by their times, the last value of each key
  unfoldable pub batch_sink :
      Redis → KeyedEventSet → Decoded (Setting (Result BatchSinkException (Unit {0})))
  unfolding all_key_values insert_pairs sort_by_key
  batch_sink r event_set =
      map_decoded (λ kvs. (insert_pairs kvs [], batch_outcome (server (insert_pairs kvs []))))
        (all_key_values r (sort_by_key time_key event_set.events))

-- Redis::close_sink
unfoldable pub close_sink : Redis → Redis
close_sink r = record r { key_extractor = []; value_extractor = [] }
