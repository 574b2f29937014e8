-- ===== src/Connector/Latest.antt =====
-- What a batch leaves in Redis (src/stream/src/connector.rs), and how the client logs in
-- (src/common/src/redis.rs).
use lightflus.Base.{
  ℕ, true, false, Option, none, some, Ordering, List, [], ◌∷◌, ◌≡◌, refl, ◌∙◌, ap, Result, ok, Str,
  same, nat_ord, list_ord, list_cmp, if◌then◌else◌, map_option, arith, or_else, is_empty,
  Bool-cases, inl, inr,
}
use lightflus.Base.BTreeMap
use lightflus.Base.BTreeMap.{BTreeMap}
use lightflus.Proto.Graph.{RedisDesc, RedisConnectionOpts}
use lightflus.Proto.Validate.{redis_check}
use lightflus.Types.{Formats, decoded, TypedValue, string, cmp, partial_cmp}
use lightflus.Connector.Redis.{ConnectionInfo, to_connection_info, connection}
use lightflus.Connector.RedisSink.{
  Redis, insert_pair, insert_pairs, place_pair, time_key, all_key_values, batch_sink, batch_outcome,
}
use lightflus.Connector.Extract.{Scripts}
use lightflus.Proto.Event.{KeyedEventSet}
use lightflus.Base.Sorting.{sort_by_key, IsSorted, sort-IsSorted}

-- Pairs with strings for keys.
abbrev pub with_strings : List (Str × TypedValue) → List (TypedValue × TypedValue)
with_strings [] = []
with_strings ((k, v) ∷ kvs) = (string k, v) ∷ with_strings kvs

-- The last value of a key.
unfoldable pub latest : Str → List (Str × TypedValue) → Option TypedValue
latest k [] = none
latest k ((j, v) ∷ kvs) = or_else (latest k kvs) (if same k j then some v else none)

or_else-none : {A : Type 0} (o : Option A) → or_else o none ≡ o
or_else-none none = refl
or_else-none (some a) = refl

place-with_strings :
    (o : Ordering) (k j : Str) (v w : TypedValue) (m rest : List (Str × TypedValue))
    → (o ≡ Ordering.eq → k ≡ j)
    → place_pair o (string k) v (string j, w) (with_strings m) (with_strings rest)
      ≡ with_strings (BTreeMap.place o k v j w m rest)
place-with_strings Ordering.eq k j v w m rest h = rw (h refl) refl
place-with_strings Ordering.lt k j v w m rest h = refl
place-with_strings Ordering.gt k j v w m rest h = refl

insert-with_strings :
    (k : Str) (v : TypedValue) (m : List (Str × TypedValue))
    → insert_pair (string k) v (with_strings m) ≡ with_strings (BTreeMap.insert k v m)
unfolding insert_pair BTreeMap.insert cmp partial_cmp
insert-with_strings k v [] = refl
insert-with_strings k v ((j, w) ∷ m) =
    rw (insert-with_strings k v m)
      (place-with_strings (list_cmp k j) k j v w m (BTreeMap.insert k v m) (list_ord.cmp_iff k j).0)

-- The strings and their values inserted one after the other.
unfoldable insert_strings :
    List (Str × TypedValue) → BTreeMap Str TypedValue → BTreeMap Str TypedValue
insert_strings [] m = m
insert_strings ((k, v) ∷ kvs) m = insert_strings kvs (BTreeMap.insert k v m)

insert_pairs-with_strings :
    (kvs m : List (Str × TypedValue))
    → insert_pairs (with_strings kvs) (with_strings m) ≡ with_strings (insert_strings kvs m)
unfolding insert_pairs insert_strings
insert_pairs-with_strings [] m = refl
insert_pairs-with_strings ((k, v) ∷ kvs) m =
    ap (insert_pairs (with_strings kvs)) (insert-with_strings k v m)
    ∙ insert_pairs-with_strings kvs (BTreeMap.insert k v m)

get-insert_strings :
    (k : Str) (kvs : List (Str × TypedValue)) (m : BTreeMap Str TypedValue)
    → BTreeMap.get k (insert_strings kvs m) ≡ or_else (latest k kvs) (BTreeMap.get k m)
unfolding insert_strings latest
get-insert_strings k [] m = refl
get-insert_strings k ((j, v) ∷ kvs) m =
    ground (arith, get-insert_strings k kvs (BTreeMap.insert j v m), BTreeMap.get-insert j k v m)

module _ (f : Formats) (scripts : Scripts)
    (server : List (TypedValue × TypedValue) → Result (Unit {0}) (Unit {0})) where
  -- Where the extractors make strings of all the keys of a batch, the batch sets one map: it has for
  -- each key the last of its values, in the order of the events' times, and no other key.
  pub batch_sink-latest :
      (r : Redis) (event_set : KeyedEventSet) (kvs : List (Str × TypedValue))
      → all_key_values f scripts server r (sort_by_key time_key event_set.events)
        ≡ decoded (with_strings kvs)
      → (m : BTreeMap Str TypedValue) × (batch_sink f scripts server r event_set
          ≡ decoded (with_strings m, batch_outcome f scripts server (server (with_strings m))))
        × ((k : Str) → BTreeMap.get k m ≡ latest k kvs)
        × IsSorted time_key (sort_by_key time_key event_set.events)
  unfolding batch_sink BTreeMap.get
  batch_sink-latest r event_set kvs h = (
    insert_strings kvs [],
    rw (h, insert_pairs-with_strings kvs []) refl,
    λ k. get-insert_strings k kvs [] ∙ or_else-none (latest k kvs),
    sort-IsSorted time_key event_set.events,
  )

check-username :
    (conf : RedisDesc) (opts : RedisConnectionOpts)
    → redis_check conf ≡ ok tt
    → conf.connection_opts ≡ some opts
    → opts.tls ≡ true
    → is_empty opts.username ≡ false
unfolding redis_check
check-username conf opts checked given tls = ground arith

connected :
    (opts : RedisConnectionOpts) (a : Option (Str × ℕ)) (info : ConnectionInfo)
    → (opts.tls ≡ true → is_empty opts.username ≡ false)
    → map_option (connection opts) a ≡ some info
    → (info.username ≡ none) × (info.password ≡ (if opts.tls then some opts.password else none))
connected opts none info named made = cc
connected opts (some a) info named made =
    let same : connection opts a ≡ info = cc in
    elim (Bool-cases opts.tls) [
      | inl e ↦ rw (← same, e, named e) (refl, refl)
      | inr e ↦ rw (← same, e) (refl, refl)
    ]

-- A Redis sink that passed validation never logs in with its user name: the test for an empty name is
-- the wrong way round. Its password is given exactly where TLS is on.
pub to_connection_info-username :
    (parse_port : Str → Option ℕ) (conf : RedisDesc) (opts : RedisConnectionOpts)
    (info : ConnectionInfo)
    → redis_check conf ≡ ok tt
    → conf.connection_opts ≡ some opts
    → to_connection_info parse_port conf ≡ some info
    → (info.username ≡ none) × (info.password ≡ (if opts.tls then some opts.password else none))
unfolding redis_check to_connection_info
to_connection_info-username parse_port conf opts info checked given made =
    connected opts _ info (check-username conf opts checked given) (rw given at made)
