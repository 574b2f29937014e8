-- ===== src/Tests/Connector.antt =====
-- Arrays of booleans sent to Kafka and read back, rows for MySQL and pairs for Redis.
use lightflus.Base.{
  ℕ, ◌*◌, ◌<◌, true, false, Option, none, some, List, [], ◌∷◌, ◌≡◌, refl, ok, Result, nat_ord,
  list_ord, map, keep, length, inr, Str, if◌then◌else◌, ◌==◌, arith,
}
use lightflus.Base.BTreeMap
use lightflus.Base.BTreeMap.{BTreeMap}
use lightflus.Base.Sorting.{sort_by_key, insert_by_key, IsSorted}
use lightflus.Base.Utf8.{from_utf8, is_utf8, well_formed}
use lightflus.Proto.Graph.{
  KafkaDesc, RedisDesc, RedisConnectionOpts, DataTypeEnum, from_i32, kafka_data_type,
}
use lightflus.Proto.Validate.{redis_check}
use lightflus.Proto.Event.{
  KeyedDataEvent, KeyedEventSet, default_event, LocalEvent, terminate, keyed_data_stream_event,
}
use lightflus.Types.{
  TypedValue, JsonText, to_json_value, JsonValue, JsonItems, decoded, get_data, from_slice,
  decode_with, decode_as, decode_all, decode, string, boolean, array, nil, cons, to_entry,
}
use lightflus.Connector.Message.{KafkaMessage, to_kafka_message}
use lightflus.Connector.Kafka.{Kafka, Rdkafka, with_source_config, generate_new_event_id, ended}
use lightflus.Connector.RoundTrip.{IsPrinted, ParsesBack, Reads, process-to_kafka_message}
use lightflus.Connector.Mysql.{Mysql, get_arguments, batch_sink, flatten, is_bound}
use lightflus.Connector.Extract.{Scripts}
use lightflus.Connector.Errors.{BatchSinkException}
use lightflus.Tests.Fixtures.{job, bytes, kafka, redis}
use lightflus.Tests.Types.{plain, plain-IsFaithful}
use lightflus.Types.RoundTrip.{from_vec-get_data}
use lightflus.Types.Arithmetic.{i64_operation, exact}
use lightflus.Base.Int.{to_int, of_int, fits, checked, ◌-ℤ◌, ◌+ℤ◌}
use lightflus.Connector.Mysql.{all_rows}
use lightflus.Connector.Rows.{batch_sink-rows}
use lightflus.Connector.RedisSink
use lightflus.Connector.RedisSink.{Redis, time_key, all_key_values}
use lightflus.Connector.Latest.{
  with_strings, latest, batch_sink-latest, to_connection_info-username,
}
use lightflus.Connector.Redis.{to_connection_info, ConnectionInfo, split_colon}
use lightflus.Connector.Source.{Terminator, SourceImpl, next, poll_next}
use lightflus.Connector.Termination.{event_of, poll_next-terminate}
use lightflus.Connector.Extract.{extract, extract_entries, extract_arguments}

abbrev letters : JsonItems → List ℕ
letters JsonItems.nil = []
letters (JsonItems.cons (JsonValue.bool true) vs) = 116 ∷ letters vs
letters (JsonItems.cons _ vs) = 102 ∷ letters vs

abbrev print : JsonValue → ℕ × List ℕ
print JsonValue.null = (110, [])
print (JsonValue.bool b) = (if b then 116 else 102, [])
print (JsonValue.number n) = (48, [])
print (JsonValue.string s) = (34, s)
print (JsonValue.array vs) = (91, letters vs)
print (JsonValue.object fs) = (123, [])

abbrev parse_items : List ℕ → JsonItems
parse_items [] = JsonItems.nil
parse_items (b ∷ bs) = JsonItems.cons (JsonValue.bool (b == 116)) (parse_items bs)

abbrev parse : List ℕ → Option JsonValue
parse [] = none
parse (b ∷ bs) = if b == 91 then some (JsonValue.array (parse_items bs)) else none

abbrev plain_text : JsonText
plain_text = record {
  to_vec = λ j. some ((print j).0 ∷ (print j).1);
  from_text = parse;
  from_utf8_lossy = λ bs. bs;
}

first : (j : JsonValue) → 32 < (print j).0
first JsonValue.null = omega arith
first (JsonValue.bool b) = ground arith
first (JsonValue.number n) = omega arith
first (JsonValue.string s) = omega arith
first (JsonValue.array vs) = omega arith
first (JsonValue.object fs) = omega arith

plain_text-IsPrinted : IsPrinted plain_text
plain_text-IsPrinted = record { printed = λ j. ((print j).0, (print j).1, refl, first j) }

abbrev flags : TypedValue
flags = array (cons (boolean true) (cons (boolean false) nil))

some_eq : {A : Type 0} {a b : A} → some a ≡ some b → a ≡ b
some_eq e = cc

flags-ParsesBack : ParsesBack plain plain_text flags
unfolding to_json_value
flags-ParsesBack t e = rw (← some_eq e) refl

abbrev ready_client : Rdkafka
ready_client = record { consumes = λ c. true; produces = λ c. true }

abbrev arrays : KafkaDesc
arrays = record kafka { data_type = 7 }

abbrev source : Kafka
unfolding with_source_config
source = with_source_config ready_client (λ j. 5) job 1 arrays

abbrev event : KeyedDataEvent
unfolding get_data
event = record default_event {
  key = some (to_entry plain (string (bytes "word")));
  «data» = to_entry plain flags ∷ [];
}

word-decoded :
    from_slice plain (get_data plain (string (bytes "word"))) ≡ decoded (string (bytes "word"))
unfolding is_utf8 well_formed
word-decoded = (from_vec-get_data plain plain-IsFaithful (string (bytes "word")) refl).1

flags-decoded : from_slice plain (get_data plain flags) ≡ decoded flags
flags-decoded = (from_vec-get_data plain plain-IsFaithful flags (tt, (tt, tt))).1

abbrev id : ℕ
id = 1698359033605

composite : kafka_data_type source.conf ≡ DataTypeEnum.array
unfolding kafka_data_type from_i32 source
composite = refl

numbered : generate_new_event_id true 1700000000000 source ≡ some id
unfolding generate_new_event_id i64_operation exact to_int of_int fits checked ◌-ℤ◌ ◌+ℤ◌ source
numbered = refl

process-to_kafka_message_example :
    (ms : List KafkaMessage) × (to_kafka_message plain plain_text 60 (keyed_data_stream_event event)
      ≡ decoded (ok ms))
    × Reads plain plain_text true 1700000000000 source id 60 (flags ∷ []) ms
unfolding event get_data
process-to_kafka_message_example =
    process-to_kafka_message plain plain_text true 1700000000000 source id plain_text-IsPrinted
      (inr composite) numbered event (string (bytes "word")) (flags ∷ []) 60 word-decoded
      (flags-decoded, tt) (flags-ParsesBack, tt)

-- A value is its own key, as a string, and its own row.
abbrev same_script : Scripts
same_script code name = some (λ v. some v)

abbrev at : ℕ → List TypedValue → KeyedDataEvent
unfolding get_data
at time [] = record default_event { event_time = time }
at time (v ∷ vs) = record (at time vs) { «data» = to_entry plain v ∷ (at time vs).«data» }

abbrev sets : KeyedEventSet
sets = record {
  events =
      at 9 (string (bytes "b") ∷ []) ∷ at 4 (string (bytes "a") ∷ string (bytes "b") ∷ []) ∷ [];
  job_id = none;
  to_operator_id = 2;
  from_operator_id = 1;
}

abbrev pairs : List (Str × TypedValue)
pairs =
    (bytes "a", string (bytes "a"))
    ∷ (bytes "b", string (bytes "b"))
    ∷ (bytes "b", string (bytes "b"))
    ∷ []

abbrev settings : Redis
settings = record { connector_id = 2; key_extractor = bytes "k"; value_extractor = bytes "v" }

abbrev mysql : Mysql
mysql = record {
  connector_id = 2;
  statement = bytes "insert into t values (?, ?)";
  extractors = bytes "v1" ∷ bytes "v2" ∷ [];
  conn_opts = record { host = []; username = []; password = []; database = [] };
}

abbrev accepting {ℓ} : {A : Type ℓ} → A → Result (Unit {0}) (Unit {0})
accepting a = ok tt

keyed :
    all_key_values plain same_script accepting settings (sort_by_key time_key sets.events)
    ≡ decoded (with_strings pairs)
unfolding all_key_values sort_by_key insert_by_key extract_arguments extract_entries extract
    from_slice decode_with decode_as decode_all decode from_utf8 is_utf8 well_formed from_i32 at
    get_data RedisSink.key_values RedisSink.pairs_of
keyed = refl

batch_sink-latest_example :
    (m : BTreeMap Str TypedValue) × (RedisSink.batch_sink plain same_script accepting settings sets
      ≡ decoded (
        with_strings m,
        RedisSink.batch_outcome plain same_script accepting (accepting (with_strings m)),
      ))
    × ((k : Str) → BTreeMap.get k m ≡ latest k pairs)
    × IsSorted time_key (sort_by_key time_key sets.events)
batch_sink-latest_example = batch_sink-latest plain same_script accepting settings sets pairs keyed

abbrev rows : List (List TypedValue)
rows =
    (string (bytes "b") ∷ string (bytes "b") ∷ [])
    ∷ (string (bytes "a") ∷ string (bytes "a") ∷ [])
    ∷ (string (bytes "b") ∷ string (bytes "b") ∷ [])
    ∷ []

extracted : all_rows plain same_script accepting mysql sets.events ≡ decoded rows
unfolding all_rows extract_arguments extract_entries extract from_slice decode_with decode_as
    decode_all decode from_utf8 is_utf8 well_formed from_i32 at get_data get_arguments
extracted = refl

batch_sink-rows_example :
    (r : Result BatchSinkException (Unit {0})) × (batch_sink plain same_script accepting mysql sets
      ≡ decoded ((mysql.statement, flatten (map (keep is_bound) rows)) ∷ [], r))
    × (length (flatten rows) ≡ length rows * length mysql.extractors)
batch_sink-rows_example = batch_sink-rows plain same_script accepting mysql sets rows extracted

abbrev secured : RedisConnectionOpts
secured = record {
  host = bytes "cache";
  username = bytes "me";
  password = bytes "pw";
  database = 1;
  tls = true;
}

abbrev secured_redis : RedisDesc
secured_redis = record redis { connection_opts = some secured }

abbrev secured_info : ConnectionInfo
secured_info = record {
  host = bytes "cache";
  port = 6379;
  tls = true;
  db = 1;
  username = none;
  password = some (bytes "pw");
}

secured_check : redis_check secured_redis ≡ ok tt
unfolding redis_check
secured_check = refl

secured_made : to_connection_info (λ t. none) secured_redis ≡ some secured_info
unfolding to_connection_info split_colon
secured_made = refl

to_connection_info-username_example :
    (secured_info.username ≡ none)
    × (secured_info.password ≡ (if secured.tls then some secured.password else none))
to_connection_info-username_example =
    to_connection_info-username (λ t. none) secured_redis secured secured_info secured_check refl
      secured_made

abbrev stop : LocalEvent
stop = terminate job 1 77

abbrev told : Terminator
told = record { queue = []; closed = false }

terminator_ignored :
    (next plain plain_text true 50 ended
        (SourceImpl.kafka source (record told { queue = stop ∷ [] }))
      ≡ decoded (some (some stop, SourceImpl.kafka source (record told { queue = [] }))))
    × (event_of (
          poll_next plain plain_text true 50 ended
            (SourceImpl.kafka source (record told { queue = stop ∷ [] })))
        ≡ event_of (poll_next plain plain_text true 50 ended (SourceImpl.kafka source told)))
terminator_ignored = poll_next-terminate plain plain_text true 50 ended source told told stop []
