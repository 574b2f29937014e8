-- ===== src/Connector/Kafka.antt =====
-- Kafka as a source and as a sink: `Kafka` of src/stream/src/connector.rs with the clients of
-- src/common/src/kafka.rs.
use lightflus.Base.{
  ℕ, Bool, Option, none, some, List, [], ◌∷◌, ◌++◌, Str, is_empty, if◌then◌else◌, and_then,
  map_option, unwrap_or, is_some,
}
use lightflus.Proto.Ids.{ResourceId, default_resource_id}
use lightflus.Proto.Graph.{KafkaDesc, to_i32, get_kafka_group, get_kafka_partition, kafka_data_type}
use lightflus.Proto.Event.{LocalEvent, keyed_data_stream_event}
use lightflus.Types.{
  TypedValue, Formats, Decoded, decoded, panicked, map_decoded, bind, from_slice, get_data,
  JsonText, from_slice_with_type, to_entry,
}
use lightflus.Types.Arithmetic.{Operation, i64_operation}
use lightflus.Connector.Message.{KafkaMessage}

-- What a client is created with.
pub record ConsumerConfig : Type 0 where
  pub brokers : Str
  pub group_id : Str
  pub topic : Str

pub record ProducerConfig : Type 0 where
  pub brokers : Str
  pub group : Str
  pub topic : Str
  pub partition : ℕ

-- The library rdkafka: whether a client can be created.
pub record Rdkafka : Type 0 where
  pub consumes : ConsumerConfig → Bool
  pub produces : ProducerConfig → Bool

abbrev default_group : Str
default_group = 108 ∷ 105 ∷ 103 ∷ 104 ∷ 116 ∷ 102 ∷ 108 ∷ 117 ∷ 115 ∷ []

-- kafka::run_consumer
unfoldable pub run_consumer : Rdkafka → Str → Str → Str → Option ConsumerConfig
run_consumer rdkafka brokers group_id topic =
    let config : ConsumerConfig = record {
      brokers = brokers;
      group_id = if is_empty group_id then default_group else group_id;
      topic = topic;
    } in
    if rdkafka.consumes config then some config else none

-- kafka::run_producer
unfoldable pub run_producer : Rdkafka → Str → Str → Str → ℕ → Option ProducerConfig
run_producer rdkafka brokers topic group partition =
    let config : ProducerConfig = record {
      brokers = brokers;
      group = group;
      topic = topic;
      partition = partition;
    } in
    if rdkafka.produces config then some config else none

-- [String]::join(",")
unfoldable pub join_brokers : List Str → Str
join_brokers [] = []
join_brokers (b ∷ []) = b
join_brokers (b ∷ c ∷ bs) = b ++ 44 ∷ join_brokers (c ∷ bs)

pub record Kafka : Type 0 where
  pub connector_id : ℕ
  pub conf : KafkaDesc
  pub job_id : ResourceId
  pub consumer : Option ConsumerConfig
  pub producer : Option ProducerConfig
  pub job_id_hash : ℕ

-- Hashing is std's DefaultHasher.
module _ (rdkafka : Rdkafka) (hash : ResourceId → ℕ) where
  -- Kafka::with_source_config
  unfoldable pub with_source_config : ResourceId → ℕ → KafkaDesc → Kafka
  unfolding run_consumer join_brokers
  with_source_config job_id executor_id config = record {
    connector_id = executor_id;
    conf = config;
    job_id = job_id;
    consumer =
        run_consumer rdkafka (join_brokers config.brokers) (get_kafka_group config) config.topic;
    producer = none;
    job_id_hash = hash job_id;
  }

  -- Kafka::with_sink_config
  unfoldable pub with_sink_config : ResourceId → ℕ → KafkaDesc → Kafka
  unfolding run_producer join_brokers
  with_sink_config job_id executor_id config = record {
    connector_id = executor_id;
    conf = config;
    job_id = job_id;
    consumer = none;
    producer =
        run_producer rdkafka (join_brokers config.brokers) config.topic (get_kafka_group config)
          (get_kafka_partition config);
    job_id_hash = hash job_id;
  }

abbrev pub epoch : ℕ
epoch = 1640966400

-- Kafka::generate_new_event_id at a time in milliseconds, in a build with overflow checks or
-- without; a panic is `none`
unfoldable pub generate_new_event_id : Bool → ℕ → Kafka → Option ℕ
generate_new_event_id checks now k =
    and_then (i64_operation checks Operation.sub now epoch)
      (λ diff. i64_operation checks Operation.add diff k.job_id_hash)

abbrev or_panicked : Option ℕ → Decoded ℕ
or_panicked none = panicked
or_panicked (some id) = decoded id

-- what the consumer gets: nothing, an error, or a message whose key and payload may be missing
pub data Fetched : Type 0 where
  ended failed : Fetched
  fetched_message : Option (List ℕ) → Option (List ℕ) → Option ℕ → Fetched

module _ (f : Formats) (text : JsonText) (checks : Bool) where
  -- the event of a message, from its key, its value, its id and the time of its arrival
  abbrev pub event_of : Kafka → KafkaMessage → ℕ → TypedValue → TypedValue → ℕ → LocalEvent
  event_of k message now key val event_id = keyed_data_stream_event (record {
    job_id = some k.job_id;
    key = some (to_entry f key);
    to_operator_id = 0;
    «data» = record { data_type = to_i32 (kafka_data_type k.conf); value = get_data f val } ∷ [];
    event_time = unwrap_or message.timestamp now;
    from_operator_id = k.connector_id;
    window = none;
    event_id = event_id;
  })

  -- Kafka::process, at a time in milliseconds
  unfoldable pub process : ℕ → Kafka → KafkaMessage → Decoded LocalEvent
  unfolding from_slice from_slice_with_type generate_new_event_id
  process now k message = bind (from_slice f message.key) (λ key.
      bind (from_slice_with_type f text message.payload (kafka_data_type k.conf)) (λ val.
        map_decoded (event_of k message now key val)
          (or_panicked (generate_new_event_id checks now k))))

  abbrev some_event : Decoded LocalEvent → Decoded (Option LocalEvent)
  some_event r = map_decoded (λ e. some e) r

  -- KafkaConsumer::fetch and blocking_fetch, with `process`
  unfoldable pub fetch : ℕ → Kafka → Fetched → Decoded (Option LocalEvent)
  unfolding process
  fetch now k ended = decoded none
  fetch now k failed = decoded none
  fetch now k (fetched_message key none timestamp) = decoded none
  fetch now k (fetched_message key (some payload) timestamp) =
      some_event (
        process now k (record { key = unwrap_or key []; payload = payload; timestamp = timestamp }))

  -- Kafka::next and poll_next, which do not wait: the consumer blocks
  unfoldable pub next_message : ℕ → Kafka → Fetched → Decoded (Option LocalEvent)
  unfolding fetch
  next_message now k fetched = if is_some k.consumer then fetch now k fetched else decoded none

-- KafkaDesc::clear
abbrev cleared : KafkaDesc
cleared = record { brokers = []; topic = []; opts = none; data_type = 0 }

-- KafkaProducer::close
abbrev closed_producer : ProducerConfig → ProducerConfig
closed_producer p = record p { topic = [] }

-- Kafka::close_source and close_sink: the configuration and the id of the job are reset, and the
-- clients are told to stop but kept; a producer forgets its topic
unfoldable pub close_source : Kafka → Kafka
close_source k = record k { conf = cleared; job_id = default_resource_id }

unfoldable pub close_sink : Kafka → Kafka
close_sink k = record k {
  conf = cleared;
  job_id = default_resource_id;
  producer = map_option closed_producer k.producer;
}
