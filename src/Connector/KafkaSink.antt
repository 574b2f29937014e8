-- ===== src/Connector/KafkaSink.antt =====
-- Events sent to Kafka: sink and batch_sink of `Kafka` (src/stream/src/connector.rs) and
-- KafkaProducer::send (src/common/src/kafka.rs).
use lightflus.Base.{
  ℕ, Option, none, some, List, [], ◌∷◌, ◌++◌, Result, ok, err, Str, is_empty, if◌then◌else◌,
}
use lightflus.Proto.Event.{KeyedDataEvent, KeyedEventSet, LocalEvent, keyed_data_stream_event}
use lightflus.Types.{Formats, Decoded, decoded, map_decoded, bind, JsonText}
use lightflus.Connector.Errors.{ErrorKind, SinkException, BatchSinkException}
use lightflus.Connector.Message.{KafkaMessage, KafkaEventError, to_kafka_message}
use lightflus.Connector.Kafka.{Kafka, ProducerConfig}

-- a record given to the broker
pub record FutureRecord : Type 0 where
  pub topic : Str
  pub partition : ℕ
  pub payload : List ℕ
  pub key : List ℕ

-- Records that were given to the broker, and an outcome.
abbrev pub Sending : Type 0 → Type 0
Sending A = List FutureRecord × A

-- `broker` is how the delivery of a record ends.
module _ (broker : FutureRecord → Result (Unit {0}) (Unit {0})) where
  abbrev pub record_of : ProducerConfig → KafkaMessage → FutureRecord
  record_of p m = record {
    topic = p.topic;
    partition = p.partition;
    payload = m.payload;
    key = m.key;
  }

  -- KafkaProducer::send, which skips an empty payload
  unfoldable pub send : ProducerConfig → KafkaMessage → Sending (Result (Unit {0}) (Unit {0}))
  send p m =
      if is_empty m.payload then ([], ok tt) else (record_of p m ∷ [], broker (record_of p m))

  abbrev go_on :
      Sending (Result (Unit {0}) (Unit {0}))
      → Sending (Result SinkException (Unit {0}))
      → Sending (Result SinkException (Unit {0}))
  go_on (sent, err e) rest = (sent, err ErrorKind.kafka_message_send_failed)
  go_on (sent, ok _) (sent', r) = (sent ++ sent', r)

  -- the loop of Kafka::sink, which ends at the first error
  unfoldable pub send_all :
      ProducerConfig → List KafkaMessage → Sending (Result SinkException (Unit {0}))
  unfolding send
  send_all p [] = ([], ok tt)
  send_all p (m ∷ ms) = go_on (send p m) (send_all p ms)

  -- the inner loop of Kafka::batch_sink, which reports errors in the log only
  unfoldable pub send_each : ProducerConfig → List KafkaMessage → List FutureRecord
  unfolding send
  send_each p [] = []
  send_each p (m ∷ ms) = (send p m).0 ++ send_each p ms

  module _ (f : Formats) (text : JsonText) (now : ℕ) where
    abbrev deliver :
        ProducerConfig
        → Result KafkaEventError (List KafkaMessage)
        → Sending (Result SinkException (Unit {0}))
    unfolding send_all
    deliver p (err e) = ([], err ErrorKind.kafka_message_send_failed)
    deliver p (ok ms) = send_all p ms

    abbrev sink_to :
        LocalEvent → Option ProducerConfig → Decoded (Sending (Result SinkException (Unit {0})))
    unfolding to_kafka_message send_all
    sink_to event none = decoded ([], ok tt)
    sink_to event (some p) = map_decoded (deliver p) (to_kafka_message f text now event)

    -- Kafka::sink, at a time in milliseconds
    unfoldable pub sink : Kafka → LocalEvent → Decoded (Sending (Result SinkException (Unit {0})))
    unfolding sink_to
    sink k event = sink_to event k.producer

    abbrev pub delivered :
        ProducerConfig → Result KafkaEventError (List KafkaMessage) → List FutureRecord
    unfolding send_each
    delivered p (err e) = []
    delivered p (ok ms) = send_each p ms

    unfoldable pub batch_events : ProducerConfig → List KeyedDataEvent → Decoded (List FutureRecord)
    unfolding to_kafka_message delivered
    batch_events p [] = decoded []
    batch_events p (e ∷ es) =
        bind (to_kafka_message f text now (keyed_data_stream_event e))
          (λ ms. map_decoded (λ rest. delivered p ms ++ rest) (batch_events p es))

    abbrev batch_to :
        List KeyedDataEvent
        → Option ProducerConfig
        → Decoded (Sending (Result BatchSinkException (Unit {0})))
    unfolding batch_events
    batch_to events none = decoded ([], ok tt)
    batch_to events (some p) = map_decoded (λ sent. (sent, ok tt)) (batch_events p events)

    -- Kafka::batch_sink, at a time in milliseconds
    unfoldable pub batch_sink :
        Kafka → KeyedEventSet → Decoded (Sending (Result BatchSinkException (Unit {0})))
    unfolding batch_to
    batch_sink k event_set = batch_to event_set.events k.producer
