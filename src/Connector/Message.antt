-- ===== src/Connector/Message.antt =====
-- The messages of Kafka: KafkaMessage of src/common/src/kafka.rs and to_kafka_message of
-- src/common/src/event.rs.
use lightflus.Base.{ℕ, Option, none, some, List, [], ◌∷◌, Result, ok, err}
use lightflus.Proto.Event.{Entry, get_key, LocalEvent, terminate, keyed_data_stream_event}
use lightflus.Types.{
  Formats, Decoded, decoded, map_decoded, bind, from_slice, JsonText, to_json_value,
}
use lightflus.Types.{bind}
use lightflus.Proto.Event.{get_key}

pub record KafkaMessage : Type 0 where
  pub key : List ℕ
  pub payload : List ℕ
  pub timestamp : Option ℕ

pub data KafkaEventError : Type 0 where
  unsupported_event serialize_json_failed : KafkaEventError

module _ (f : Formats) (text : JsonText) where
  open text use {to_vec}

  abbrev also :
      KafkaMessage
      → Result KafkaEventError (List KafkaMessage)
      → Result KafkaEventError (List KafkaMessage)
  also m (ok ms) = ok (m ∷ ms)
  also m (err e) = err e

  -- The message of a value that was written goes before those of the rest; the rest is not looked at
  -- where the value cannot be written.
  abbrev pub with_payload :
      List ℕ
      → ℕ
      → Option (List ℕ)
      → Decoded (Result KafkaEventError (List KafkaMessage))
      → Decoded (Result KafkaEventError (List KafkaMessage))
  with_payload k now none rest = decoded (err serialize_json_failed)
  with_payload k now (some payload) rest =
      map_decoded (also (record { key = k; payload = payload; timestamp = some now })) rest

  -- the messages of entries, one for each
  unfoldable pub messages :
      List ℕ → ℕ → List Entry → Decoded (Result KafkaEventError (List KafkaMessage))
  unfolding from_slice
  messages k now [] = decoded (ok [])
  messages k now (e ∷ es) =
      bind (from_slice f e.value)
        (λ v. with_payload k now (to_vec (to_json_value v)) (messages k now es))

  abbrev pub with_key :
      ℕ → List Entry → Option (List ℕ) → Decoded (Result KafkaEventError (List KafkaMessage))
  unfolding messages
  with_key now entries none = decoded (err serialize_json_failed)
  with_key now entries (some k) = messages k now entries

  -- LocalEvent::to_kafka_message, at a time in milliseconds
  unfoldable pub to_kafka_message :
      ℕ → LocalEvent → Decoded (Result KafkaEventError (List KafkaMessage))
  unfolding from_slice messages with_key
  to_kafka_message now (terminate job_id to event_time) = decoded (err unsupported_event)
  to_kafka_message now (keyed_data_stream_event e) =
      bind (from_slice f (get_key e).value)
        (λ key. with_key now e.«data» (to_vec (to_json_value key)))
