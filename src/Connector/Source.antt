-- ===== src/Connector/Source.antt =====
-- SourceImpl of src/stream/src/connector.rs. A source owns a channel on which it is told to
-- terminate.
use lightflus.Base.{ℕ, Bool, false, true, Option, none, some, List, [], ◌∷◌, if◌then◌else◌}
use lightflus.Proto.Ids.{ResourceId}
use lightflus.Proto.Graph.{Details, SourceDesc}
use lightflus.Proto.Event.{LocalEvent, terminate}
use lightflus.Types.{Formats, Decoded, decoded, map_decoded, JsonText}
use lightflus.Connector.Kafka.{
  Kafka, Rdkafka, Fetched, with_source_config, next_message, close_source,
}

-- the receiver of the channel, and whether it is closed
pub record Terminator : Type 0 where
  pub queue : List LocalEvent
  pub closed : Bool

pub data SourceImpl : Type 0 where
  kafka : Kafka → Terminator → SourceImpl
  empty : ℕ → Terminator → SourceImpl

abbrev open_terminator : Terminator
open_terminator = record { queue = []; closed = false }

module _ (rdkafka : Rdkafka) (hash : ResourceId → ℕ) where
  abbrev of_desc : ResourceId → ℕ → Option SourceDesc → SourceImpl
  unfolding with_source_config
  of_desc job_id source_id none = empty source_id open_terminator
  of_desc job_id source_id (some (SourceDesc.kafka conf)) =
      kafka (with_source_config rdkafka hash job_id source_id conf) open_terminator

  -- From<(&ResourceId, SourceId, &Details)> for SourceImpl
  unfoldable pub source_from : ResourceId → ℕ → Details → SourceImpl
  unfolding of_desc
  source_from job_id source_id (Details.source source) = of_desc job_id source_id source.desc
  source_from job_id source_id _ = empty source_id open_terminator

-- SourceImpl::source_id
unfoldable pub source_id : SourceImpl → ℕ
source_id (kafka k t) = k.connector_id
source_id (empty id t) = id

-- What a source answers, with the source after it; `none` where it waits.
abbrev pub Answer : Type 0
Answer = Option (Option LocalEvent × SourceImpl)

module _ (f : Formats) (text : JsonText) (checks : Bool) (now : ℕ) (fetched : Fetched) where
  abbrev pub from_kafka : Kafka → Terminator → Decoded Answer
  unfolding next_message
  from_kafka k t = map_decoded (λ e. some (e, kafka k t)) (next_message f text checks now k fetched)

  abbrev kafka_next : Kafka → Terminator → List LocalEvent → Decoded Answer
  unfolding from_kafka
  kafka_next k t (e ∷ es) = decoded (some (some e, kafka k (record t { queue = es })))
  kafka_next k t [] =
      if t.closed
      then decoded (some (some (terminate k.job_id k.connector_id now), kafka k t))
      else from_kafka k t

  abbrev pub empty_next : ℕ → Terminator → List LocalEvent → Answer
  empty_next id t (e ∷ es) = some (some e, empty id (record t { queue = es }))
  empty_next id t [] = if t.closed then some (none, empty id t) else none

  -- SourceImpl::next, at a time in milliseconds; `fetched` is what the consumer gets if it is asked
  unfoldable pub next : SourceImpl → Decoded Answer
  unfolding kafka_next
  next (kafka k t) = kafka_next k t t.queue
  next (empty id t) = decoded (empty_next id t t.queue)

  -- SourceImpl::poll_next
  unfoldable pub poll_next : SourceImpl → Decoded Answer
  unfolding from_kafka
  poll_next (kafka k t) = from_kafka k t
  poll_next (empty id t) = decoded (empty_next id t t.queue)

-- SourceImpl::close_source
unfoldable pub close : SourceImpl → SourceImpl
unfolding close_source
close (kafka k t) = kafka (close_source k) (record t { closed = true })
close (empty id t) = empty id (record t { closed = true })
