-- ===== src/Connector/Sink.antt =====
-- SinkImpl of src/stream/src/connector.rs. A panic is `none` where a sink is made.
use lightflus.Base.{ℕ, Option, none, some, List, Result, ok, map_option}
use lightflus.Proto.Ids.{ResourceId}
use lightflus.Proto.Graph.{Details, SinkDesc, OperatorInfo}
use lightflus.Proto.Event.{KeyedEventSet, LocalEvent}
use lightflus.Types.{TypedValue, Formats, Decoded, decoded, map_decoded, JsonText}
use lightflus.Connector.Errors.{SinkException, BatchSinkException}
use lightflus.Connector.Extract.{Scripts}
use lightflus.Connector.Kafka
use lightflus.Connector.Kafka.{Kafka, Rdkafka, with_sink_config}
use lightflus.Connector.KafkaSink
use lightflus.Connector.KafkaSink.{FutureRecord}
use lightflus.Connector.Mysql
use lightflus.Connector.Mysql.{Mysql, Query}
use lightflus.Connector.Redis.{RedisApi}
use lightflus.Connector.RedisSink
use lightflus.Connector.RedisSink.{Redis}

pub data SinkImpl : Type 0 where
  kafka : Kafka → SinkImpl
  mysql : Mysql → SinkImpl
  redis : Redis → SinkImpl
  empty : ℕ → SinkImpl

module _ (rdkafka : Rdkafka) (redis_api : RedisApi) (hash : ResourceId → ℕ) where
  abbrev of_desc : ResourceId → ℕ → Option SinkDesc → Option SinkImpl
  unfolding with_sink_config Mysql.with_config RedisSink.with_config
  of_desc job_id id none = some (empty id)
  of_desc job_id id (some (SinkDesc.kafka desc)) =
      some (kafka (with_sink_config rdkafka hash job_id id desc))
  of_desc job_id id (some (SinkDesc.mysql desc)) = some (mysql (Mysql.with_config id desc))
  of_desc job_id id (some (SinkDesc.redis desc)) =
      map_option redis (RedisSink.with_config redis_api id desc)

  abbrev of_details : ResourceId → ℕ → Option Details → Option SinkImpl
  unfolding of_desc
  of_details job_id id none = some (empty id)
  of_details job_id id (some (Details.sink sink)) = of_desc job_id id sink.desc
  of_details job_id id (some _) = none

  -- From<(&ResourceId, &OperatorInfo)> for SinkImpl, which is `todo!()` for an operator of another
  -- kind and panics where the client of Redis does
  unfoldable pub sink_from : ResourceId → OperatorInfo → Option SinkImpl
  unfolding of_details
  sink_from job_id info = of_details job_id info.operator_id info.details

-- SinkImpl::sink_id
unfoldable pub sink_id : SinkImpl → ℕ
sink_id (kafka k) = k.connector_id
sink_id (mysql m) = m.connector_id
sink_id (redis r) = r.connector_id
sink_id (empty id) = id

-- SinkImpl::close_sink
unfoldable pub close : SinkImpl → SinkImpl
unfolding Kafka.close_sink Mysql.close_sink RedisSink.close_sink
close (kafka k) = kafka (Kafka.close_sink k)
close (mysql m) = mysql (Mysql.close_sink m)
close (redis r) = redis (RedisSink.close_sink r)
close (empty id) = empty id

-- What was sent to the outside.
pub data Sent : Type 0 where
  records : List FutureRecord → Sent
  queries : List Query → Sent
  pairs : List (TypedValue × TypedValue) → Sent
  nothing : Sent

-- How the three systems answer.
pub record Systems : Type 0 where
  pub broker : FutureRecord → Result (Unit {0}) (Unit {0})
  pub database : Query → Result (Unit {0}) (Unit {0})
  pub server : List (TypedValue × TypedValue) → Result (Unit {0}) (Unit {0})

module _ (f : Formats) (text : JsonText) (scripts : Scripts) (systems : Systems) (now : ℕ) where
  open systems use {broker, database, server}

  -- SinkImpl::sink
  unfoldable pub sink : SinkImpl → LocalEvent → Decoded (Sent × Result SinkException (Unit {0}))
  unfolding KafkaSink.sink Mysql.sink RedisSink.sink
  sink (kafka k) msg =
      map_decoded (λ done. (records done.0, done.1)) (KafkaSink.sink broker f text now k msg)
  sink (mysql m) msg =
      map_decoded (λ done. (queries done.0, done.1)) (Mysql.sink f scripts database m msg)
  sink (redis r) msg =
      map_decoded (λ done. (pairs done.0, done.1)) (RedisSink.sink f scripts server r msg)
  sink (empty id) msg = decoded (nothing, ok tt)

  -- SinkImpl::batch_sink
  unfoldable pub batch_sink :
      SinkImpl → KeyedEventSet → Decoded (Sent × Result BatchSinkException (Unit {0}))
  unfolding KafkaSink.batch_sink Mysql.batch_sink RedisSink.batch_sink
  batch_sink (kafka k) event_set =
      map_decoded (λ done. (records done.0, done.1))
        (KafkaSink.batch_sink broker f text now k event_set)
  batch_sink (mysql m) event_set =
      map_decoded (λ done. (queries done.0, done.1))
        (Mysql.batch_sink f scripts database m event_set)
  batch_sink (redis r) event_set =
      map_decoded (λ done. (pairs done.0, done.1))
        (RedisSink.batch_sink f scripts server r event_set)
  batch_sink (empty id) event_set = decoded (nothing, ok tt)
