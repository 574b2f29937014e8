-- ===== src/Connector/Errors.antt =====
-- The errors of sinks: src/stream/src/err.rs, without the texts of their messages.
use lightflus.Base.{ℕ}

pub data ErrorKind : Type 0 where
  kafka_message_send_failed sql_execution_failed redis_sink_failed : ErrorKind

-- SinkException, by its kind
abbrev pub SinkException : Type 0
SinkException = ErrorKind

pub record BatchSinkException : Type 0 where
  pub error : SinkException
  pub event_id : ℕ

-- From<sqlx::Error> and From<RedisException> for BatchSinkException
abbrev pub of_batch : SinkException → BatchSinkException
of_batch e = record { error = e; event_id = 0 }
