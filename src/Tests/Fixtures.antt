-- ===== src/Tests/Fixtures.antt =====
-- A job of three operators on two workers: a Kafka source, a mapper and a Redis sink.
use Prim.Native.Char.{code}
use Prim.Native.String.{String}
use lightflus.Base.{ℕ, false, none, some, List, [], ◌∷◌, Str}
use lightflus.Proto.Ids.{ResourceId, HostAddr}
use lightflus.Proto.Graph.{
  KafkaDesc, RedisDesc, SourceDesc, SinkDesc, Details, OperatorInfo, DataflowMeta, Dataflow,
}

-- The bytes of an ASCII text.
abbrev pub bytes : String → Str
bytes String.[] = []
bytes (String.◌∷◌ c s) = code c ∷ bytes s

abbrev pub job : ResourceId
job = record { resource_id = bytes "count"; namespace_id = bytes "demo" }

abbrev pub left : HostAddr
left = record { host = bytes "left"; port = 8792 }

abbrev pub right : HostAddr
right = record { host = bytes "right"; port = 8792 }

abbrev pub kafka : KafkaDesc
kafka = record {
  brokers = bytes "kafka:9092" ∷ [];
  topic = bytes "words";
  opts = none;
  data_type = 4;
}

abbrev pub redis : RedisDesc
redis = record {
  connection_opts =
      some
        (record { host = bytes "redis"; username = []; password = []; database = 0; tls = false });
  key_extractor = some (record { function = bytes "k" });
  value_extractor = some (record { function = bytes "v" });
}

abbrev pub operator : ℕ → HostAddr → Details → OperatorInfo
operator id addr details = record {
  operator_id = id;
  host_addr = some addr;
  upstreams = [];
  details = some details;
}

abbrev pub nodes : List (ℕ × OperatorInfo)
nodes =
    (1, operator 1 left (Details.source (record { desc = some (SourceDesc.kafka kafka) })))
    ∷ (2, operator 2 right (Details.mapper (record { value = none })))
    ∷ (
      3,
      operator 3 left
          (Details.sink (record { desc = some (SinkDesc.redis redis); delivery_guarentee = 0 })),
    )
    ∷ []

abbrev pub metas : List DataflowMeta
metas =
    record { center = 2; neighbors = 3 ∷ [] }
    ∷ record { center = 1; neighbors = 2 ∷ [] }
    ∷ record { center = 3; neighbors = [] }
    ∷ []

abbrev pub words : Dataflow
words = record { job_id = some job; meta = metas; nodes = nodes; execution_id = none }

-- The same job with the mapper as its own neighbor.
abbrev pub looping : DataflowMeta
looping = record { center = 2; neighbors = 2 ∷ [] }

abbrev pub loop : Dataflow
loop = record words { meta = looping ∷ [] }
