-- ===== src/Proto/Graph.antt =====
-- The description of a dataflow: the messages of proto/common/stream.proto as
-- src/proto/src/common.rs declares them, and the accessors of src/proto/src/common_impl.rs.
use lightflus.Base.{ℕ, Bool, true, false, Option, none, some, List, [], Str, and_then, unwrap_or}
use lightflus.Base.{if◌then◌else◌, ◌==◌}
use lightflus.Base.HashMap.{HashMap}
use lightflus.Proto.Ids.{
  ResourceId, HostAddr, SubDataflowId, default_resource_id, default_host_addr,
}

pub data DataTypeEnum : Type 0 where
  unspecified bigint number null string boolean object array : DataTypeEnum

-- DataTypeEnum::from_i32
unfoldable pub from_i32 : ℕ → Option DataTypeEnum
from_i32 n =
    if n == 0
    then some unspecified
    else if n == 1
    then some bigint
    else if n == 2
    then some number
    else if n == 3
    then some null
    else if n == 4
    then some string
    else if n == 5
    then some boolean
    else if n == 6
    then some object
    else if n == 7
    then some array
    else none

-- `data_type as i32`
abbrev pub to_i32 : DataTypeEnum → ℕ
to_i32 unspecified = 0
to_i32 bigint = 1
to_i32 number = 2
to_i32 null = 3
to_i32 string = 4
to_i32 boolean = 5
to_i32 object = 6
to_i32 array = 7

pub record Func : Type 0 where
  pub function : Str

-- The messages whose `oneof value` has the one variant `func`
pub record Mapper : Type 0 where
  pub value : Option Func

pub record Filter : Type 0 where
  pub value : Option Func

pub record KeyBy : Type 0 where
  pub value : Option Func

pub record Reducer : Type 0 where
  pub value : Option Func

pub record FlatMap : Type 0 where
  pub value : Option Func

pub record KafkaOptions : Type 0 where
  pub group : Option Str
  pub partition : Option ℕ

pub record KafkaDesc : Type 0 where
  pub brokers : List Str
  pub topic : Str
  pub opts : Option KafkaOptions
  pub data_type : ℕ

pub record MysqlConnectionOpts : Type 0 where
  pub host : Str
  pub username : Str
  pub password : Str
  pub database : Str

pub record Extractor : Type 0 where
  pub index : ℕ
  pub extractor : Str

pub record Statement : Type 0 where
  pub statement : Str
  pub extractors : List Extractor

pub record MysqlDesc : Type 0 where
  pub connection_opts : Option MysqlConnectionOpts
  pub statement : Option Statement

pub record RedisConnectionOpts : Type 0 where
  pub host : Str
  pub username : Str
  pub password : Str
  pub database : ℕ
  pub tls : Bool

pub record RedisDesc : Type 0 where
  pub connection_opts : Option RedisConnectionOpts
  pub key_extractor : Option Func
  pub value_extractor : Option Func

pub data SinkDesc : Type 0 where
  kafka : KafkaDesc → SinkDesc
  mysql : MysqlDesc → SinkDesc
  redis : RedisDesc → SinkDesc

pub record Sink : Type 0 where
  pub desc : Option SinkDesc
  pub delivery_guarentee : ℕ

pub data SourceDesc : Type 0 where
  kafka : KafkaDesc → SourceDesc

pub record Source : Type 0 where
  pub desc : Option SourceDesc

pub record Time : Type 0 where
  pub millis : ℕ
  pub seconds : ℕ
  pub minutes : ℕ
  pub hours : ℕ

pub data WindowValue : Type 0 where
  fixed : Option Time → WindowValue
  slide : Option Time → Option Time → WindowValue
  session : Option Time → WindowValue

pub record Trigger : Type 0 where
  pub trigger_time : Option (Option Time)

pub record Window : Type 0 where
  pub value : Option WindowValue
  pub trigger : Option Trigger

pub data Details : Type 0 where
  source : Source → Details
  sink : Sink → Details
  mapper : Mapper → Details
  filter : Filter → Details
  key_by : KeyBy → Details
  reducer : Reducer → Details
  flat_map : FlatMap → Details
  window : Window → Details

pub record OperatorInfo : Type 0 where
  pub operator_id : ℕ
  pub host_addr : Option HostAddr
  pub upstreams : List ℕ
  pub details : Option Details

pub record DataflowMeta : Type 0 where
  pub center : ℕ
  pub neighbors : List ℕ

pub record Dataflow : Type 0 where
  pub job_id : Option ResourceId
  pub meta : List DataflowMeta
  pub nodes : HashMap ℕ OperatorInfo
  pub execution_id : Option SubDataflowId

-- Dataflow::default
abbrev pub default_dataflow : Dataflow
default_dataflow = record { job_id = none; meta = []; nodes = []; execution_id = none }

abbrev pub is_source : Details → Bool
is_source (source s) = true
is_source _ = false

abbrev pub is_sink : Details → Bool
is_sink (sink s) = true
is_sink _ = false

-- OperatorInfo::has_source
unfoldable pub has_source : OperatorInfo → Bool
has_source info = elim info.details [ none ↦ false | some d ↦ is_source d ]

-- OperatorInfo::has_sink
unfoldable pub has_sink : OperatorInfo → Bool
has_sink info = elim info.details [ none ↦ false | some d ↦ is_sink d ]

-- OperatorInfo::get_host_addr
unfoldable pub get_host_addr : OperatorInfo → HostAddr
get_host_addr info = unwrap_or info.host_addr default_host_addr

-- Dataflow::get_job_id
unfoldable pub get_job_id : Dataflow → ResourceId
get_job_id d = unwrap_or d.job_id default_resource_id

-- KafkaDesc::get_kafka_group, KafkaDesc::get_kafka_partition
unfoldable pub get_kafka_group : KafkaDesc → Str
get_kafka_group k = unwrap_or (and_then k.opts (λ o. o.group)) []

unfoldable pub get_kafka_partition : KafkaDesc → ℕ
get_kafka_partition k = unwrap_or (and_then k.opts (λ o. o.partition)) 0

-- KafkaDesc::data_type, the accessor of the field
unfoldable pub kafka_data_type : KafkaDesc → DataTypeEnum
unfolding from_i32
kafka_data_type k = unwrap_or (from_i32 k.data_type) unspecified

-- MysqlDesc::get_mysql_statement
unfoldable pub get_mysql_statement : MysqlDesc → Statement
get_mysql_statement m = unwrap_or m.statement (record { statement = []; extractors = [] })
