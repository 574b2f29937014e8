-- ===== src/Worker/Defs.antt =====
-- Tasks and their edges: src/stream/src/task.rs, and `is_remote_operator` of
-- src/common/src/utils.rs.
use lightflus.Base.{
  ℕ, suc, Bool, false, Option, none, some, List, [], ◌∷◌, Str, Ordering, compare, if◌then◌else◌,
  ltb, same, list_ord, nat_ord, map_option, and_then, not,
}
use lightflus.Base.BTreeMap
use lightflus.Base.BTreeMap.{BTreeMap}
use lightflus.Base.Word.{opens_channel}
use lightflus.Proto.Ids.{ResourceId, HostAddr, as_uri, Heartbeat, ExecutorInfo, ExecutorStatus}
use lightflus.Connector.Kafka.{Rdkafka}
use lightflus.Connector.Redis.{RedisApi}
use lightflus.Connector.Sink.{sink_from}
use lightflus.Proto.Graph.{Details, OperatorInfo, DataflowMeta, has_source}

-- `vec.iter().collect::<BTreeSet<_>>()`, a set as the ascending list of its elements
abbrev place_id : Ordering → ℕ → ℕ → List ℕ → List ℕ → List ℕ
place_id Ordering.lt n m ns rest = n ∷ m ∷ ns
place_id Ordering.eq n m ns rest = m ∷ ns
place_id Ordering.gt n m ns rest = m ∷ rest

unfoldable pub add_id : ℕ → List ℕ → List ℕ
add_id n [] = n ∷ []
add_id n (m ∷ ns) = place_id (compare n m) n m ns (add_id n ns)

unfoldable pub id_set : List ℕ → List ℕ
unfolding add_id
id_set [] = []
id_set (n ∷ ns) = add_id n (id_set ns)

-- utils::is_remote_operator; the host name, where the system tells it, is a parameter
abbrev other_host : Option Str → HostAddr → Bool
other_host none addr = false
other_host (some host) addr = not (same addr.host host)

abbrev localhost : Str
localhost = 108 ∷ 111 ∷ 99 ∷ 97 ∷ 108 ∷ 104 ∷ 111 ∷ 115 ∷ 116 ∷ []

abbrev is_remote_addr : Option Str → Option HostAddr → Bool
is_remote_addr hostname none = false
is_remote_addr hostname (some addr) =
    if same addr.host localhost then false else other_host hostname addr

unfoldable pub is_remote_operator : Option Str → OperatorInfo → Bool
is_remote_operator hostname operator = is_remote_addr hostname operator.host_addr

-- What a task manager meets where it builds a worker: the name of its host, the size of a channel,
-- whether tonic parses the address of a gateway, and the clients of Kafka and Redis.
pub record Host : Type 0 where
  pub hostname : Option Str
  pub channel_size : ℕ
  pub parses : Str → Bool
  pub rdkafka : Rdkafka
  pub redis : RedisApi
  pub hash : ResourceId → ℕ

-- The end of an edge that is written, and the end that is read. A channel is its number; a remote
-- edge is the address its gateway calls.
pub data OutEdge : Type 0 where
  local_out : ℕ → OutEdge
  remote_out : HostAddr → OutEdge

pub data InEdge : Type 0 where
  local_in : ℕ → InEdge

pub data EdgeBuilder : Type 0 where
  local : ℕ → EdgeBuilder
  remote : HostAddr → EdgeBuilder

-- The number of the next channel, and the builders.
pub record Channels : Type 0 where
  pub next : ℕ
  pub builders : BTreeMap ℕ EdgeBuilder

-- EdgeBuilder::local, which opens a channel, kept for an executor; a size that tokio refuses is a
-- panic
abbrev pub open_channel : ℕ → Channels → Channels
open_channel id c = record {
  next = suc c.next;
  builders = BTreeMap.insert id (local c.next) c.builders;
}

unfoldable pub local_builder : Host → ℕ → Channels → Option Channels
local_builder host id c = if opens_channel host.channel_size then some (open_channel id c) else none

-- EdgeBuilder::remote, which panics without an address, and whose gateway panics on an address that
-- does not parse
unfoldable pub remote_builder : Host → ℕ → OperatorInfo → Channels → Option Channels
unfolding as_uri
remote_builder host id operator c = and_then operator.host_addr (λ addr.
    if host.parses (as_uri addr)
    then some (record c { builders = BTreeMap.insert id (remote addr) c.builders })
    else none)

-- the external sink of an operator, which panics where SinkImpl::from does
unfoldable pub external_sink : Host → ResourceId → OperatorInfo → Option (ResourceId × OperatorInfo)
unfolding sink_from
external_sink host job_id operator =
    map_option (λ made. (job_id, operator))
      (sink_from host.rdkafka host.redis host.hash job_id operator)

-- EdgeBuilder::build_out_edge
unfoldable pub build_out_edge : EdgeBuilder → OutEdge
build_out_edge (local channel) = local_out channel
build_out_edge (remote addr) = remote_out addr

-- EdgeBuilder::build_in_edge
unfoldable pub build_in_edge : EdgeBuilder → Option InEdge
build_in_edge (local channel) = some (local_in channel)
build_in_edge (remote addr) = none

-- A source or a sink is kept as what it is made from: SourceImpl::from, SinkImpl::from.
pub record StreamExecutor : Type 0 where
  pub external_sinks : List (ResourceId × OperatorInfo)
  pub executor_id : ℕ
  pub out_edges : BTreeMap ℕ OutEdge
  pub in_edge : Option InEdge
  pub source : Option (ResourceId × ℕ × Details)
  pub operator_details : Details
  pub job_id : ResourceId

-- The executor is what `main_executor_handle` runs.
pub record Task : Type 0 where
  pub executor_id : ℕ
  pub job_id : ResourceId
  pub executor : Option StreamExecutor
  pub downstream : List ℕ
  pub last_receive_heartbeat_id : ℕ
  pub in_edge : Option OutEdge
  pub states : ExecutorInfo

-- Task::new
unfoldable pub new_task : ResourceId → DataflowMeta → Task
unfolding id_set
new_task job_id m = record {
  executor_id = m.center;
  job_id = job_id;
  executor = none;
  downstream = id_set m.neighbors;
  last_receive_heartbeat_id = 0;
  in_edge = none;
  states = record { executor_id = m.center; status = ExecutorStatus.initialized };
}

abbrev pub new_executor : Task → OperatorInfo → Details → StreamExecutor
new_executor task operator details = record {
  external_sinks = [];
  executor_id = task.executor_id;
  out_edges = [];
  in_edge = none;
  source = if has_source operator then some (task.job_id, operator.operator_id, details) else none;
  operator_details = details;
  job_id = task.job_id;
}

-- Task::create_stream_executor; `none` is the panic where the details are missing
unfoldable pub create_stream_executor : Task → OperatorInfo → Option StreamExecutor
create_stream_executor task operator = map_option (new_executor task operator) operator.details

-- AtomicU64::fetch_max stores the greater value and answers the old one
abbrev fetch_max : ℕ → ℕ → ℕ × ℕ
fetch_max id cell = (cell, (if ltb cell id then id else cell))

-- Task::receive_heartbeat: the answer of `fetch_max` is stored
unfoldable pub receive_heartbeat : Heartbeat → Task → Task
receive_heartbeat heartbeat task =
    let (answer, cell) = fetch_max heartbeat.heartbeat_id task.last_receive_heartbeat_id in
    record task { last_receive_heartbeat_id = answer }
