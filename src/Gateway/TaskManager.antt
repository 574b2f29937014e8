-- ===== src/Gateway/TaskManager.antt =====
-- The clients of task managers: the module taskmanager of src/common/src/net/gateway.rs. A
-- panic is `none`.
use lightflus.Base.{ℕ, Option, none, some, List, [], ◌∷◌, Result, and_then, map_option}
use lightflus.Proto.Ids.{as_uri, HostAddr, ResourceId, Heartbeat, Ack, default_host_addr}
use lightflus.Proto.Event.{KeyedDataEvent, KeyedEventSet}
use lightflus.Coordinator.{CreateSubDataflowRequest}
use lightflus.Gateway.Api.{RpcApi, with_connection_timeout, client_of}

-- the requests that task managers answer
pub data Request : Type 0 where
  ack : Ack → Request
  heartbeat : Heartbeat → Request
  event : KeyedDataEvent → Request
  stopped_job : ResourceId → Request
  sub_dataflow : CreateSubDataflowRequest → Request
  events : KeyedEventSet → Request
  job_states : ResourceId → Request

abbrev pub default_connect_timeout : ℕ
default_connect_timeout = 3

abbrev pub default_rpc_timeout : ℕ
default_rpc_timeout = 3

-- A mutex of the gateway is held for the whole of a call, so calls come one after the other.
pub record SafeTaskManagerRpcGateway (C : Type 0) : Type 0 where
  pub inner : Option C
  pub host_addr : HostAddr
  pub connect_timeout : ℕ
  pub rpc_timeout : ℕ

module _ {C R S N : Type 0} (api : RpcApi C Request R S N) where
  open api use {call}

  -- SafeTaskManagerRpcGateway::with_timeout
  unfoldable pub with_timeout : HostAddr → ℕ → ℕ → Option (SafeTaskManagerRpcGateway C)
  with_timeout host_addr connect_timeout rpc_timeout =
      map_option
        (λ client. record {
          inner = some client;
          host_addr = host_addr;
          connect_timeout = connect_timeout;
          rpc_timeout = rpc_timeout;
        })
        (with_connection_timeout api (as_uri host_addr) connect_timeout)

  -- SafeTaskManagerRpcGateway::new
  unfoldable pub new : HostAddr → Option (SafeTaskManagerRpcGateway C)
  unfolding with_timeout
  new host_addr = with_timeout host_addr default_connect_timeout default_rpc_timeout

  -- a call through the client, which is made with a timeout where there is none
  unfoldable pub through :
      ℕ
      → Request
      → Option ℕ
      → SafeTaskManagerRpcGateway C
      → N
      → Option (SafeTaskManagerRpcGateway C × Result S R × N)
  unfolding client_of
  through connect_timeout request timeout g net =
      map_option
        (λ client.
          let r = call client request timeout net in (record g { inner = some client }, r.0, r.1))
        (client_of api g.inner g.host_addr connect_timeout)

  -- SafeTaskManagerRpcGateway::receive_ack
  unfoldable pub receive_ack :
      Ack → SafeTaskManagerRpcGateway C → N → Option (SafeTaskManagerRpcGateway C × Result S R × N)
  unfolding through
  receive_ack r g net = through default_connect_timeout (ack r) none g net

  -- SafeTaskManagerRpcGateway::receive_heartbeat
  unfoldable pub receive_heartbeat :
      Heartbeat
      → SafeTaskManagerRpcGateway C
      → N
      → Option (SafeTaskManagerRpcGateway C × Result S R × N)
  unfolding through
  receive_heartbeat r g net = through default_connect_timeout (heartbeat r) none g net

  -- SafeTaskManagerRpcGateway::send_event_to_operator
  unfoldable pub send_event_to_operator :
      KeyedDataEvent
      → SafeTaskManagerRpcGateway C
      → N
      → Option (SafeTaskManagerRpcGateway C × Result S R × N)
  unfolding through
  send_event_to_operator r g net = through g.connect_timeout (event r) (some g.rpc_timeout) g net

  -- SafeTaskManagerRpcGateway::stop_dataflow
  unfoldable pub stop_dataflow :
      ResourceId
      → SafeTaskManagerRpcGateway C
      → N
      → Option (SafeTaskManagerRpcGateway C × Result S R × N)
  unfolding through
  stop_dataflow r g net = through g.connect_timeout (stopped_job r) (some g.rpc_timeout) g net

  -- SafeTaskManagerRpcGateway::create_sub_dataflow
  unfoldable pub create_sub_dataflow :
      CreateSubDataflowRequest
      → SafeTaskManagerRpcGateway C
      → N
      → Option (SafeTaskManagerRpcGateway C × Result S R × N)
  unfolding through
  create_sub_dataflow r g net =
      through g.connect_timeout (sub_dataflow r) (some g.rpc_timeout) g net

  -- SafeTaskManagerRpcGateway::batch_send_events_to_operator
  unfoldable pub batch_send_events_to_operator :
      KeyedEventSet
      → SafeTaskManagerRpcGateway C
      → N
      → Option (SafeTaskManagerRpcGateway C × Result S R × N)
  unfolding through
  batch_send_events_to_operator r g net =
      through g.connect_timeout (events r) (some g.rpc_timeout) g net

  -- SafeTaskManagerRpcGateway::get_sub_dataflow
  unfoldable pub get_sub_dataflow :
      ResourceId
      → SafeTaskManagerRpcGateway C
      → N
      → Option (SafeTaskManagerRpcGateway C × Result S R × N)
  unfolding through
  get_sub_dataflow r g net = through g.connect_timeout (job_states r) (some g.rpc_timeout) g net

  -- the method that sends a request
  unfoldable pub handle :
      Request
      → SafeTaskManagerRpcGateway C
      → N
      → Option (SafeTaskManagerRpcGateway C × Result S R × N)
  unfolding receive_ack receive_heartbeat send_event_to_operator stop_dataflow create_sub_dataflow
      batch_send_events_to_operator get_sub_dataflow
  handle (ack r) g net = receive_ack r g net
  handle (heartbeat r) g net = receive_heartbeat r g net
  handle (event r) g net = send_event_to_operator r g net
  handle (stopped_job r) g net = stop_dataflow r g net
  handle (sub_dataflow r) g net = create_sub_dataflow r g net
  handle (events r) g net = batch_send_events_to_operator r g net
  handle (job_states r) g net = get_sub_dataflow r g net

  -- SafeTaskManagerRpcGateway::close; what it drops is a reference, and the client stays
  unfoldable pub close : SafeTaskManagerRpcGateway C → SafeTaskManagerRpcGateway C
  close g = record g { host_addr = default_host_addr }

  -- requests one after the other
  unfoldable pub run :
      List Request
      → SafeTaskManagerRpcGateway C
      → N
      → Option (SafeTaskManagerRpcGateway C × List (Result S R) × N)
  unfolding handle
  run [] g net = some (g, [], net)
  run (q ∷ qs) g net =
      and_then (handle q g net)
        (λ r. map_option (λ rest. (rest.0, r.1 ∷ rest.1, rest.2)) (run qs r.0 r.2))
