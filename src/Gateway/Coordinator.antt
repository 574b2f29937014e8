-- ===== src/Gateway/Coordinator.antt =====
-- The client of the coordinator: the module coordinator of src/common/src/net/gateway.rs.
-- A panic is `none`.
use lightflus.Base.{ℕ, Option, none, some, List, [], ◌∷◌, Result, and_then, map_option}
use lightflus.Proto.Ids.{as_uri, HostAddr, ResourceId, Heartbeat, Ack}
use lightflus.Proto.Graph.{Dataflow}
use lightflus.Gateway.Api.{RpcApi, connect_with_timeout, client_of}
use lightflus.Gateway.TaskManager.{default_connect_timeout, default_rpc_timeout}

-- the requests that the coordinator answers; that of get_dataflow has the id of a job
pub data Request : Type 0 where
  heartbeat : Heartbeat → Request
  ack : Ack → Request
  new_dataflow : Dataflow → Request
  ended_job : ResourceId → Request
  job_states : Option ResourceId → Request

pub record SafeCoordinatorRpcGateway (C : Type 0) : Type 0 where
  pub inner : Option C
  pub host_addr : HostAddr
  pub rpc_timeout : ℕ
  pub connect_timeout : ℕ

module _ {C R S N : Type 0} (api : RpcApi C Request R S N) where
  open api use {call}

  -- SafeCoordinatorRpcGateway::new, which waits for the connection
  unfoldable pub new : HostAddr → N → SafeCoordinatorRpcGateway C × N
  new host_addr net =
      let r = connect_with_timeout api (as_uri host_addr) default_connect_timeout net in
      (
        record {
          inner = r.0;
          host_addr = host_addr;
          rpc_timeout = default_rpc_timeout;
          connect_timeout = default_connect_timeout;
        },
        r.1,
      )

  -- a call through the client, which is made with a timeout where there is none
  unfoldable pub through :
      ℕ
      → Request
      → Option ℕ
      → SafeCoordinatorRpcGateway C
      → N
      → Option (SafeCoordinatorRpcGateway C × Result S R × N)
  unfolding client_of
  through connect_timeout request timeout g net =
      map_option
        (λ client.
          let r = call client request timeout net in (record g { inner = some client }, r.0, r.1))
        (client_of api g.inner g.host_addr connect_timeout)

  -- SafeCoordinatorRpcGateway::receive_heartbeat
  unfoldable pub receive_heartbeat :
      Heartbeat
      → SafeCoordinatorRpcGateway C
      → N
      → Option (SafeCoordinatorRpcGateway C × Result S R × N)
  unfolding through
  receive_heartbeat r g net =
      through default_connect_timeout (heartbeat r) (some g.rpc_timeout) g net

  -- SafeCoordinatorRpcGateway::receive_ack
  unfoldable pub receive_ack :
      Ack → SafeCoordinatorRpcGateway C → N → Option (SafeCoordinatorRpcGateway C × Result S R × N)
  unfolding through
  receive_ack r g net = through default_connect_timeout (ack r) (some g.rpc_timeout) g net

  -- SafeCoordinatorRpcGateway::create_dataflow
  unfoldable pub create_dataflow :
      Dataflow
      → SafeCoordinatorRpcGateway C
      → N
      → Option (SafeCoordinatorRpcGateway C × Result S R × N)
  unfolding through
  create_dataflow r g net = through g.connect_timeout (new_dataflow r) none g net

  -- SafeCoordinatorRpcGateway::terminate_dataflow
  unfoldable pub terminate_dataflow :
      ResourceId
      → SafeCoordinatorRpcGateway C
      → N
      → Option (SafeCoordinatorRpcGateway C × Result S R × N)
  unfolding through
  terminate_dataflow r g net = through g.connect_timeout (ended_job r) (some g.rpc_timeout) g net

  -- SafeCoordinatorRpcGateway::get_dataflow
  unfoldable pub get_dataflow :
      Option ResourceId
      → SafeCoordinatorRpcGateway C
      → N
      → Option (SafeCoordinatorRpcGateway C × Result S R × N)
  unfolding through
  get_dataflow r g net = through g.connect_timeout (job_states r) (some g.rpc_timeout) g net

  -- the method that sends a request
  unfoldable pub handle :
      Request
      → SafeCoordinatorRpcGateway C
      → N
      → Option (SafeCoordinatorRpcGateway C × Result S R × N)
  unfolding receive_heartbeat receive_ack create_dataflow terminate_dataflow get_dataflow
  handle (heartbeat r) g net = receive_heartbeat r g net
  handle (ack r) g net = receive_ack r g net
  handle (new_dataflow r) g net = create_dataflow r g net
  handle (ended_job r) g net = terminate_dataflow r g net
  handle (job_states r) g net = get_dataflow r g net

  -- requests one after the other
  unfoldable pub run :
      List Request
      → SafeCoordinatorRpcGateway C
      → N
      → Option (SafeCoordinatorRpcGateway C × List (Result S R) × N)
  unfolding handle
  run [] g net = some (g, [], net)
  run (q ∷ qs) g net =
      and_then (handle q g net)
        (λ r. map_option (λ rest. (rest.0, r.1 ∷ rest.1, rest.2)) (run qs r.0 r.2))
