-- ===== src/Gateway/Calls.antt =====
-- The calls of a gateway all go to one client (src/common/src/net/gateway.rs).
use lightflus.Base.{
  ℕ, true, false, Option, none, some, List, [], ◌∷◌, Result, unwrap_or, map_option, is_empty,
  if◌then◌else◌, ◌≡◌, refl, ap, Bool-cases, inl, inr,
}
use lightflus.Proto.Ids.{as_uri, HostAddr, default_host_addr}
use lightflus.Gateway.Api.{RpcApi, with_connection_timeout, connect_with_timeout, client_of, calls}
use lightflus.Gateway.TaskManager
use lightflus.Gateway.TaskManager.{
  SafeTaskManagerRpcGateway, with_timeout, close, default_connect_timeout, default_rpc_timeout,
}
use lightflus.Gateway.Coordinator
use lightflus.Gateway.Coordinator.{SafeCoordinatorRpcGateway}

-- the timeout of a request to a task manager: acks and heartbeats have none
abbrev pub task_manager_timeout : ℕ → TaskManager.Request → Option ℕ
task_manager_timeout rpc_timeout (TaskManager.ack r) = none
task_manager_timeout rpc_timeout (TaskManager.heartbeat r) = none
task_manager_timeout rpc_timeout _ = some rpc_timeout

-- the timeout of a request to the coordinator: the creation of a dataflow has none
abbrev pub coordinator_timeout : Coordinator.Request → Option ℕ
coordinator_timeout (Coordinator.new_dataflow r) = none
coordinator_timeout _ = some default_rpc_timeout

module _ {C R S N : Type 0} (api : RpcApi C TaskManager.Request R S N) where
  -- a gateway that has a client
  abbrev having : C → HostAddr → ℕ → ℕ → SafeTaskManagerRpcGateway C
  having client addr c r = record {
    inner = some client;
    host_addr = addr;
    connect_timeout = c;
    rpc_timeout = r;
  }

  abbrev pub at_end :
      SafeTaskManagerRpcGateway C
      → List (Result S R) × N
      → SafeTaskManagerRpcGateway C × List (Result S R) × N
  at_end g r = (g, r.0, r.1)

  handle-having :
      (client : C) (addr : HostAddr) (c r : ℕ) (q : TaskManager.Request) (net : N)
      → TaskManager.handle api q (having client addr c r) net
        ≡ some (
          having client addr c r,
          (api.call client q (task_manager_timeout r q) net).0,
          (api.call client q (task_manager_timeout r q) net).1,
        )
  unfolding TaskManager.handle TaskManager.receive_ack TaskManager.receive_heartbeat
      TaskManager.send_event_to_operator TaskManager.stop_dataflow TaskManager.create_sub_dataflow
      TaskManager.batch_send_events_to_operator TaskManager.get_sub_dataflow TaskManager.through
      client_of
  handle-having client addr c r (TaskManager.ack q) net = refl
  handle-having client addr c r (TaskManager.heartbeat q) net = refl
  handle-having client addr c r (TaskManager.event q) net = refl
  handle-having client addr c r (TaskManager.stopped_job q) net = refl
  handle-having client addr c r (TaskManager.sub_dataflow q) net = refl
  handle-having client addr c r (TaskManager.events q) net = refl
  handle-having client addr c r (TaskManager.job_states q) net = refl

  run-having :
      (client : C) (addr : HostAddr) (c r : ℕ) (qs : List TaskManager.Request) (net : N)
      → TaskManager.run api qs (having client addr c r) net
        ≡ some (at_end (having client addr c r) (calls api (task_manager_timeout r) client qs net))
  unfolding TaskManager.run calls
  run-having client addr c r [] net = refl
  run-having client addr c r (q ∷ qs) net =
      rw (handle-having client addr c r q net) (rw (run-having client addr c r qs _) refl)

  -- Where the address of a task manager parses, a gateway is made for it without a panic. Requests
  -- through the gateway all go, in order, to the client that was made with it for its address, each
  -- with the gateway's timeout for calls but acks and heartbeats, which have none; the gateway stays
  -- as it is. After the gateway was closed they go on to that client as before.
  pub run-with_timeout :
      (addr : HostAddr) (c r : ℕ) (qs : List TaskManager.Request) (net : N)
      → api.parses (as_uri addr) ≡ true
      → (g : SafeTaskManagerRpcGateway C) × (with_timeout api addr c r ≡ some g)
        × (TaskManager.run api qs g net
            ≡ some (
                at_end g
                  (calls api (task_manager_timeout r) (api.connect_lazy (as_uri addr) c) qs net)))
        × (TaskManager.run api qs (close api g) net
            ≡ some (
                at_end
                  (close api g)
                  (calls api (task_manager_timeout r) (api.connect_lazy (as_uri addr) c) qs net)))
  unfolding with_timeout close with_connection_timeout
  run-with_timeout addr c r qs net parsed = (
    having (api.connect_lazy (as_uri addr) c) addr c r,
    rw parsed refl,
    run-having _ addr c r qs net,
    run-having _ default_host_addr c r qs net,
  )

module _ {C R S N : Type 0} (api : RpcApi C Coordinator.Request R S N) where
  -- a gateway as it is made, with a client or without
  abbrev made : Option C → HostAddr → SafeCoordinatorRpcGateway C
  made inner addr = record {
    inner = inner;
    host_addr = addr;
    rpc_timeout = default_rpc_timeout;
    connect_timeout = default_connect_timeout;
  }

  handle-made :
      (inner : Option C) (addr : HostAddr) (q : Coordinator.Request) (net : N)
      → Coordinator.handle api q (made inner addr) net
        ≡ map_option
            (λ client. (
              made (some client) addr,
              (api.call client q (coordinator_timeout q) net).0,
              (api.call client q (coordinator_timeout q) net).1,
            ))
            (client_of api inner addr default_connect_timeout)
  unfolding Coordinator.handle Coordinator.receive_heartbeat Coordinator.receive_ack
      Coordinator.create_dataflow Coordinator.terminate_dataflow Coordinator.get_dataflow
      Coordinator.through
  handle-made inner addr (Coordinator.heartbeat q) net = refl
  handle-made inner addr (Coordinator.ack q) net = refl
  handle-made inner addr (Coordinator.new_dataflow q) net = refl
  handle-made inner addr (Coordinator.ended_job q) net = refl
  handle-made inner addr (Coordinator.job_states q) net = refl

  -- what requests were answered, and the network after them
  abbrev pub answers :
      Option (SafeCoordinatorRpcGateway C × List (Result S R) × N) → Option (List (Result S R) × N)
  answers done = map_option (λ r. (r.1, r.2)) done

  answers-next :
      (a : Result S R) (done : Option (SafeCoordinatorRpcGateway C × List (Result S R) × N))
      (rs : List (Result S R)) (net : N)
      → answers done ≡ some (rs, net)
      → answers (map_option (λ rest. (rest.0, a ∷ rest.1, rest.2)) done) ≡ some (a ∷ rs, net)
  answers-next a none rs net h = cc
  answers-next a (some done) rs net h = ap (map_option (λ r. (a ∷ r.0, r.1))) h

  kept :
      (client : C) (addr : HostAddr)
      → client_of api (some client) addr default_connect_timeout ≡ some client
  unfolding client_of
  kept client addr = refl

  run-made :
      (inner : Option C) (client : C) (addr : HostAddr) (qs : List Coordinator.Request) (net : N)
      → client_of api inner addr default_connect_timeout ≡ some client
      → answers (Coordinator.run api qs (made inner addr) net)
        ≡ some (calls api coordinator_timeout client qs net)
  unfolding Coordinator.run calls
  run-made inner client addr [] net h = refl
  run-made inner client addr (q ∷ qs) net h =
      rw (handle-made inner addr q net, h)
        (answers-next _ _ _ _ (run-made (some client) client addr qs _ (kept client addr)))

  found :
      (inner : Option C) (addr : HostAddr)
      → api.parses (as_uri addr) ≡ true
      → client_of api inner addr default_connect_timeout
        ≡ some (unwrap_or inner (api.connect_lazy (as_uri addr) default_connect_timeout))
  unfolding client_of with_connection_timeout
  found none addr e = rw e refl
  found (some client) addr e = refl

  no_client :
      (addr : HostAddr) (qs : List Coordinator.Request) (net : N)
      → api.parses (as_uri addr) ≡ false
      → answers (Coordinator.run api qs (made none addr) net)
        ≡ (if is_empty qs then some ([], net) else none)
  unfolding Coordinator.run client_of with_connection_timeout
  no_client addr [] net e = refl
  no_client addr (q ∷ qs) net e = rw (handle-made none addr q net, e) refl

  -- Requests through a new gateway to the coordinator all go, in order, to one client, each with
  -- the timeout for calls but the creation of a dataflow, which has none: to the client that was
  -- connected, or where that failed to one that is made for the address without waiting. Where the
  -- address does not parse, the first request panics.
  pub run-new :
      (addr : HostAddr) (qs : List Coordinator.Request) (net : N)
      → answers
          (Coordinator.run api qs (Coordinator.new api addr net).0 (Coordinator.new api addr net).1)
        ≡ (if api.parses (as_uri addr)
            then some (
                calls api coordinator_timeout
                  (unwrap_or (api.connect (as_uri addr) 3 net).0 (api.connect_lazy (as_uri addr) 3))
                  qs
                  (api.connect (as_uri addr) 3 net).1)
            else if is_empty qs
            then some ([], net)
            else none)
  unfolding Coordinator.new connect_with_timeout
  run-new addr qs net = elim (Bool-cases (api.parses (as_uri addr))) [
    | inl e ↦ rw e (run-made _ _ addr qs _ (found (api.connect (as_uri addr) 3 net).0 addr e))
    | inr e ↦ rw e (no_client addr qs net e)
  ]
