-- ===== src/Net.antt =====
-- The senders of heartbeats and acks: HeartbeatSender and AckResponder of
-- src/common/src/net/mod.rs, with the ticks of their timers and the calls of their gateways as
-- parameters.
use lightflus.Base.{
  ℕ, zero, suc, ◌+◌, ◌%◌, ◌^◌, Bool, false, true, Option, none, some, List, [], ◌∷◌, ◌++◌,
  if◌then◌else◌, map_option, and_then,
}
use lightflus.Proto.Ids.{SubDataflowId, Timestamp, Heartbeat, Ack}
use lightflus.Futures.{Future, join_all}
pub mod Sending

pub record HeartbeatSender : Type 0 where
  pub execution_id : Option SubDataflowId
  pub current_heartbeat_id : ℕ
  pub task_id : ℕ

-- HeartbeatBuilder::build
unfoldable pub build_sender : ℕ → HeartbeatSender
build_sender task_id = record { execution_id = none; current_heartbeat_id = 0; task_id = task_id }

-- HeartbeatSender::update_execution_id
unfoldable pub update_execution_id : SubDataflowId → HeartbeatSender → HeartbeatSender
update_execution_id execution_id sender = record sender { execution_id = some execution_id }

-- AtomicU64::fetch_add
abbrev pub fetch_add : ℕ → HeartbeatSender → HeartbeatSender
fetch_add n sender = record sender {
  current_heartbeat_id = (sender.current_heartbeat_id + n) % 2 ^ 64;
}

-- the heartbeat that a sender makes at a time; the type of its node is JobManager
abbrev pub heartbeat_at : Timestamp → HeartbeatSender → Heartbeat
heartbeat_at now sender = record {
  heartbeat_id = sender.current_heartbeat_id;
  timestamp = some now;
  node_type = 0;
  subdataflow_id = sender.execution_id;
  task_id = sender.task_id;
}

module _ {R : Type 0} (receive_heartbeat : Heartbeat → Future R) where
  -- HeartbeatSender::poll: the heartbeats that were sent with their answers, at the time of the tick
  -- where the timer is ready. The fuel is for the passes of join_all.
  unfoldable pub poll_sender :
      ℕ → Option Timestamp → HeartbeatSender → Option (HeartbeatSender × List (Heartbeat × R))
  poll_sender fuel none sender = some (sender, [])
  poll_sender fuel (some now) sender =
      let beat = heartbeat_at now sender in
      map_option (λ answers. (fetch_add 1 sender, answered beat answers))
        (join_all fuel (receive_heartbeat beat ∷ []))
    where
      answered : Heartbeat → List R → List (Heartbeat × R)
      answered beat [] = []
      answered beat (r ∷ rs) = (beat, r) ∷ answered beat rs

  -- The sender polled again and again.
  unfoldable pub poll_all :
      ℕ
      → List (Option Timestamp)
      → HeartbeatSender
      → Option (HeartbeatSender × List (Heartbeat × R))
  poll_all fuel [] sender = some (sender, [])
  poll_all fuel (tick ∷ ticks) sender =
      and_then (poll_sender fuel tick sender)
        (λ done. map_option (λ rest. (rest.0, done.1 ++ rest.1)) (poll_all fuel ticks done.0))

-- The queue of acks, and whether all its senders are gone.
pub record AckResponder : Type 0 where
  pub recv : List Ack
  pub closed : Bool

module _ {R : Type 0} (receive_ack : Ack → Future R) where
  -- The loop of AckResponder::poll, which collects a call for every ack that it receives, and asks
  -- a queue that is closed and empty again. The runtime decides how many answers the queue may give
  -- before it answers that nothing is there, whatever is left in it. What is left goes with the
  -- calls.
  unfoldable pub collect_acks : ℕ → Bool → List (Future R) → List Ack → List (Future R) × List Ack
  collect_acks zero closed all_ack_futures recv = (all_ack_futures, recv)
  collect_acks (suc budget) closed all_ack_futures (ack ∷ recv) =
      collect_acks budget closed (all_ack_futures ++ receive_ack ack ∷ []) recv
  collect_acks (suc budget) closed all_ack_futures [] =
      let asked_again = collect_acks budget closed all_ack_futures [] in
      if closed then asked_again else (all_ack_futures, [])

  -- AckResponder::poll, where the timer is ready or not: the answers to the acks that were sent
  unfoldable pub poll_responder : ℕ → ℕ → Bool → AckResponder → Option (AckResponder × List R)
  unfolding collect_acks
  poll_responder fuel budget false responder = some (responder, [])
  poll_responder fuel budget true responder =
      let (futs, left) = collect_acks budget responder.closed [] responder.recv in
      map_option (λ answers. (record responder { recv = left }, answers)) (join_all fuel futs)
