-- ===== src/Tests/Net.antt =====
-- Futures that are joined, a sender of heartbeats and a responder of acks, on a gateway that
-- answers after two polls.
use lightflus.Base.{
  ℕ, true, false, Option, none, some, List, [], ◌∷◌, ◌++◌, ◌≡◌, refl, map, take, drop, arith, ◌+◌,
  ◌%◌, ◌^◌,
}
use lightflus.Proto.Ids.{Timestamp, Ack, default_sub_dataflow_id}
use lightflus.Futures.{Future, now, later, never, join_all, passes, pass}
use lightflus.Futures.Joining.{settle, settle_all, total, join_all-settle_all, join_all-never}
use lightflus.Net.{
  HeartbeatSender, build_sender, update_execution_id, poll_all, AckResponder, poll_responder,
}
use lightflus.Net.Sending.{heard, acked, beats, count_ready, poll_all_lem, poll_responder_lem}

abbrev answers : List (ℕ × ℕ)
answers = (2, 7) ∷ (0, 8) ∷ (1, 9) ∷ []

abbrev waiting : List (Future ℕ)
waiting = later (later (now 7)) ∷ now 8 ∷ later (now 9) ∷ []

joined : join_all 4 waiting ≡ some (7 ∷ 8 ∷ 9 ∷ [])
unfolding join_all passes pass
joined = refl

too_few : join_all 3 (settle_all answers) ≡ none
unfolding join_all settle_all passes pass settle
too_few = refl

join_all-settle_all_example : join_all 4 (settle_all answers) ≡ some (map (λ a. a.1) answers)
unfolding total
join_all-settle_all_example = join_all-settle_all answers 4 (omega arith)

blocked : join_all 50 (settle_all answers ++ never ∷ now 1 ∷ []) ≡ none
blocked = join_all-never 50 answers (now 1 ∷ [])

abbrev noon : Timestamp
noon = record { seconds = 43200; nanos = 0 }

abbrev ack : ℕ → Ack
ack id = record {
  request_id = some id;
  timestamp = some noon;
  ack_type = 0;
  node_type = 1;
  execution_id = none;
}

abbrev acks : AckResponder
acks = record { recv = ack 4 ∷ ack 5 ∷ []; closed = false }

-- the queue gives out one of two acks
poll_responder_lem_example :
    poll_responder (acked (λ a. 2) (λ a. a.request_id)) 3 1 true acks
    ≡ some (record acks { recv = drop 1 acks.recv }, map (λ a. a.request_id) (take 1 acks.recv))
unfolding total
poll_responder_lem_example = poll_responder_lem (λ a. 2) (λ a. a.request_id) 3 1 acks (omega arith)

abbrev sender : HeartbeatSender
sender = update_execution_id default_sub_dataflow_id (build_sender 6)

abbrev ticks : List (Option Timestamp)
ticks = some noon ∷ none ∷ some noon ∷ []

poll_all_lem_example :
    poll_all
      (heard (λ b. 2) (λ b. b.heartbeat_id))
      3
      ticks
      (record sender { current_heartbeat_id = (18446744073709551615) % 2 ^ 64 })
    ≡ some (
      record sender { current_heartbeat_id = (18446744073709551615 + count_ready ticks) % 2 ^ 64 },
      beats (λ b. 2) (λ b. b.heartbeat_id) sender (18446744073709551615) ticks,
    )
poll_all_lem_example =
    poll_all_lem (λ b. 2) (λ b. b.heartbeat_id) 3 ticks sender (18446744073709551615)
      (λ b. omega arith)
