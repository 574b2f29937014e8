-- ===== src/Net/Sending.antt =====
-- What the senders of src/common/src/net/mod.rs send.
use lightflus.Base.{
  ℕ, zero, suc, ◌+◌, ◌%◌, ◌^◌, ◌<◌, true, false, Option, none, some, List, [], ◌∷◌, ◌++◌, ◌≡◌, refl,
  sym, ap, ◌∙◌, map, map_option, take, drop, Bool, arith,
}
use mathlib.Core.List.{append_assoc, append-nil}
use lightflus.Proto.Ids.{Timestamp, Heartbeat, Ack}
use lightflus.Futures.{Future, join_all}
use lightflus.Futures.Joining.{settle, settle_all, total, join_all-settle_all}
use lightflus.Net.{
  HeartbeatSender, poll_sender, poll_all, AckResponder, collect_acks, poll_responder,
}

module _ {R : Type 0} (delay : Ack → ℕ) (answer : Ack → R) where
  -- a gateway that answers an ack after some polls
  abbrev pub acked : Ack → Future R
  acked ack = settle (delay ack) (answer ack)

  abbrev pub ack_answers : List Ack → List (ℕ × R)
  ack_answers acks = map (λ ack. (delay ack, answer ack)) acks

  emptied :
      (budget : ℕ) (closed : Bool) (futs : List (Future R))
      → collect_acks acked budget closed futs [] ≡ (futs, [])
  unfolding collect_acks
  emptied zero closed futs = refl
  emptied (suc budget) false futs = refl
  emptied (suc budget) true futs = emptied budget true futs

  collected :
      (budget : ℕ) (closed : Bool) (futs : List (Future R)) (recv : List Ack)
      → collect_acks acked budget closed futs recv
        ≡ (futs ++ settle_all (ack_answers (take budget recv)), drop budget recv)
  unfolding collect_acks settle_all
  collected zero closed futs recv = ap (λ fs. (fs, recv)) (sym (append-nil futs))
  collected (suc budget) closed futs [] =
      emptied (suc budget) closed futs ∙ ap (λ fs. (fs, [])) (sym (append-nil futs))
  collected (suc budget) closed futs (ack ∷ recv) =
      collected budget closed (futs ++ acked ack ∷ []) recv
      ∙ ap (λ fs. (fs, drop budget recv))
          (append_assoc futs (acked ack ∷ []) (settle_all (ack_answers (take budget recv))))

  values : (acks : List Ack) → map (λ a. a.1) (ack_answers acks) ≡ map answer acks
  values [] = refl
  values (ack ∷ acks) = ap (λ rs. answer ack ∷ rs) (values acks)

  -- Where the gateway answers each ack after some polls, a tick sends the acks that the queue gives
  -- out, from its front: each of them is sent once and answered, the answers are taken in the order
  -- of the queue, and the acks that the queue withholds stay in it as they are. This is so whether
  -- or not acks can still be sent. The fuel is more than all the polls that are pending.
  pub poll_responder_lem :
      (fuel budget : ℕ) (responder : AckResponder)
      → total (ack_answers (take budget responder.recv)) < fuel
      → poll_responder acked fuel budget true responder
        ≡ some (
          record responder { recv = drop budget responder.recv },
          map answer (take budget responder.recv),
        )
  unfolding poll_responder
  poll_responder_lem fuel budget responder time =
      rw
        (
          collected budget responder.closed [] responder.recv,
          join_all-settle_all (ack_answers (take budget responder.recv)) fuel time,
          values (take budget responder.recv),
        )
        refl

-- the ticks that are ready
unfoldable pub count_ready : List (Option Timestamp) → ℕ
count_ready [] = 0
count_ready (none ∷ ticks) = count_ready ticks
count_ready (some now ∷ ticks) = 1 + count_ready ticks

-- the heartbeat with a number, at a time
abbrev pub numbered : HeartbeatSender → ℕ → Timestamp → Heartbeat
numbered sender n now = record {
  heartbeat_id = n % 2 ^ 64;
  timestamp = some now;
  node_type = 0;
  subdataflow_id = sender.execution_id;
  task_id = sender.task_id;
}

map_option-nothing :
    {A B : Type 0} (o : Option (A × List B)) → map_option (λ p. (p.0, [] ++ p.1)) o ≡ o
map_option-nothing none = refl
map_option-nothing (some p) = refl

add_one : (n c : ℕ) → n + 1 + c ≡ n + (1 + c)
add_one n c = omega arith

add_zero : (n : ℕ) → n ≡ n + 0
add_zero n = omega arith

next_id : (n : ℕ) → (n % 2 ^ 64 + 1) % 2 ^ 64 ≡ (n + 1) % 2 ^ 64
next_id n = omega arith

module _ {R : Type 0} (delay : Heartbeat → ℕ) (answer : Heartbeat → R) where
  -- a gateway that answers a heartbeat after some polls
  abbrev pub heard : Heartbeat → Future R
  heard beat = settle (delay beat) (answer beat)

  -- The heartbeats of a sender, numbered from a number on, one for each tick that is ready.
  unfoldable pub beats : HeartbeatSender → ℕ → List (Option Timestamp) → List (Heartbeat × R)
  beats sender n [] = []
  beats sender n (none ∷ ticks) = beats sender n ticks
  beats sender n (some now ∷ ticks) =
      (numbered sender n now, answer (numbered sender n now)) ∷ beats sender (n + 1) ticks

  heard_one :
      (fuel : ℕ) (beat : Heartbeat)
      → delay beat < fuel
      → join_all fuel (heard beat ∷ []) ≡ some (answer beat ∷ [])
  unfolding settle_all total
  heard_one fuel beat h =
      join_all-settle_all ((delay beat, answer beat) ∷ []) fuel (omega (arith, h))

  -- Where the gateway answers each heartbeat after some polls, a sender that is polled sends one
  -- heartbeat for each tick that is ready and nothing else. Their ids count on from the sender's id,
  -- modulo 2^64, and its next id is the one after them. The fuel is more than the polls that are
  -- pending for a heartbeat.
  pub poll_all_lem :
      (fuel : ℕ) (ticks : List (Option Timestamp)) (sender : HeartbeatSender) (n : ℕ)
      → ((beat : Heartbeat) → delay beat < fuel)
      → poll_all heard fuel ticks (record sender { current_heartbeat_id = n % 2 ^ 64 })
        ≡ some (
          record sender { current_heartbeat_id = (n + count_ready ticks) % 2 ^ 64 },
          beats sender n ticks,
        )
  unfolding poll_all poll_sender beats count_ready
  poll_all_lem fuel [] sender n h =
      ap (λ k. some (record sender { current_heartbeat_id = k % 2 ^ 64 }, [])) (add_zero n)
  poll_all_lem fuel (none ∷ ticks) sender n h =
      map_option-nothing _ ∙ poll_all_lem fuel ticks sender n h
  poll_all_lem fuel (some now ∷ ticks) sender n h =
      rw
        (
          heard_one fuel (numbered sender n now) (h _),
          next_id n,
          poll_all_lem fuel ticks sender (n + 1) h,
        )
        (ap
          (λ k. some (
            record sender { current_heartbeat_id = k % 2 ^ 64 },
            beats sender n (some now ∷ ticks),
          ))
          (add_one n (count_ready ticks)))
