-- ===== src/Connector/Termination.antt =====
-- What a Kafka source makes of a request to terminate (src/stream/src/connector.rs).
use lightflus.Base.{ℕ, Bool, Option, some, List, ◌∷◌, ◌≡◌, refl, map_option}
use lightflus.Proto.Event.{LocalEvent}
use lightflus.Types.{Formats, Decoded, decoded, panicked, out_of_fuel, map_decoded, JsonText}
use lightflus.Connector.Kafka.{Kafka, Fetched, next_message}
use lightflus.Connector.Source.{Terminator, SourceImpl, Answer, next, poll_next}

-- the event that is answered
abbrev pub event_of : Decoded Answer → Decoded (Option (Option LocalEvent))
event_of r = map_decoded (map_option (λ a. a.0)) r

same_event :
    (k : Kafka) (t t' : Terminator) (r : Decoded (Option LocalEvent))
    → event_of (map_decoded (λ e. some (e, SourceImpl.kafka k t)) r)
      ≡ event_of (map_decoded (λ e. some (e, SourceImpl.kafka k t')) r)
same_event k t t' (decoded e) = refl
same_event k t t' panicked = refl
same_event k t t' out_of_fuel = refl

module _ (f : Formats) (text : JsonText) (checks : Bool) (now : ℕ) (fetched : Fetched) where
  -- An event in the channel of a Kafka source is the next that `next` answers, and `poll_next`, which
  -- the executor calls, answers as if the channel were in any other state: it never sees the event.
  pub poll_next-terminate :
      (k : Kafka) (t t' : Terminator) (e : LocalEvent) (es : List LocalEvent)
      → (next f text checks now fetched (SourceImpl.kafka k (record t { queue = e ∷ es }))
          ≡ decoded (some (some e, SourceImpl.kafka k (record t { queue = es }))))
        × (event_of (
              poll_next f text checks now fetched
                (SourceImpl.kafka k (record t { queue = e ∷ es })))
            ≡ event_of (poll_next f text checks now fetched (SourceImpl.kafka k t')))
  unfolding next poll_next
  poll_next-terminate k t t' e es = (
    refl,
    same_event k (record t { queue = e ∷ es }) t' (next_message f text checks now k fetched),
  )
