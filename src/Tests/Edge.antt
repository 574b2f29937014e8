-- ===== src/Tests/Edge.antt =====
-- A batch of three events on a channel with room for two.
use lightflus.Base.{ℕ, false, none, some, List, [], ◌∷◌, ◌++◌, ◌≡◌, refl, take, drop}
use lightflus.Proto.Ids.{default_resource_id}
use lightflus.Proto.Event.{LocalEvent, terminate, keyed_data_stream_event}
use lightflus.Edge.{Serializer, Channel, batch_write, summary}
use lightflus.Edge.Batch.{room, bytes_to, in_order, overflow, batch_write_lem}

abbrev buf : LocalEvent → List ℕ
buf (terminate job_id to event_time) = 0 ∷ to ∷ event_time ∷ []
buf (keyed_data_stream_event event) = 1 ∷ event.to_operator_id ∷ []

abbrev plain_serializer : Serializer
plain_serializer = record { serialize = λ e. some (buf e); from_slice = λ bs. none }

abbrev two_free : Channel
two_free = record { queue = (9 ∷ []) ∷ []; capacity = 3; closed = false }

-- the last event of the batch is sent first
abbrev ends : List (ℕ × LocalEvent)
ends =
    (2, terminate default_resource_id 1 12)
    ∷ (1, terminate default_resource_id 1 11)
    ∷ (0, terminate default_resource_id 1 10)
    ∷ []

batch_write_lem_example :
    ((batch_write plain_serializer 4 ends two_free).0.queue
      ≡ two_free.queue
        ++ take
            (room plain_serializer buf (λ e. refl) two_free)
            (bytes_to plain_serializer buf (λ e. refl) 4 ends))
    × ((batch_write plain_serializer 4 ends two_free).1
        ≡ summary plain_serializer (
            overflow plain_serializer buf
              (λ e. refl)
              (in_order plain_serializer buf
                (λ e. refl)
                (drop (room plain_serializer buf (λ e. refl) two_free) ends))))
batch_write_lem_example = batch_write_lem plain_serializer buf (λ e. refl) 4 ends two_free refl
