-- ===== src/Edge.antt =====
-- The edges between operators: LocalOutEdge, RemoteOutEdge and LocalInEdge of
-- src/stream/src/edge.rs. A channel of tokio is its queue with its capacity. Each send is one step;
-- the order in which the threads of a batch send its events is a parameter, and nothing is read from
-- the channel in between.
use lightflus.Base.{
  ℕ, Bool, true, false, Option, none, some, List, [], ◌∷◌, ◌++◌, map, Result, ok, err,
  if◌then◌else◌, ltb, length, and_then, is_empty,
}
use lightflus.Base.Sorting.{sort_by_key}
use lightflus.Proto.Ids.{ResourceId}
use lightflus.Proto.Event.{
  KeyedDataEvent, default_event, KeyedEventSet, LocalEvent, terminate, keyed_data_stream_event,
  event_id, set_to_operator_id,
}
pub mod Batch

-- What the program takes from rmp_serde: the bytes of an event, `none` where it cannot be encoded,
-- and the event of some bytes.
pub record Serializer : Type 0 where
  pub serialize : LocalEvent → Option (List ℕ)
  pub from_slice : List ℕ → Option LocalEvent

pub record Channel : Type 0 where
  pub queue : List (List ℕ)
  pub capacity : ℕ
  pub closed : Bool

-- The events of a batch that failed are listed with their errors.
mutual
  pub data OutEdgeError : Type 0 where
    send_to_local_failed send_to_remote_failed encode_error queue_full queue_closed : OutEdgeError
    batch_send_failed : Failed → OutEdgeError

  pub data Failed : Type 0 where
    all_sent : Failed
    failed : ℕ → OutEdgeError → Failed → Failed

-- the answer to one event of a batch
abbrev pub Sent : Type 0
Sent = Result OutEdgeError (Unit {0})

-- mpsc::Sender::try_send
abbrev pub try_send : List ℕ → Channel → Channel × Sent
try_send buf c =
    if c.closed
    then (c, err queue_closed)
    else if ltb (length c.queue) c.capacity
    then (record c { queue = c.queue ++ buf ∷ [] }, ok tt)
    else (c, err queue_full)

module _ (serializer : Serializer) where
  open serializer use {serialize, from_slice}

  abbrev try_encoded : Option (List ℕ) → Channel → Channel × Sent
  try_encoded none c = (c, err encode_error)
  try_encoded (some buf) c = try_send buf c

  -- LocalOutEdge::try_write
  unfoldable pub try_write : LocalEvent → Channel → Channel × Sent
  try_write event c = try_encoded (serialize event) c

  -- LocalOutEdge::write. The sender waits for room: `none` where it waits.
  abbrev wait_encoded : Option (List ℕ) → Channel → Option (Channel × Sent)
  wait_encoded none c = some (c, err encode_error)
  wait_encoded (some buf) c =
      if c.closed
      then some (c, err send_to_local_failed)
      else if ltb (length c.queue) c.capacity
      then some (record c { queue = c.queue ++ buf ∷ [] }, ok tt)
      else none

  unfoldable pub write : LocalEvent → Channel → Option (Channel × Sent)
  write event c = wait_encoded (serialize event) c

  -- What the threads of LocalOutEdge::batch_write send, one after the other: each event of the batch
  -- with its position there. The answers are the ids of the events with what try_write answered, at
  -- the same positions.
  unfoldable pub try_all : ℕ → List (ℕ × LocalEvent) → Channel → Channel × List (ℕ × ℕ × Sent)
  try_all to_operator_id [] c = (c, [])
  try_all to_operator_id ((position, event) ∷ schedule) c =
      let (c', answer) = try_write (set_to_operator_id to_operator_id event) c in
      let (c'', answers) = try_all to_operator_id schedule c' in
      (c'', (position, event_id event, answer) ∷ answers)

  -- the answers collected in the order of the batch
  unfoldable pub collect : List (ℕ × ℕ × Sent) → List (ℕ × Sent)
  unfolding sort_by_key
  collect answers = map (λ a. (a.1, a.2)) (sort_by_key (λ a. a.0) answers)

  -- the events that failed, with their errors
  unfoldable pub failures : List (ℕ × Sent) → Failed
  failures [] = all_sent
  failures ((id, ok _) ∷ answers) = failures answers
  failures ((id, err e) ∷ answers) = failed id e (failures answers)

  abbrev pub summary : Failed → Sent
  summary all_sent = ok tt
  summary (failed id e rest) = err (batch_send_failed (failed id e rest))

  -- LocalOutEdge::batch_write of a batch, whose events are sent in the order of the schedule
  unfoldable pub batch_write : ℕ → List (ℕ × LocalEvent) → Channel → Channel × Sent
  unfolding collect
  batch_write to_operator_id schedule c =
      let (c', answers) = try_all to_operator_id schedule c in
      (c', summary (failures (collect answers)))

  -- LocalInEdge::next, `none` where it waits: an event that cannot be decoded is answered as the end
  -- of the stream is
  unfoldable pub next : Channel → Option (Option LocalEvent × Channel)
  next c = received c.queue
    where
      received : List (List ℕ) → Option (Option LocalEvent × Channel)
      received [] = if c.closed then some (none, c) else none
      received (buf ∷ rest) = some (from_slice buf, record c { queue = rest })

-- what is sent to a remote operator in place of an event
abbrev as_keyed : LocalEvent → KeyedDataEvent
as_keyed (keyed_data_stream_event event) = event
as_keyed (terminate job_id to event_time) = default_event

abbrev remote_answer : Result (Unit {0}) (Unit {0}) → Sent
remote_answer (ok _) = ok tt
remote_answer (err _) = err send_to_remote_failed

-- RemoteOutEdge::write; how the gateway answers is a parameter
unfoldable pub remote_write : (KeyedDataEvent → Result (Unit {0}) (Unit {0})) → LocalEvent → Sent
remote_write call (terminate job_id to event_time) = ok tt
remote_write call (keyed_data_stream_event event) = remote_answer (call event)

module _ (call : KeyedEventSet → Result (Unit {0}) (Unit {0})) where
  -- RemoteOutEdge::batch_write
  unfoldable pub remote_batch_write : Option ResourceId → ℕ → ℕ → List LocalEvent → Sent
  remote_batch_write job_id to_operator_id from_operator_id events = remote_answer (
      call (record {
        events = map as_keyed events;
        job_id = job_id;
        to_operator_id = to_operator_id;
        from_operator_id = from_operator_id;
      }))
