-- ===== src/Proto/Event.antt =====
-- The events that operators exchange: proto/common/event.proto, as src/proto/src/common.rs
-- declares its messages, and `LocalEvent` of src/common/src/event.rs.
use lightflus.Base.{ℕ, Option, none, List, [], unwrap_or}
use lightflus.Proto.Ids.{ResourceId}

pub record Entry : Type 0 where
  pub data_type : ℕ
  pub value : List ℕ

abbrev pub default_entry : Entry
default_entry = record { data_type = 0; value = [] }

pub record EventWindow : Type 0 where
  pub start_time : ℕ
  pub end_time : ℕ

pub record KeyedDataEvent : Type 0 where
  pub job_id : Option ResourceId
  pub key : Option Entry
  pub to_operator_id : ℕ
  pub «data» : List Entry
  pub event_time : ℕ
  pub from_operator_id : ℕ
  pub window : Option EventWindow
  pub event_id : ℕ

-- KeyedDataEvent::get_key
abbrev pub get_key : KeyedDataEvent → Entry
get_key event = unwrap_or event.key default_entry

-- KeyedDataEvent::default
abbrev pub default_event : KeyedDataEvent
default_event = record {
  job_id = none;
  key = none;
  to_operator_id = 0;
  «data» = [];
  event_time = 0;
  from_operator_id = 0;
  window = none;
  event_id = 0;
}

pub record KeyedEventSet : Type 0 where
  pub events : List KeyedDataEvent
  pub job_id : Option ResourceId
  pub to_operator_id : ℕ
  pub from_operator_id : ℕ

-- common::event::LocalEvent
pub data LocalEvent : Type 0 where
  terminate : ResourceId → ℕ → ℕ → LocalEvent
  keyed_data_stream_event : KeyedDataEvent → LocalEvent

-- StreamEvent::event_id of LocalEvent
unfoldable pub event_id : LocalEvent → ℕ
event_id (terminate job_id to event_time) = event_time
event_id (keyed_data_stream_event event) = event.event_id

-- StreamEvent::event_time of LocalEvent
unfoldable pub event_time : LocalEvent → ℕ
event_time (terminate job_id to event_time') = event_time'
event_time (keyed_data_stream_event event) = event.event_time

-- StreamEvent::set_to_operator_id of LocalEvent
unfoldable pub set_to_operator_id : ℕ → LocalEvent → LocalEvent
set_to_operator_id id (terminate job_id to event_time) = terminate job_id id event_time
set_to_operator_id id (keyed_data_stream_event event) =
    keyed_data_stream_event (record event { to_operator_id = id })
