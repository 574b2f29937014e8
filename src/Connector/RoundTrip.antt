-- ===== src/Connector/RoundTrip.antt =====
-- An event that is written to Kafka and read back (src/stream/src/connector.rs).
use lightflus.Base.{
  ℕ, ◌<◌, none, some, List, [], ◌∷◌, ◌≡◌, refl, ok, All, arith, unwrap_or, Bool, ◌⊎◌, inl, inr,
}
use lightflus.Proto.Graph.{DataTypeEnum, to_i32, from_i32, kafka_data_type}
use lightflus.Proto.Event.{Entry, KeyedDataEvent, get_key, LocalEvent, keyed_data_stream_event}
use lightflus.Types.{
  TypedValue, Formats, decoded, from_slice, decode_with, decode_as, get_data, JsonText, JsonValue,
  to_json_value, from_slice_with_type, slice_as, to_entry, invalid,
}
use lightflus.Types.JsonLaws.{in_json, from_json_value-to_json_value}
use lightflus.Connector.Message.{KafkaMessage, messages, to_kafka_message}
use lightflus.Connector.Kafka.{Kafka, process, generate_new_event_id}

-- What serde_json documents of its texts: a value of JSON has one, which begins with a printable
-- character (a brace, a bracket, a quote, a minus sign, a digit or a letter).
pub record IsPrinted (text : JsonText) : Type 0 where
  pub printed :
      (j : JsonValue) → (b : ℕ) × (bs : List ℕ) × (text.to_vec j ≡ some (b ∷ bs)) × (32 < b)

module _ (f : Formats) (text : JsonText) where
  -- The entries hold the values.
  abbrev pub Holds : List Entry → List TypedValue → Type 0
  Holds [] [] = Unit
  Holds [] (v ∷ vs) = ⊥
  Holds (e ∷ es) [] = ⊥
  Holds (e ∷ es) (v ∷ vs) = (from_slice f e.value ≡ decoded v) × Holds es vs

  abbrev pub Carries : List ℕ → ℕ → List TypedValue → List KafkaMessage → Type 0
  Carries k now [] [] = Unit
  Carries k now [] (m ∷ ms) = ⊥
  Carries k now (v ∷ vs) [] = ⊥
  Carries k now (v ∷ vs) (m ∷ ms) =
      (text.to_vec (to_json_value v) ≡ some m.payload)
      × (m.key ≡ k)
      × (m.timestamp ≡ some now)
      × Carries k now vs ms

  module _ (p : IsPrinted text) where
    open p use {printed}

    messages_lem :
        (k : List ℕ) (now : ℕ) (es : List Entry) (vs : List TypedValue)
        → Holds es vs
        → (ms : List KafkaMessage) × (messages f text k now es ≡ decoded (ok ms))
          × Carries k now vs ms
    unfolding messages
    messages_lem k now [] [] h = ([], refl, tt)
    messages_lem k now [] (v ∷ vs) h = absurd h
    messages_lem k now (e ∷ es) [] h = absurd h
    messages_lem k now (e ∷ es) (v ∷ vs) h =
        let (b, bs, written, _) = printed (to_json_value v) in
        let (ms, sent, carried) = messages_lem k now es vs h.1 in
        (
          record { key = k; payload = b ∷ bs; timestamp = some now } ∷ ms,
          rw (h.0, written, sent) refl,
          (written, refl, refl, carried),
        )

    unreadable : (b : ℕ) (bs : List ℕ) → 32 < b → from_slice f (b ∷ bs) ≡ decoded invalid
    unfolding from_slice decode_with decode_as from_i32
    unreadable b bs h =
        let other : unwrap_or (from_i32 b) DataTypeEnum.unspecified ≡ DataTypeEnum.unspecified =
          ground arith in
        rw other refl

  -- The text of the JSON of a value parses back.
  abbrev pub ParsesBack : TypedValue → Type 0
  ParsesBack v =
      (t : List ℕ)
      → text.to_vec (to_json_value v) ≡ some t
      → text.from_text t ≡ some (to_json_value v)

  abbrev pub IsComposite : DataTypeEnum → Type 0
  IsComposite t = (t ≡ DataTypeEnum.object) ⊎ (t ≡ DataTypeEnum.array)

  parsed :
      (v : TypedValue) (b : ℕ) (bs : List ℕ) (t : DataTypeEnum)
      → IsComposite t
      → text.from_text (b ∷ bs) ≡ some (to_json_value v)
      → from_slice_with_type f text (b ∷ bs) t ≡ decoded (in_json v)
  unfolding from_slice_with_type slice_as
  parsed v b bs t (inl e) h = rw (e, h, (from_json_value-to_json_value v).0) refl
  parsed v b bs t (inr e) h = rw (e, h, (from_json_value-to_json_value v).0) refl

  module _ (checks : Bool) (now : ℕ) (k : Kafka) (id : ℕ) where
    -- The event that a source makes of a value written at a time.
    abbrev pub arrived : ℕ → TypedValue → LocalEvent
    arrived sent_at v = keyed_data_stream_event (record {
      job_id = some k.job_id;
      key = some (to_entry f invalid);
      to_operator_id = 0;
      «data» =
          record { data_type = to_i32 (kafka_data_type k.conf); value = get_data f (in_json v) }
          ∷ [];
      event_time = sent_at;
      from_operator_id = k.connector_id;
      window = none;
      event_id = id;
    })

    -- Read one after the other, the messages give the values.
    abbrev pub Reads : ℕ → List TypedValue → List KafkaMessage → Type 0
    Reads sent_at [] [] = Unit
    Reads sent_at [] (m ∷ ms) = ⊥
    Reads sent_at (v ∷ vs) [] = ⊥
    Reads sent_at (v ∷ vs) (m ∷ ms) =
        (process f text checks now k m ≡ decoded (arrived sent_at v)) × Reads sent_at vs ms

    module _ (p : IsPrinted text) (composite : IsComposite (kafka_data_type k.conf))
        (numbered : generate_new_event_id checks now k ≡ some id) where
      read :
          (b : ℕ) (bs : List ℕ) (sent_at : ℕ) (vs : List TypedValue) (ms : List KafkaMessage)
          → 32 < b
          → All ParsesBack vs
          → Carries (b ∷ bs) sent_at vs ms
          → Reads sent_at vs ms
      unfolding process
      read b bs sent_at [] [] big back c = tt
      read b bs sent_at [] (m ∷ ms) big back c = absurd c
      read b bs sent_at (v ∷ vs) [] big back c = absurd c
      read b bs sent_at (v ∷ vs) (m ∷ ms) big back c =
          let (first, rest, written, _) = p.printed (to_json_value v) in
          let payload : m.payload ≡ first ∷ rest = cc in
          (
            rw
                (
                  c.1,
                  payload,
                  c.2,
                  numbered,
                  unreadable p b bs big,
                  parsed v first rest (kafka_data_type k.conf) composite
                      (back.0 (first ∷ rest) written),
                )
                refl,
            read b bs sent_at vs ms big back.1 c.3,
          )

      -- What a Kafka sink writes for an event and a Kafka source of objects or arrays reads: one
      -- event for each value of the event, with what JSON keeps of the value and the time of
      -- writing. The key is lost: it is read as an invalid value, whatever it was.
      pub process-to_kafka_message :
          (e : KeyedDataEvent) (key : TypedValue) (vs : List TypedValue) (sent_at : ℕ)
          → from_slice f (get_key e).value ≡ decoded key
          → Holds e.«data» vs
          → All ParsesBack vs
          → (ms : List KafkaMessage) × (to_kafka_message f text sent_at (keyed_data_stream_event e)
              ≡ decoded (ok ms))
            × Reads sent_at vs ms
      unfolding to_kafka_message
      process-to_kafka_message e key vs sent_at decoded_key holds back =
          let (b, bs, written, big) = p.printed (to_json_value key) in
          let (ms, sent, carried) = messages_lem p (b ∷ bs) sent_at e.«data» vs holds in
          (ms, rw (decoded_key, written, sent) refl, read b bs sent_at vs ms big back carried)
