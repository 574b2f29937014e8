-- ===== src/Connector/Extract.antt =====
-- extract_arguments and extract_arguments_scope of src/stream/src/connector.rs: every value of an
-- event is given to every extractor.
use lightflus.Base.{Option, none, some, List, [], ◌∷◌, Str, unwrap_or}
use lightflus.Proto.Event.{Entry, LocalEvent, terminate, keyed_data_stream_event}
use lightflus.Types.{
  TypedValue, Formats, Decoded, decoded, panicked, map_decoded, bind, from_slice, invalid,
}

-- A function of JavaScript: from its source and its name, `none` where the source has no such
-- function; a call answers `none` where it throws.
abbrev pub Scripts : Type 0
Scripts = Str → Str → Option (TypedValue → Option TypedValue)

-- RuntimeEngine::new with call_one_arg, which panics without a function
abbrev pub called : Option (TypedValue → Option TypedValue) → TypedValue → Decoded TypedValue
called none v = panicked
called (some fn) v = decoded (unwrap_or (fn v) invalid)

module _ (f : Formats) (scripts : Scripts) (fn_name : Str) where
  -- what the extractors make of a value
  unfoldable pub extract : List Str → TypedValue → Decoded (List TypedValue)
  extract [] v = decoded []
  extract (source ∷ sources) v =
      bind (called (scripts source fn_name) v)
        (λ r. map_decoded (λ rest. r ∷ rest) (extract sources v))

  unfoldable pub extract_entries : List Str → List Entry → Decoded (List (List TypedValue))
  unfolding extract from_slice
  extract_entries extractors [] = decoded []
  extract_entries extractors (entry ∷ entries) = bind (from_slice f entry.value) (λ v.
      bind (extract extractors v)
        (λ row. map_decoded (λ rows. row ∷ rows) (extract_entries extractors entries)))

  unfoldable pub extract_arguments : List Str → LocalEvent → Decoded (List (List TypedValue))
  unfolding extract_entries
  extract_arguments extractors (terminate job_id to event_time) = decoded []
  extract_arguments extractors (keyed_data_stream_event e) = extract_entries extractors e.«data»
