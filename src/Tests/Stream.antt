-- ===== src/Tests/Stream.antt =====
-- Reducing and grouping integers, with an engine that counts its calls.
use lightflus.Base.{
  ◌++◌, ℕ, suc, ◌+◌, ◌%◌, ◌^◌, Option, none, some, List, [], ◌∷◌, ◌≡◌, refl, All, length, map,
  nat_ord, list_ord, arith,
}
use lightflus.Base.BTreeMap
use lightflus.Base.Word.{be_bytes, of_be}
use lightflus.Proto.Graph.{from_i32}
use lightflus.Proto.Event.{Entry, KeyedDataEvent, default_event}
use lightflus.Types.{
  TypedValue, decoded, get_data, from_vec, decode, decode_with, decode_as, big_int,
}
use lightflus.Types.RoundTrip.{from_vec-get_data}
use lightflus.Stream.{
  Engine, MemoryStateManager, memory, Groups, call_key_by, call_reduce, keyed, accumulate,
  fold_entries, reduce_entries, state_key, get_keyed_state,
}
use lightflus.Worker.{StreamExecutor, OutEdge, InEdge}
use lightflus.Stream.Progress.{run-arriving, process-memory_only, process_all, arriving, sent}
use lightflus.Proto.Graph.{Details}
use lightflus.Tests.Fixtures.{job}
use lightflus.Stream.{run, process, pending, key_value, memory_only, after}
use lightflus.Types.{map_decoded, to_entry, bind}
use lightflus.Stream.Reduce.{Starts, outcome, call_reduce-append}
use lightflus.Stream.Grouping.{size, Holds, Labelled, call_key_by_lem}
use lightflus.Tests.Types.{plain, plain-IsFaithful}

abbrev add : TypedValue → TypedValue → Option TypedValue
add (big_int a) (big_int b) = some (big_int ((a + b) % 2 ^ 64))
add _ _ = none

abbrev parity : TypedValue → Option TypedValue
parity (big_int a) = some (big_int (a % 2))
parity _ = none

abbrev counting : Engine ℕ
counting = record {
  call_one_arg = λ v calls. (parity v, suc calls);
  call_two_args = λ v w calls. (add v w, suc calls);
}

abbrev number_event : List ℕ → KeyedDataEvent
number_event ns = record default_event { «data» = map (λ n. to_entry plain (big_int n)) ns }

abbrev no_state : MemoryStateManager
no_state = record { cache = [] }

starts :
    Starts plain counting memory
      (memory.get (state_key plain counting memory 1 (number_event (2 ∷ 3 ∷ []))) no_state)
      (number_event (2 ∷ 3 ∷ [])).«data»
unfolding get_keyed_state BTreeMap.get
starts = tt

five :
    accumulate plain counting memory
      (memory.get (state_key plain counting memory 1 (number_event (2 ∷ 3 ∷ []))) no_state)
      (number_event (2 ∷ 3 ∷ [])).«data»
      0
    ≡ decoded (big_int 5, 1)
unfolding accumulate reduce_entries fold_entries from_vec decode decode_with decode_as get_data
    be_bytes of_be from_i32 get_keyed_state BTreeMap.get
five = refl

call_reduce-append_example :
    outcome plain counting memory (state_key plain counting memory 1 (number_event (2 ∷ 3 ∷ []))) (
      bind
        (call_reduce plain counting memory 1 (number_event (2 ∷ 3 ∷ [])) no_state 0)
        (λ done. call_reduce plain counting memory 1 (number_event (4 ∷ [])) done.1 done.2))
    ≡ outcome plain counting memory
        (state_key plain counting memory 1 (number_event (2 ∷ 3 ∷ [])))
        (call_reduce plain counting memory 1 (number_event (2 ∷ 3 ∷ 4 ∷ [])) no_state 0)
call_reduce-append_example =
    call_reduce-append plain counting memory 1 (number_event (2 ∷ 3 ∷ [])) (number_event (4 ∷ []))
      no_state 0 1 (big_int 5) refl starts five
      (from_vec-get_data plain plain-IsFaithful (big_int 5) (omega arith)).0

abbrev pairs : List (TypedValue × Entry)
pairs =
    (big_int 0, to_entry plain (big_int 2))
    ∷ (big_int 1, to_entry plain (big_int 3))
    ∷ (big_int 0, to_entry plain (big_int 4))
    ∷ []

keyed-pairs : keyed plain counting (number_event (2 ∷ 3 ∷ 4 ∷ [])).«data» 0 ≡ decoded (pairs, 3)
unfolding keyed from_vec decode decode_with decode_as get_data be_bytes of_be from_i32
keyed-pairs = refl

call_key_by_lem_example :
    (groups : Groups plain counting) × (call_key_by plain counting 1
        (number_event (2 ∷ 3 ∷ 4 ∷ []))
        0
      ≡ decoded (map (λ g. g.1) groups, 3))
    × (size plain counting groups ≡ length pairs)
    × All (λ p. Holds plain counting groups p.0 p.1) pairs
    × All (Labelled plain counting 1) groups
call_key_by_lem_example =
    call_key_by_lem plain counting 1 (number_event (2 ∷ 3 ∷ 4 ∷ [])) 0 3 pairs keyed-pairs

abbrev reducer : StreamExecutor
reducer = record {
  external_sinks = [];
  executor_id = 1;
  out_edges = (2, OutEdge.local_out 5) ∷ [];
  in_edge = some (InEdge.local_in 4);
  source = none;
  operator_details = Details.reducer (record { value = none });
  job_id = job;
}

run-arriving_example :
    run plain counting 0 key_value reducer
      (arriving plain counting 0 key_value (number_event (2 ∷ []) ∷ []) ++ pending ∷ [])
      no_state
    ≡ bind
        (process_all plain counting 0 key_value reducer (number_event (2 ∷ []) ∷ []) no_state)
        (λ done.
          map_decoded (after done.0) (run plain counting 0 key_value reducer (pending ∷ []) done.1))
run-arriving_example =
    run-arriving plain counting 0 key_value reducer (number_event (2 ∷ []) ∷ []) (pending ∷ [])
      no_state refl

abbrev some_state : MemoryStateManager
some_state = record { cache = (0 ∷ [], 1 ∷ []) ∷ [] }

process-memory_only_example :
    sent (process plain counting 0 memory_only reducer (number_event (2 ∷ [])) no_state)
    ≡ sent (process plain counting 0 memory_only reducer (number_event (2 ∷ [])) some_state)
process-memory_only_example =
    process-memory_only plain counting 0 reducer (number_event (2 ∷ [])) no_state some_state
