-- ===== src/Stream/Reduce.antt =====
-- ReduceOperator of src/stream/src/dataflow.rs on two events of a key, one after the other.
use lightflus.Base.{
  ℕ, false, List, [], ◌∷◌, ◌++◌, ◌≡◌, refl, sym, ap, ◌∙◌, is_empty, unwrap_or, map, same_refl,
  list_ord, nat_ord,
}
use lightflus.Proto.Event.{Entry, KeyedDataEvent}
use lightflus.Types.{
  TypedValue, Formats, Decoded, decoded, panicked, out_of_fuel, map_decoded, decode, from_vec,
  from_slice, get_data, string, big_int, boolean, number, null, object, array, invalid,
}
use lightflus.Stream.Defs.{Engine, StateManager, get_operator_state_key}
use lightflus.Types.{bind, bind_assoc, bind_cong, to_entry}
use lightflus.Proto.Event.{get_key}
use lightflus.Stream.Operators.{
  fold_entries, reduce_entries, accumulate, reduce, state_key, call_reduce,
}

module _ (f : Formats) {J : Type 0} (engine : Engine J) where
  fold-append :
      (decode : List ℕ → Decoded TypedValue) (accum : TypedValue) (xs ys : List Entry) (j : J)
      → fold_entries f engine decode accum (xs ++ ys) j
        ≡ bind
            (fold_entries f engine decode accum xs j)
            (λ done. fold_entries f engine decode done.0 ys done.1)
  unfolding fold_entries
  fold-append decode accum [] ys j = refl
  fold-append decode accum (e ∷ es) ys j =
      bind_cong (decode e.value) _ _ (λ v.
        let (answer, j') = engine.call_two_args accum v j in
        fold-append decode (unwrap_or answer invalid) es ys j')
      ∙ sym (bind_assoc (decode e.value) _ _)

  slice-vec : from_slice f ≡ from_vec f
  unfolding from_slice from_vec decode
  slice-vec = refl

  reduce-append :
      (e : Entry) (es ys : List Entry) (j : J)
      → reduce_entries f engine ((e ∷ es) ++ ys) j
        ≡ bind
            (reduce_entries f engine (e ∷ es) j)
            (λ done. fold_entries f engine (from_vec f) done.0 ys done.1)
  unfolding reduce_entries
  reduce-append e es ys j =
      bind_cong (from_vec f e.value) _ _ (λ v. fold-append (from_vec f) v es ys j)
      ∙ sym (bind_assoc (from_vec f e.value) _ _)

  written : (v : TypedValue) → is_empty (get_data f v) ≡ false
  unfolding get_data
  written (string s) = refl
  written (big_int x) = refl
  written (boolean b) = refl
  written (number x) = refl
  written null = refl
  written (object o) = refl
  written (array vs) = refl
  written invalid = refl

  module _ {S : Type 0} (manager : StateManager S) where
    -- The state is empty and so are the entries.
    abbrev pub Starts : List ℕ → List Entry → Type 0
    Starts [] [] = ⊥
    Starts [] (e ∷ es) = Unit
    Starts (b ∷ bs) es = Unit

    accumulate-append :
        (state : List ℕ) (xs ys : List Entry) (j : J)
        → Starts state xs
        → accumulate f engine manager state (xs ++ ys) j
          ≡ bind
              (accumulate f engine manager state xs j)
              (λ done. fold_entries f engine (from_vec f) done.0 ys done.1)
    unfolding accumulate
    accumulate-append [] [] ys j start = absurd start
    accumulate-append [] (e ∷ es) ys j start = reduce-append e es ys j
    accumulate-append (b ∷ bs) xs ys j start = rw slice-vec (
        bind_cong (from_vec f (b ∷ bs)) _ _ (λ v. fold-append (from_vec f) v xs ys j)
        ∙ sym (bind_assoc (from_vec f (b ∷ bs)) _ _))

    resume :
        (accum : TypedValue) (ys : List Entry) (j : J)
        → from_vec f (get_data f accum) ≡ decoded accum
        → accumulate f engine manager (get_data f accum) ys j
          ≡ fold_entries f engine (from_vec f) accum ys j
    unfolding accumulate
    resume accum ys j back = rw (slice-vec, written accum, back) refl

    -- What one sees of a run: the data of the events, the state of a key, the engine.
    abbrev pub outcome :
        List ℕ → Decoded (List KeyedDataEvent × S × J) → Decoded (List (List Entry) × List ℕ × J)
    outcome k r = map_decoded (λ done. (map (λ e. e.«data») done.0, manager.get k done.1, done.2)) r

    read_back : (k v : List ℕ) (s : S) → manager.get k (manager.set k v s) ≡ v
    read_back k v s = rw (manager.get-set k k v s, same_refl k) refl

    finish :
        (e e' : KeyedDataEvent) (k : List ℕ) (s s' : S) (r : Decoded (TypedValue × J))
        → outcome k (
            map_decoded
              (λ done. (
                record e { «data» = to_entry f done.0 ∷ [] } ∷ [],
                manager.set k (get_data f done.0) s,
                done.1,
              ))
              r)
          ≡ outcome k (
              map_decoded
                (λ done. (
                  record e' { «data» = to_entry f done.0 ∷ [] } ∷ [],
                  manager.set k (get_data f done.0) s',
                  done.1,
                ))
                r)
    finish e e' k s s' (decoded done) = rw (read_back k _ s, read_back k _ s') refl
    finish e e' k s s' panicked = refl
    finish e e' k s s' out_of_fuel = refl

    -- Two events of a key, reduced one after the other, end as one event with the data of both:
    -- with the same data sent on, the same state of the key and the same calls of the engine. The
    -- first event must reduce to a value that comes back from its bytes, and must have data where
    -- the key has no state yet.
    pub call_reduce-append :
        (id : ℕ) (e e' : KeyedDataEvent) (s : S) (j j' : J) (accum : TypedValue)
        → get_key e' ≡ get_key e
        → Starts (manager.get (state_key f engine manager id e) s) e.«data»
        → accumulate f engine manager (manager.get (state_key f engine manager id e) s) e.«data» j
          ≡ decoded (accum, j')
        → from_vec f (get_data f accum) ≡ decoded accum
        → outcome (state_key f engine manager id e) (
            bind
              (call_reduce f engine manager id e s j)
              (λ done. call_reduce f engine manager id e' done.1 done.2))
          ≡ outcome
              (state_key f engine manager id e)
              (call_reduce f engine manager id (record e { «data» = e.«data» ++ e'.«data» }) s j)
    unfolding call_reduce
    call_reduce-append id e e' s j j' accum key start first back =
        let k = state_key f engine manager id e in
        let k' : state_key f engine manager id e' ≡ k =
          ap (λ (entry : Entry). get_operator_state_key id reduce entry.value) key in
        let whole = accumulate-append (manager.get k s) e.«data» e'.«data» j start in
        rw (whole, first, k', read_back k (get_data f accum) s, resume accum e'.«data» j' back)
          (finish e' e k (manager.set k (get_data f accum) s) s
            (fold_entries f engine (from_vec f) accum e'.«data» j'))
