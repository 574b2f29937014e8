-- ===== src/Connector/Rows.antt =====
-- What the MySQL sink executes for events (src/stream/src/connector.rs).
use lightflus.Base.{
  ℕ, suc, ◌*◌, List, [], ◌∷◌, ◌++◌, ◌≡◌, refl, ◌∙◌, ap, sym, ◌⊎◌, All, Result, ok, err, Str, map,
  length, length-append, keep, arith, inl, inr,
}
use lightflus.Proto.Event.{Entry, KeyedDataEvent, KeyedEventSet, keyed_data_stream_event}
use lightflus.Types.{
  TypedValue, Formats, Decoded, decoded, panicked, out_of_fuel, map_decoded, bind, from_slice,
}
use lightflus.Connector.Errors.{ErrorKind, BatchSinkException, of_batch}
use lightflus.Connector.Extract.{Scripts, called, extract, extract_entries, extract_arguments}
use lightflus.Connector.Mysql.{
  Mysql, Query, query, is_bound, flatten, get_arguments, all_rows, batch_sink,
}

decoded-eq : {A : Type 0} {a b : A} → decoded a ≡ decoded b → a ≡ b
decoded-eq h = cc

bind-decoded :
    {A B : Type 0} (m : Decoded A) (k : A → Decoded B) (b : B)
    → bind m k ≡ decoded b
    → (a : A) × (m ≡ decoded a) × (k a ≡ decoded b)
bind-decoded (decoded a) k b h = (a, refl, h)
bind-decoded panicked k b h = cc
bind-decoded out_of_fuel k b h = cc

map-decoded :
    {A B : Type 0} (m : Decoded A) (g : A → B) (b : B)
    → map_decoded g m ≡ decoded b
    → (a : A) × (m ≡ decoded a) × (g a ≡ b)
map-decoded (decoded a) g b h = (a, refl, cc)
map-decoded panicked g b h = cc
map-decoded out_of_fuel g b h = cc

answered : (r : Result (Unit {0}) (Unit {0})) → (r ≡ ok tt) ⊎ (r ≡ err tt)
answered (ok tt) = inl refl
answered (err tt) = inr refl

abbrev failed : BatchSinkException
failed = of_batch ErrorKind.sql_execution_failed

keep-append :
    (xs ys : List TypedValue) → keep is_bound (xs ++ ys) ≡ keep is_bound xs ++ keep is_bound ys
keep-append [] ys = refl
keep-append (x ∷ xs) ys = ground (arith, keep-append xs ys)

keep-flatten :
    (rows : List (List TypedValue))
    → keep is_bound (flatten rows) ≡ flatten (map (keep is_bound) rows)
unfolding flatten
keep-flatten [] = refl
keep-flatten (row ∷ rows) =
    keep-append row (flatten rows) ∙ ap (λ vs. keep is_bound row ++ vs) (keep-flatten rows)

-- Every row has a number of values.
abbrev pub Wide : ℕ → List (List TypedValue) → Type 0
Wide n rows = All (λ row. length row ≡ n) rows

Wide-append :
    (n : ℕ) (rows more : List (List TypedValue)) → Wide n rows → Wide n more → Wide n (rows ++ more)
Wide-append n [] more h k = k
Wide-append n (row ∷ rows) more h k = (h.0, Wide-append n rows more h.1 k)

length-flatten :
    (n : ℕ) (rows : List (List TypedValue)) → Wide n rows → length (flatten rows) ≡ length rows * n
unfolding flatten
length-flatten n [] h = omega arith
length-flatten n (row ∷ rows) h =
    grind (arith, length-append row (flatten rows), length-flatten n rows h.1, h.0)

module _ (f : Formats) (scripts : Scripts) where
  length-extract :
      (name : Str) (sources : List Str) (v : TypedValue) (row : List TypedValue)
      → extract f scripts name sources v ≡ decoded row
      → length row ≡ length sources
  unfolding extract
  length-extract name [] v row h = ground arith
  length-extract name (source ∷ sources) v row h =
      let (r, _, rest) = bind-decoded (called (scripts source name) v) _ row h in
      let (vs, got, same) = map-decoded (extract f scripts name sources v) _ row rest in
      ap length (sym same) ∙ ap suc (length-extract name sources v vs got)

  Wide-entries :
      (name : Str) (sources : List Str) (es : List Entry) (rows : List (List TypedValue))
      → extract_entries f scripts name sources es ≡ decoded rows
      → Wide (length sources) rows
  unfolding extract_entries
  Wide-entries name sources [] rows h = rw (← decoded-eq h) tt
  Wide-entries name sources (e ∷ es) rows h =
      let (v, _, h1) = bind-decoded (from_slice f e.value) _ rows h in
      let (row, wide, h2) = bind-decoded (extract f scripts name sources v) _ rows h1 in
      let (rest, got, same) = map-decoded (extract_entries f scripts name sources es) _ rows h2 in
      rw (← same) (length-extract name sources v row wide, Wide-entries name sources es rest got)

  module _ (database : Query → Result (Unit {0}) (Unit {0})) where
    Wide-all :
        (m : Mysql) (es : List KeyedDataEvent) (rows : List (List TypedValue))
        → all_rows f scripts database m es ≡ decoded rows
        → Wide (length m.extractors) rows
    unfolding all_rows get_arguments extract_arguments
    Wide-all m [] rows h = rw (← decoded-eq h) tt
    Wide-all m (e ∷ es) rows h =
        let (first, got, h1) =
          bind-decoded (get_arguments f scripts database m (keyed_data_stream_event e)) _ rows h in
        let (rest, got', same) = map-decoded (all_rows f scripts database m es) _ rows h1 in
        rw (← same) (
          Wide-append _ first rest (Wide-entries _ m.extractors e.«data» first got)
            (Wide-all m es rest got'))

    -- A batch is one statement, whatever the number of its rows: the values that can be bound of all
    -- rows, in order. Before that the values are as many as the rows times the extractors, while the
    -- statement has a place for each extractor only once.
    pub batch_sink-rows :
        (m : Mysql) (event_set : KeyedEventSet) (rows : List (List TypedValue))
        → all_rows f scripts database m event_set.events ≡ decoded rows
        → (r : Result BatchSinkException (Unit {0})) × (batch_sink f scripts database m event_set
            ≡ decoded ((m.statement, flatten (map (keep is_bound) rows)) ∷ [], r))
          × (length (flatten rows) ≡ length rows * length m.extractors)
    unfolding batch_sink query
    batch_sink-rows m event_set rows h =
        elim (answered (database (m.statement, flatten (map (keep is_bound) rows)))) [
          | inl e ↦ (
            ok tt,
            rw (h, keep-flatten rows, e) refl,
            length-flatten _ rows (Wide-all m event_set.events rows h),
          )
          | inr e ↦ (
            err failed,
            rw (h, keep-flatten rows, e) refl,
            length-flatten _ rows (Wide-all m event_set.events rows h),
          )
        ]
