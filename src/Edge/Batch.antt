-- ===== src/Edge/Batch.antt =====
-- LocalOutEdge::batch_write of src/stream/src/edge.rs against the queue's room.
use lightflus.Base.{
  ℕ, zero, suc, ◌-◌, false, some, List, [], ◌∷◌, ◌++◌, ◌≡◌, refl, sym, ap, ◌∙◌, map, ok, err,
  length, length-append, take, drop, leb, Bool-cases, inl, inr, arith,
}
use mathlib.Core.List.{append_assoc, append-nil}
use lightflus.Base.Sorting.{insert_by_key, sort_by_key}
use lightflus.Proto.Event.{LocalEvent, event_id, set_to_operator_id}
use lightflus.Edge.{
  Serializer, Channel, Failed, all_sent, failed, queue_full, Sent, try_write, try_all, collect,
  failures, summary, batch_write,
}

module _ (serializer : Serializer) (buf : LocalEvent → List ℕ)
    (encodes : (e : LocalEvent) → serializer.serialize e ≡ some (buf e)) where
  -- the bytes of events that are sent to an operator
  abbrev pub bytes_to : ℕ → List (ℕ × LocalEvent) → List (List ℕ)
  bytes_to id schedule = map (λ s. buf (set_to_operator_id id s.1)) schedule

  -- the events in the order of their positions
  abbrev pub in_order : List (ℕ × LocalEvent) → List LocalEvent
  in_order schedule = map (λ s. s.1) (sort_by_key (λ s. s.0) schedule)

  -- the error of each event that does not fit
  abbrev pub overflow : List LocalEvent → Failed
  overflow [] = all_sent
  overflow (e ∷ es) = failed (event_id e) queue_full (overflow es)

  -- an event that did not fit, at its position
  abbrev refused : ℕ × LocalEvent → ℕ × ℕ × Sent
  refused s = (s.0, event_id s.1, err queue_full)

  refused-insert :
      (s : ℕ × LocalEvent) (schedule : List (ℕ × LocalEvent))
      → insert_by_key (λ a. a.0) (refused s) (map refused schedule)
        ≡ map refused (insert_by_key (λ a. a.0) s schedule)
  unfolding insert_by_key
  refused-insert s [] = refl
  refused-insert s (r ∷ schedule) = elim (Bool-cases (leb s.0 r.0)) [
    | inl e ↦ rw e refl
    | inr e ↦ rw e (ap (λ rs. refused r ∷ rs) (refused-insert s schedule))
  ]

  refused-sort :
      (schedule : List (ℕ × LocalEvent))
      → sort_by_key (λ a. a.0) (map refused schedule)
        ≡ map refused (sort_by_key (λ a. a.0) schedule)
  unfolding sort_by_key
  refused-sort [] = refl
  refused-sort (s ∷ schedule) =
      rw (refused-sort schedule) (refused-insert s (sort_by_key (λ a. a.0) schedule))

  failures-refused :
      (schedule : List (ℕ × LocalEvent))
      → failures serializer (map (λ a. (a.1, a.2)) (map refused schedule))
        ≡ overflow (map (λ s. s.1) schedule)
  unfolding failures
  failures-refused [] = refl
  failures-refused (s ∷ schedule) =
      ap (failed (event_id s.1) queue_full) (failures-refused schedule)

  -- An event that was sent is not among the failures, wherever it is.
  failures-sent :
      (p id : ℕ) (answers : List (ℕ × ℕ × Sent))
      → failures serializer
          (map (λ a. (a.1, a.2)) (insert_by_key (λ a. a.0) (p, id, ok tt) answers))
        ≡ failures serializer (map (λ a. (a.1, a.2)) answers)
  unfolding failures insert_by_key
  failures-sent p id [] = refl
  failures-sent p id ((q, i, ok u) ∷ answers) = elim (Bool-cases (leb p q)) [
    | inl e ↦ rw e refl
    | inr e ↦ rw e (failures-sent p id answers)
  ]
  failures-sent p id ((q, i, err f) ∷ answers) = elim (Bool-cases (leb p q)) [
    | inl e ↦ rw e refl
    | inr e ↦ rw e (ap (failed i f) (failures-sent p id answers))
  ]

  -- The room that is left in the channel.
  abbrev pub room : Channel → ℕ
  room c = c.capacity - length c.queue

  abbrev with : LocalEvent → Channel → Channel
  with e c = record c { queue = c.queue ++ buf e ∷ [] }

  refuses :
      (e : LocalEvent) (c : Channel)
      → c.closed ≡ false
      → room c ≡ 0
      → try_write serializer e c ≡ (c, err queue_full)
  unfolding try_write
  refuses e c open_now h = rw (encodes e) (ground arith)

  takes :
      (e : LocalEvent) (c : Channel) (n : ℕ)
      → c.closed ≡ false
      → room c ≡ suc n
      → try_write serializer e c ≡ (with e c, ok tt)
  unfolding try_write
  takes e c n open_now h = rw (encodes e) (ground arith)

  full :
      (to : ℕ) (schedule : List (ℕ × LocalEvent)) (c : Channel)
      → c.closed ≡ false
      → room c ≡ 0
      → try_all serializer to schedule c ≡ (c, map refused schedule)
  unfolding try_all
  full to [] c open_now h = refl
  full to (s ∷ schedule) c open_now h =
      rw (refuses (set_to_operator_id to s.1) c open_now h, full to schedule c open_now h) refl

  fits :
      (to : ℕ) (schedule : List (ℕ × LocalEvent)) (c : Channel) (n : ℕ)
      → c.closed ≡ false
      → room c ≡ n
      → ((try_all serializer to schedule c).0.queue ≡ c.queue ++ take n (bytes_to to schedule))
        × (failures serializer (collect serializer (try_all serializer to schedule c).1)
            ≡ overflow (in_order (drop n schedule)))
  unfolding try_all collect sort_by_key failures
  fits to schedule c zero open_now h = rw (full to schedule c open_now h) (
    sym (append-nil _),
    rw (refused-sort schedule) (failures-refused (sort_by_key (λ s. s.0) schedule)),
  )
  fits to [] c (suc n) open_now h = (sym (append-nil _), refl)
  fits to (s ∷ schedule) c (suc n) open_now h =
      let e' = set_to_operator_id to s.1 in
      let less : room (with e' c) ≡ n = omega (arith, h, length-append c.queue (buf e' ∷ [])) in
      let (q, f) = fits to schedule (with e' c) n open_now less in
      rw (takes e' c n open_now h) (
        q ∙ append_assoc c.queue (buf e' ∷ []) (take n (bytes_to to schedule)),
        failures-sent s.0 (event_id s.1) _ ∙ f,
      )

  -- A batch is written to an open channel, from which nothing is read meanwhile. In whichever order
  -- its events are sent, those that are sent first are in the channel, in the order they were sent,
  -- as far as there is room, each addressed to the operator. The batch succeeds when all the events
  -- fit, and otherwise answers the ids of exactly those that do not, in the order of the batch, each
  -- with the error of a full queue.
  pub batch_write_lem :
      (to : ℕ) (schedule : List (ℕ × LocalEvent)) (c : Channel)
      → c.closed ≡ false
      → ((batch_write serializer to schedule c).0.queue
          ≡ c.queue ++ take (room c) (bytes_to to schedule))
        × ((batch_write serializer to schedule c).1
            ≡ summary serializer (overflow (in_order (drop (room c) schedule))))
  unfolding batch_write
  batch_write_lem to schedule c open_now =
      let (q, f) = fits to schedule c (room c) open_now refl in (q, ap (summary serializer) f)
