-- ===== src/Stream/Grouping.antt =====
-- KeyByOperator of src/stream/src/dataflow.rs: what becomes of the values of an event.
use lightflus.Base.{
  ℕ, suc, ◌+◌, Option, none, some, Ordering, List, [], ◌∷◌, ◌++◌, ◌≡◌, refl, map, map_option,
  length, length-append, All, In, inl, inr, unwrap_or, arith, subst,
}
use lightflus.Proto.Event.{Entry, KeyedDataEvent}
use lightflus.Types.{TypedValue, Formats, decoded, partial_cmp, cmp}
use lightflus.Types.OrderLaws.{partial_cmp_lem, reverse}
use lightflus.Stream.Defs.{Engine}
use lightflus.Types.{to_entry}
use lightflus.Stream.Operators.{
  Groups, first_event, push_value, group_at, group_value, group_values, keyed, call_key_by,
}

reversed : (o : Option Ordering) → o ≡ map_option reverse o → unwrap_or o Ordering.eq ≡ Ordering.eq
reversed none h = refl
reversed (some Ordering.eq) h = refl
reversed (some Ordering.lt) h = cc
reversed (some Ordering.gt) h = cc

-- Every value is `Equal` to itself, a NaN too.
cmp_self : (v : TypedValue) → cmp v v ≡ Ordering.eq
unfolding cmp
cmp_self v = reversed (partial_cmp v v) (partial_cmp_lem v v).1

last-In : {A : Type 0} (xs : List A) (x : A) → In x (xs ++ x ∷ [])
last-In [] x = inl refl
last-In (y ∷ ys) x = inr (last-In ys x)

front-In : {A : Type 0} (xs ys : List A) (x : A) → In x xs → In x (xs ++ ys)
front-In [] ys x i = absurd i
front-In (z ∷ zs) ys x (inl e) = inl e
front-In (z ∷ zs) ys x (inr i) = inr (front-In zs ys x i)

module _ (f : Formats) {J : Type 0} (engine : Engine J) where
  -- the number of values in the groups
  abbrev pub size : Groups f engine → ℕ
  size [] = 0
  size ((k, event) ∷ groups) = length event.«data» + size groups

  -- A group whose key is `Equal` to the value's key holds the value.
  abbrev pub Holds : Groups f engine → TypedValue → Entry → Type 0
  Holds groups key value =
      (g : TypedValue × KeyedDataEvent) × In g groups
      × (cmp key g.0 ≡ Ordering.eq)
      × In value g.1.«data»

  -- The event of a group carries the group's key and comes from the operator.
  abbrev pub Labelled : ℕ → TypedValue × KeyedDataEvent → Type 0
  Labelled id g = (g.1.key ≡ some (to_entry f g.0)) × (g.1.from_operator_id ≡ id)

  module _ (id : ℕ) (key : TypedValue) (value : Entry) where
    module _ (k : TypedValue) (event : KeyedDataEvent) (groups rest : Groups f engine) where
      size-at :
          (r : Ordering)
          → size rest ≡ suc (size groups)
          → size (group_at f engine r id key value k event groups rest)
            ≡ suc (length event.«data» + size groups)
      size-at Ordering.eq h = omega (arith, length-append event.«data» (value ∷ []))
      size-at Ordering.lt h = omega arith
      size-at Ordering.gt h = omega (arith, h)

      Holds-at :
          (r : Ordering)
          → cmp key k ≡ r
          → Holds rest key value
          → Holds (group_at f engine r id key value k event groups rest) key value
      Holds-at Ordering.eq e h =
          ((k, push_value f engine value event), inl refl, e, last-In event.«data» value)
      Holds-at Ordering.lt e h =
          ((key, first_event f engine id key value), inl refl, cmp_self key, inl refl)
      Holds-at Ordering.gt e h = (h.0, inr h.1, h.2, h.3)

      still-Holds :
          (r : Ordering) (j : TypedValue) (w : Entry)
          → (Holds groups j w → Holds rest j w)
          → Holds ((k, event) ∷ groups) j w
          → Holds (group_at f engine r id key value k event groups rest) j w
      still-Holds Ordering.eq j w step (g, inl e, c, i) = (
        (k, push_value f engine value event),
        inl refl,
        subst (λ (x : TypedValue × KeyedDataEvent). cmp j x.0 ≡ Ordering.eq) e c,
        front-In event.«data» (value ∷ []) w
            (subst (λ (x : TypedValue × KeyedDataEvent). In w x.1.«data») e i),
      )
      still-Holds Ordering.eq j w step (g, inr i, c, h) = (g, inr i, c, h)
      still-Holds Ordering.lt j w step (g, i, c, h) = (g, inr i, c, h)
      still-Holds Ordering.gt j w step (g, inl e, c, h) = (g, inl e, c, h)
      still-Holds Ordering.gt j w step (g, inr i, c, h) =
          let (g', i', c', h') = step (g, i, c, h) in (g', inr i', c', h')

      Labelled-at :
          (r : Ordering)
          → Labelled id (k, event)
          → All (Labelled id) groups
          → All (Labelled id) rest
          → All (Labelled id) (group_at f engine r id key value k event groups rest)
      Labelled-at Ordering.eq here old new = (here, old)
      Labelled-at Ordering.lt here old new = ((refl, refl), (here, old))
      Labelled-at Ordering.gt here old new = (here, new)

    size-group :
        (groups : Groups f engine)
        → size (group_value f engine id key value groups) ≡ suc (size groups)
    unfolding group_value
    size-group [] = refl
    size-group ((k, event) ∷ groups) =
        size-at k event groups (group_value f engine id key value groups) (cmp key k)
          (size-group groups)

    Holds-group :
        (groups : Groups f engine) → Holds (group_value f engine id key value groups) key value
    unfolding group_value
    Holds-group [] = ((key, first_event f engine id key value), inl refl, cmp_self key, inl refl)
    Holds-group ((k, event) ∷ groups) =
        Holds-at k event groups (group_value f engine id key value groups) (cmp key k) refl
          (Holds-group groups)

    kept-Holds :
        (groups : Groups f engine) (j : TypedValue) (w : Entry)
        → Holds groups j w
        → Holds (group_value f engine id key value groups) j w
    unfolding group_value
    kept-Holds [] j w h = absurd (h.1)
    kept-Holds ((k, event) ∷ groups) j w h =
        still-Holds k event groups (group_value f engine id key value groups) (cmp key k) j w
          (kept-Holds groups j w) h

    Labelled-group :
        (groups : Groups f engine)
        → All (Labelled id) groups
        → All (Labelled id) (group_value f engine id key value groups)
    unfolding group_value
    Labelled-group [] h = ((refl, refl), tt)
    Labelled-group ((k, event) ∷ groups) h =
        Labelled-at k event groups (group_value f engine id key value groups) (cmp key k) h.0 h.1
          (Labelled-group groups h.1)

  module _ (id : ℕ) where
    abbrev Grouped : List (TypedValue × Entry) → Groups f engine → Groups f engine → Type 0
    Grouped pairs groups result =
        (size result ≡ size groups + length pairs)
        × All (λ p. Holds result p.0 p.1) pairs
        × ((j : TypedValue) (w : Entry) → Holds groups j w → Holds result j w)
        × (All (Labelled id) groups → All (Labelled id) result)

    Grouped-values :
        (pairs : List (TypedValue × Entry)) (groups : Groups f engine)
        → Grouped pairs groups (group_values f engine id pairs groups)
    unfolding group_values
    Grouped-values [] groups = (omega arith, tt, (λ j w h. h), λ h. h)
    Grouped-values ((key, value) ∷ pairs) groups =
        let next = group_value f engine id key value groups in
        let (count, held, kept, labelled) = Grouped-values pairs next in
        (
          omega (arith, count, size-group id key value groups),
          (kept key value (Holds-group id key value groups), held),
          (λ j w h. kept j w (kept-Holds id key value groups j w h)),
          λ h. labelled (Labelled-group id key value groups h),
        )

    -- KeyBy loses no value and makes none: where the entries are decoded and given their keys, the
    -- events that it answers with are those of groups which hold as many values as the event, each
    -- value in a group whose key is `Equal` to the value's key. Each event carries its group's key
    -- and the operator's number.
    pub call_key_by_lem :
        (event : KeyedDataEvent) (j j' : J) (pairs : List (TypedValue × Entry))
        → keyed f engine event.«data» j ≡ decoded (pairs, j')
        → (groups : Groups f engine) × (call_key_by f engine id event j
            ≡ decoded (map (λ g. g.1) groups, j'))
          × (size groups ≡ length pairs)
          × All (λ p. Holds groups p.0 p.1) pairs
          × All (Labelled id) groups
    unfolding call_key_by
    call_key_by_lem event j j' pairs h =
        let (count, held, kept, labelled) = Grouped-values pairs [] in
        (group_values f engine id pairs [], rw h refl, omega (arith, count), held, labelled tt)
