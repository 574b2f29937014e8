-- ===== src/Tests/Runtime.antt =====
-- A small engine whose values are those of the stream, and an object through it and back.
use lightflus.Base.{
  ℕ, zero, suc, ◌<◌, Bool, true, false, Option, none, some, List, [], ◌∷◌, Str, ◌≡◌, refl, ◌∙◌,
  same, same_iff, same_refl, list_ord, nat_ord, if◌then◌else◌, or_else, arith, Bool-cases, inl, inr,
  subst,
}
use lightflus.Base.BTreeMap
use lightflus.Types.{
  TypedValue, Fields, string, big_int, boolean, number, null, object, invalid, end, field, decoded,
  JsonText,
}
use lightflus.Runtime.{
  V8, Kind, kind_of, wrap_value, to_typed_value, set_entries, IsProper, NameAt, IsObjectOf, IsV8,
}
use lightflus.Runtime.Objects.{After, IsAscending, get_field}
use lightflus.Runtime.Matching.{IsTransferable, AreTransferable, nesting, nesting_in}
use lightflus.Runtime.Wrapping.{to_typed_value-wrap_value}

-- a property that is there is written over, and another comes last
unfoldable set_field : Str → TypedValue → Fields → Fields
set_field k v end = field k v end
set_field k v (field j w m) =
    let rest = set_field k v m in if same k j then field j v m else field j w rest

unfoldable nth_key : Fields → ℕ → Option TypedValue
nth_key end i = none
nth_key (field k v m) zero = some (string k)
nth_key (field k v m) (suc i) = nth_key m i

unfoldable count : Fields → ℕ
count end = 0
count (field k v m) = suc (count m)

abbrev set_of : TypedValue → TypedValue → TypedValue → TypedValue
unfolding set_field
set_of (object m) (string k) v = object (set_field k v m)
set_of o k v = o

abbrev text_of : TypedValue → Str
text_of (string s) = s
text_of _ = []

abbrev bits_of : TypedValue → ℕ
bits_of (big_int x) = x
bits_of (number x) = x
bits_of _ = 0

abbrev truth_of : TypedValue → Bool
truth_of (boolean b) = b
truth_of _ = false

abbrev fields_of : TypedValue → Fields
fields_of (object m) = m
fields_of _ = end

abbrev is_kind : Kind → TypedValue → Bool
is_kind Kind.undefined_kind invalid = true
is_kind Kind.big_int_kind (big_int x) = true
is_kind Kind.number_kind (number x) = true
is_kind Kind.null_kind null = true
is_kind Kind.boolean_kind (boolean b) = true
is_kind Kind.string_kind (string s) = true
is_kind Kind.object_kind (object m) = true
is_kind _ _ = false

-- an object is the list of its own names
abbrev engine : V8 TypedValue
unfolding set_field nth_key count get_field
engine = record {
  string_new = λ s. some (string s);
  big_int_new_from_i64 = big_int;
  boolean_new = boolean;
  number_new = number;
  new_null = null;
  undefined = invalid;
  object_new = object end;
  set = set_of;
  json_parse = λ w. none;
  is_undefined = is_kind Kind.undefined_kind;
  is_big_int = is_kind Kind.big_int_kind;
  is_number = is_kind Kind.number_kind;
  is_null = is_kind Kind.null_kind;
  is_boolean = is_kind Kind.boolean_kind;
  is_string = is_kind Kind.string_kind;
  is_array = λ w. false;
  is_object = is_kind Kind.object_kind;
  to_big_int = some;
  i64_value = λ w. (bits_of w, true);
  number_value = λ w. some (bits_of w);
  is_true = truth_of;
  to_string = some;
  to_rust_string_lossy = text_of;
  to_object = some;
  has_index = λ w i. none;
  get_index = λ w i. nth_key (fields_of w) i;
  get_own_property_names = some;
  length = λ w. count (fields_of w);
  get = λ w k. get_field (text_of k) (fields_of w);
}

unfoldable set_all : List (Str × TypedValue) → Fields → Fields
unfolding set_field
set_all [] m = m
set_all ((k, v) ∷ es) m = set_all es (set_field k v m)

set_entries_lem :
    (es : List (Str × TypedValue)) (m : Fields)
    → set_entries engine es (object m) ≡ some (object (set_all es m))
unfolding set_entries set_all engine
set_entries_lem [] m = refl
set_entries_lem ((k, v) ∷ es) m = set_entries_lem es (set_field k v m)

get-set_field :
    (k j : Str) (v : TypedValue) (m : Fields)
    → get_field k (set_field j v m) ≡ (if same k j then some v else get_field k m)
unfolding get_field set_field
get-set_field k j v end = refl
get-set_field k j v (field i w m) =
    ground (arith, same_iff j i, same_iff k i, same_iff k j, get-set_field k j v m)

get-set_all :
    (k : Str) (es : List (Str × TypedValue)) (m : Fields)
    → IsProper engine es
    → get_field k (set_all es m) ≡ or_else (BTreeMap.get k es) (get_field k m)
unfolding set_all IsProper BTreeMap.get
get-set_all k [] m h = refl
get-set_all k ((j, v) ∷ es) m h =
    get-set_all k es (set_field j v m) h.2
    ∙ rw (get-set_field k j v m) (elim (Bool-cases (same k j)) [
      | inl e ↦ rw (e, (same_iff k j).0 e, h.1) refl
      | inr e ↦ rw e refl
    ])

lt_zero : {n : ℕ} → n < 0 → ⊥
lt_zero h = omega arith

engine-NameAt :
    (es : List (Str × TypedValue)) (m : Fields)
    → ((k : Str) → get_field k m ≡ BTreeMap.get k es)
    → (i : ℕ) → i < count m
    → NameAt engine es (object m) (object m) i
unfolding engine get_field count nth_key
engine-NameAt es m agree i lt =
    let (k, v, at, got) = nth m i lt in
    record {
      key = string k;
      value = v;
      at_index = at;
      in_entries = rw (← agree k) got;
      in_object = got;
    }
  where
    nth :
        (m : Fields) (i : ℕ)
        → i < count m
        → (k : Str) × (v : TypedValue) × (nth_key m i ≡ some (string k)) × (get_field k m ≡ some v)
    nth end i lt = elim (lt_zero lt) [ ]
    nth (field k v m) zero lt = (k, v, refl, rw (same_refl k) refl)
    nth (field j w m) (suc i) lt =
        let (k, v, at, got) = nth m i (omega arith) in
        elim (Bool-cases (same k j)) [
          | inl e ↦ (k, w, at, rw e refl)
          | inr e ↦ (k, v, at, rw e got)
        ]

engine-IndexOf :
    (k : Str) (v : TypedValue) (m : Fields)
    → get_field k m ≡ some v
    → (i : ℕ) × (i < count m) × (nth_key m i ≡ some (string k))
unfolding get_field count nth_key
engine-IndexOf k v end h = cc
engine-IndexOf k v (field j w m) h = elim (Bool-cases (same k j)) [
  | inl e ↦ (zero, omega arith, rw ((same_iff k j).0 e) refl)
  | inr e ↦ let (i, lt, at) = engine-IndexOf k v m (cc) in (suc i, omega arith, at)
]

object-eq : {o : Option TypedValue} {a b : TypedValue} → o ≡ some a → o ≡ some b → a ≡ b
object-eq p q = cc

or_none : (o : Option TypedValue) → or_else o none ≡ o
or_none none = refl
or_none (some a) = refl

engine-IsObjectOf :
    (es : List (Str × TypedValue)) (obj : TypedValue)
    → IsProper engine es
    → set_entries engine es (object end) ≡ some obj
    → IsObjectOf engine es obj
unfolding engine kind_of
engine-IsObjectOf es obj proper made =
    subst (IsObjectOf engine es) (object-eq (set_entries_lem es end) made) (record {
      kind = refl;
      itself = refl;
      names = object (set_all es end);
      own_names = refl;
      sound = engine-NameAt es (set_all es end) agree;
      complete = λ k w got.
          let (i, lt, at) = engine-IndexOf k w (set_all es end) (agree k ∙ got) in
          record { index = i; key = string k; below = lt; at_index = at; is_name = refl };
    })
  where
    agree : (k : Str) → get_field k (set_all es end) ≡ BTreeMap.get k es
    agree k = get-set_all k es end proper ∙ or_none (BTreeMap.get k es)

engine_laws : IsV8 engine
unfolding engine kind_of
engine_laws = record {
  max_length = 100;
  string_made =
      λ s h. record { made = string s; is_made = refl; kind = refl; itself = refl; read = refl };
  big_int_kind = λ x. refl;
  big_int_itself = λ x. refl;
  big_int_read = λ x. refl;
  boolean_kind = λ b. refl;
  boolean_read = λ b. refl;
  number_kind = λ x. refl;
  number_read = λ x h. refl;
  null_kind = refl;
  undefined_kind = refl;
  object_made = engine-IsObjectOf;
}

-- {"a": {"b": 7n}, "c": null}
abbrev nested : TypedValue
nested =
    object (field (97 ∷ []) (object (field (98 ∷ []) (big_int 7) end)) (field (99 ∷ []) null end))

no_text : JsonText
no_text = record { to_vec = λ j. none; from_text = λ t. none; from_utf8_lossy = λ bytes. [] }

nested-IsTransferable : IsTransferable (engine_laws.max_length) nested
unfolding engine_laws IsTransferable IsAscending After AreTransferable
nested-IsTransferable = (
  ((refl, tt), (tt, tt)),
  (omega arith, refl, ((tt, tt), (omega arith, refl, tt, tt)), (omega arith, refl, tt, tt)),
)

shallow : nesting nested < 3
unfolding nesting nesting_in
shallow = omega arith

to_typed_value-wrap_value_example :
    (w : TypedValue) × (wrap_value engine no_text nested ≡ some w)
    × (to_typed_value engine 3 w ≡ decoded (some nested))
to_typed_value-wrap_value_example =
    to_typed_value-wrap_value engine no_text engine_laws nested 3 nested-IsTransferable shallow
