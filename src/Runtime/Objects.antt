-- ===== src/Runtime/Objects.antt =====
-- The fields of an object, inserted one by one in any order (src/stream/src/v8_runtime.rs).
use lightflus.Base.{
  ℕ, Bool, true, false, Option, none, some, Str, ◌≡◌, refl, sym, if◌then◌else◌, ◌||◌, Ordering, cmp,
  same, same_iff, list_ord, nat_ord, list_cmp_refl, subst, ap, arith, Bool-cases, inl, inr, [], ◌∷◌,
  compare,
}
use lightflus.Types.{TypedValue, Fields, end, field}
use lightflus.Runtime.Convert.{insert_field}

-- Every key comes after a key.
unfoldable pub After : Str → Fields → Type 0
After k end = Unit
After k (field j w m) = (cmp k j ≡ Ordering.lt) × After k m

-- The keys are in their order, each there once.
unfoldable pub IsAscending : Fields → Type 0
IsAscending end = Unit
IsAscending (field k v m) = After k m × IsAscending m

unfoldable pub get_field : Str → Fields → Option TypedValue
get_field k end = none
get_field k (field j w m) = if same k j then some w else get_field k m

-- the fields whose key passes a test
unfoldable pub keep_fields : (Str → Bool) → Fields → Fields
keep_fields p end = end
keep_fields p (field k v m) = let rest = keep_fields p m in if p k then field k v rest else rest

compare-flip : (a b : ℕ) → compare a b ≡ Ordering.lt → compare b a ≡ Ordering.gt
compare-flip a b h = ground arith

cmp-flip : (j k : Str) → cmp j k ≡ Ordering.lt → cmp k j ≡ Ordering.gt
cmp-flip [] [] h = cc
cmp-flip [] (x ∷ k) h = refl
cmp-flip (y ∷ j) [] h = cc
cmp-flip (y ∷ j) (x ∷ k) h = ground (arith, cmp-flip j k)

same-after : (j k : Str) → cmp j k ≡ Ordering.lt → same k j ≡ false
same-after j k h = rw (cmp-flip j k h) refl

same-before : (j k : Str) → cmp k j ≡ Ordering.gt → same j k ≡ false
same-before j k h = elim (Bool-cases (same j k)) [
  | inl e ↦ cc ((same_iff j k).0 e, h, list_cmp_refl k)
  | inr e ↦ e
]

After-keep : (p : Str → Bool) (k : Str) (m : Fields) → After k m → After k (keep_fields p m)
unfolding After keep_fields
After-keep p k end h = tt
After-keep p k (field j w m) h = elim (Bool-cases (p j)) [
  | inl e ↦ rw e (h.0, After-keep p k m h.1)
  | inr e ↦ rw e (After-keep p k m h.1)
]

insert-After :
    (k : Str) (v : TypedValue) (m : Fields) → After k m → insert_field k v m ≡ field k v m
unfolding After insert_field
insert-After k v end h = refl
insert-After k v (field j w m) h = rw (h.0) refl

get-After :
    (j k : Str) (v : TypedValue) (m : Fields)
    → After j m
    → get_field k m ≡ some v
    → cmp k j ≡ Ordering.gt
unfolding After get_field
get-After j k v end h g = cc
get-After j k v (field i w m) h g = elim (Bool-cases (same k i)) [
  | inl e ↦ rw ((same_iff k i).0 e) (cmp-flip j i h.0)
  | inr e ↦ get-After j k v m h.1 (cc)
]

keep-other :
    (p : Str → Bool) (k : Str) (m : Fields)
    → After k m
    → keep_fields (λ j. same j k || p j) m ≡ keep_fields p m
unfolding After keep_fields
keep-other p k end h = refl
keep-other p k (field j w m) h = rw (same-after k j h.0, keep-other p k m h.1) refl

insert_here :
    (p : Str → Bool) (k : Str) (v : TypedValue) (j : Str) (w : TypedValue) (m : Fields)
    → After k m
    → k ≡ j
    → w ≡ v
    → insert_field k v (keep_fields p (field j w m))
      ≡ keep_fields (λ j'. same j' k || p j') (field j w m)
unfolding insert_field keep_fields
insert_here p k v j w m h e f =
    rw (sym e, f, list_cmp_refl k, keep-other p k m h)
      (elim (Bool-cases (p k)) [
        | inl t ↦ rw (t, list_cmp_refl k) refl
        | inr t ↦ rw (t, insert-After k v (keep_fields p m) (After-keep p k m h)) refl
      ])

insert_later :
    (p : Str → Bool) (k : Str) (v : TypedValue) (j : Str) (w : TypedValue) (m : Fields)
    → cmp k j ≡ Ordering.gt
    → insert_field k v (keep_fields p m) ≡ keep_fields (λ j'. same j' k || p j') m
    → insert_field k v (keep_fields p (field j w m))
      ≡ keep_fields (λ j'. same j' k || p j') (field j w m)
unfolding insert_field keep_fields
insert_later p k v j w m gt ih =
    rw (same-before j k gt)
      (elim (Bool-cases (p j)) [ inl t ↦ rw (t, gt, ih) refl | inr t ↦ rw (t, ih) refl ])

-- A field of an object is inserted among those that are there already.
pub insert-keep :
    (p : Str → Bool) (k : Str) (v : TypedValue) (m : Fields)
    → IsAscending m
    → get_field k m ≡ some v
    → insert_field k v (keep_fields p m) ≡ keep_fields (λ j. same j k || p j) m
unfolding IsAscending insert_field keep_fields get_field
insert-keep p k v end h g = cc
insert-keep p k v (field j w m) h g = elim (Bool-cases (same k j)) [
  | inl e ↦
      insert_here p k v j w m (subst (λ i. After i m) (sym ((same_iff k j).0 e)) h.0)
        ((same_iff k j).0 e) (cc)
  | inr e ↦ insert_later p k v j w m (get-After j k v m h.0 (cc)) (insert-keep p k v m h.1 (cc))
]

pub keep-all :
    (p : Str → Bool) (m : Fields)
    → ((k : Str) (v : TypedValue) → get_field k m ≡ some v → p k ≡ true)
    → IsAscending m
    → keep_fields p m ≡ m
unfolding keep_fields get_field IsAscending
keep-all p end h asc = refl
keep-all p (field k v m) h asc =
    rw (h k v (rw (list_cmp_refl k) refl))
      (ap (field k v) (keep-all p m (λ j w g. h j w (rw (get-After k j w m asc.0 g) g)) asc.1))

pub keep-none : (m : Fields) → keep_fields (λ j. false) m ≡ end
unfolding keep_fields
keep-none end = refl
keep-none (field k v m) = keep-none m
