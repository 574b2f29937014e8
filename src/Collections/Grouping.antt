-- ===== src/Collections/Grouping.antt =====
-- Grouping by a key (src/common/src/collections/lang.rs).
use lightflus.Base.{
  Option, none, some, List, [], ◌∷◌, ◌++◌, Ord, map, if◌then◌else◌, same, same_iff, keep, ◌≡◌, refl,
  ◌∙◌, ap, sym, Bool-cases, inl, inr,
}
use mathlib.Core.List.{append_assoc}
use lightflus.Base.BTreeMap.{BTreeMap, get, insert, get-insert}
use lightflus.Collections.{
  extend, merge, merge_all, reduce_maps, group, pop_all, group_deque_as_btree_map,
}

-- what is there of a key with elements that come behind it; there is no key without elements
abbrev pub with_more {κ} : {N : Type κ} → Option (List N) → List N → Option (List N)
with_more o [] = o
with_more none (y ∷ ys) = some (y ∷ ys)
with_more (some xs) (y ∷ ys) = some (xs ++ y ∷ ys)

with_more-append {κ} :
    {N : Type κ} (p : Option (List N)) (x : N) (ys : List N)
    → with_more (with_more p (x ∷ [])) ys ≡ with_more p (x ∷ ys)
with_more-append none x [] = refl
with_more-append none x (y ∷ ys) = refl
with_more-append (some xs) x [] = refl
with_more-append (some xs) x (y ∷ ys) = ap some (append_assoc xs (x ∷ []) (y ∷ ys))

module _ {ℓ κ} {K : Type ℓ} {N : Type κ} ⦃o : Ord K⦄ where
  get-extend_where :
      (k j : K) (x : N) (m : BTreeMap K (List N)) (there : Option (List N))
      → get j m ≡ there
      → get k (extend j (x ∷ []) there m)
        ≡ (if same k j then with_more (get k m) (x ∷ []) else get k m)
  unfolding extend
  get-extend_where k j x m none h = get-insert j k (x ∷ []) m ∙ elim (Bool-cases (same k j)) [
    | inl e ↦ rw (e, (same_iff k j).0 e, h) refl
    | inr e ↦ rw e refl
  ]
  get-extend_where k j x m (some values) h =
      get-insert j k (values ++ x ∷ []) m ∙ elim (Bool-cases (same k j)) [
        | inl e ↦ rw (e, (same_iff k j).0 e, h) refl
        | inr e ↦ rw e refl
      ]

  get-extend :
      (k j : K) (x : N) (m : BTreeMap K (List N))
      → get k (extend j (x ∷ []) (get j m) m)
        ≡ (if same k j then with_more (get k m) (x ∷ []) else get k m)
  get-extend k j x m = get-extend_where k j x m (get j m) refl

  get-pop_all :
      (key : N → K) (k : K) (xs : List N) (m : BTreeMap K (List N))
      → get k (pop_all (λ x. (key x, x)) xs m) ≡ with_more (get k m) (keep (λ x. same k (key x)) xs)
  unfolding pop_all
  get-pop_all key k [] m = refl
  get-pop_all key k (x ∷ xs) m =
      get-pop_all key k xs _
      ∙ rw (get-extend k (key x) x m) (elim (Bool-cases (same k (key x))) [
        | inl e ↦ rw (e, with_more-append (get k m) x _) refl
        | inr e ↦ rw e refl
      ])

  merge_all-pop_all :
      (key : N → K) (xs : List N) (m : BTreeMap K (List N))
      → merge_all m (map (λ elem. (key elem, elem ∷ []) ∷ []) xs) ≡ pop_all (λ x. (key x, x)) xs m
  unfolding merge_all pop_all merge
  merge_all-pop_all key [] m = refl
  merge_all-pop_all key (x ∷ xs) m = merge_all-pop_all key xs _

  -- Grouping a list gives each key the elements with that key, in their order, and has no other key;
  -- the elements of a deque, where the extractor leaves them as they are, are grouped in the same
  -- way and the deque is emptied.
  pub group_lem :
      (key : N → K) (xs : List N)
      → ((k : K) → get k (group key xs) ≡ with_more none (keep (λ x. same k (key x)) xs))
        × (group_deque_as_btree_map (λ x. (key x, x)) xs ≡ (group key xs, []))
  unfolding group reduce_maps group_deque_as_btree_map pop_all extend get insert
  group_lem key [] = (λ k. refl, refl)
  group_lem key (x ∷ xs) =
      let joined = merge_all-pop_all key xs ((key x, x ∷ []) ∷ []) in
      (λ k. ap (get k) joined ∙ get-pop_all key k (x ∷ xs) [], ap (λ m. (m, [])) (sym joined))
