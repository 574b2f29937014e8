-- ===== src/Base/HashMap.antt =====
-- std::collections::HashMap, as an association list that is read and written by equality of keys.
-- The order of iteration, which std leaves open, is here the order of insertion.
use lightflus.Base.Compare.{Ord, same, same_iff}
use lightflus.Base.Logic.{if◌then◌else◌, or_else, map_option, Bool-cases}
use mathlib.Core.Path.{◌≡◌, refl}
use mathlib.Core.Logic.{inl, inr}
use mathlib.Core.Bool.{Bool}
use lightflus.Base.Lists.{keep, In}
use mathlib.Core.Option.{Option, none, some}
use mathlib.Core.List.{List, [], ◌∷◌}
use native.Mathlib.Omega.{arith}

abbrev pub HashMap {ℓ κ} : Type ℓ → Type κ → Type (ℓ ⊔ κ)
HashMap K V = List (K × V)

module _ {ℓ κ} {K : Type ℓ} {V : Type κ} ⦃o : Ord K⦄ where
  unfoldable pub get : K → HashMap K V → Option V
  get k [] = none
  get k ((j, v) ∷ m) = if same k j then some v else get k m

  unfoldable pub insert : K → V → HashMap K V → HashMap K V
  insert k v [] = (k, v) ∷ []
  insert k v ((j, w) ∷ m) =
      let rest = insert k v m in if same k j then (k, v) ∷ m else (j, w) ∷ rest

  unfoldable pub remove : K → HashMap K V → HashMap K V
  remove k [] = []
  remove k ((j, w) ∷ m) = let rest = remove k m in if same k j then rest else (j, w) ∷ rest

  pub get-insert :
      (k j : K) (v : V) (m : HashMap K V)
      → get j (insert k v m) ≡ (if same j k then some v else get j m)
  unfolding get insert
  get-insert k j v [] = refl
  get-insert k j v ((i, w) ∷ m) =
      ground (arith, same_iff k i, same_iff j i, same_iff j k, get-insert k j v m)

  pub get-remove :
      (k j : K) (m : HashMap K V) → get j (remove k m) ≡ (if same j k then none else get j m)
  unfolding get remove
  get-remove k j [] = ground arith
  get-remove k j ((i, w) ∷ m) =
      ground (arith, same_iff k i, same_iff j i, same_iff j k, get-remove k j m)

  -- each entry of the first map is inserted into the second
  unfoldable pub insert_all : HashMap K V → HashMap K V → HashMap K V
  unfolding insert
  insert_all [] m = m
  insert_all ((k, v) ∷ es) m = insert_all es (insert k v m)

  -- no key occurs twice
  abbrev pub IsUnique : HashMap K V → Type κ
  IsUnique [] = Unit
  IsUnique ((k, v) ∷ m) = (get k m ≡ none) × IsUnique m

  pub get-keep :
      (p : K → Bool) (j : K) (m : HashMap K V)
      → get j (keep (λ e. p e.0) m) ≡ (if p j then get j m else none)
  unfolding get
  get-keep p j [] = ground arith
  get-keep p j ((i, w) ∷ m) = ground (arith, same_iff j i, get-keep p j m)

  pub keep-IsUnique : (p : K → Bool) (m : HashMap K V) → IsUnique m → IsUnique (keep (λ e. p e.0) m)
  keep-IsUnique p [] h = tt
  keep-IsUnique p ((i, w) ∷ m) h = ground (arith, get-keep p i m, keep-IsUnique p m h.1)

  -- The entries of the first map win.
  pub get-insert_all :
      (j : K) (es m : HashMap K V)
      → IsUnique es
      → get j (insert_all es m) ≡ or_else (get j es) (get j m)
  unfolding get insert_all
  get-insert_all j [] m h = refl
  get-insert_all j ((k, v) ∷ es) m h =
      ground (arith, same_iff j k, get-insert k j v m, get-insert_all j es (insert k v m) h.1)

-- `map.iter().map(|(k, v)| (k.clone(), f(v))).collect()`
abbrev pub map_values {ℓ κ μ} :
    {K : Type ℓ} {V : Type κ} {W : Type μ} → (V → W) → HashMap K V → HashMap K W
map_values f [] = []
map_values f ((k, v) ∷ m) = (k, f v) ∷ map_values f m

pub get-map_values {ℓ κ μ} :
    {K : Type ℓ} {V : Type κ} {W : Type μ} ⦃o : Ord K⦄ (f : V → W) (k : K) (m : HashMap K V)
    → get k (map_values f m) ≡ map_option f (get k m)
unfolding get
get-map_values f k [] = refl
get-map_values f k ((j, v) ∷ m) = ground (arith, get-map_values f k m)

pub insert-IsUnique {ℓ κ} :
    {K : Type ℓ} {V : Type κ} ⦃o : Ord K⦄ (k : K) (v : V) (m : HashMap K V)
    → IsUnique m
    → IsUnique (insert k v m)
unfolding insert get
insert-IsUnique k v [] h = (refl, tt)
insert-IsUnique k v ((j, w) ∷ m) h =
    ground (arith, same_iff k j, same_iff j k, get-insert k j v m, insert-IsUnique k v m h.1)

pub map_values-IsUnique {ℓ κ μ} :
    {K : Type ℓ} {V : Type κ} {W : Type μ} ⦃o : Ord K⦄ (f : V → W) (m : HashMap K V)
    → IsUnique m
    → IsUnique (map_values f m)
map_values-IsUnique f [] h = tt
map_values-IsUnique f ((k, v) ∷ m) h =
    (rw (get-map_values f k m, h.0) refl, map_values-IsUnique f m h.1)

get-found :
    {K V : Type 0} ⦃o : Ord K⦄ (m : HashMap K V) (k : K) (v : V)
    → In (k, v) m
    → (w : V) × (get k m ≡ some w)
unfolding get
get-found [] k v i = absurd i
get-found ((j, w) ∷ m) k v (inl e) = (w, ground (arith, same_iff k j))
get-found ((j, w) ∷ m) k v (inr i) = elim (Bool-cases (same k j)) [
  | inl e ↦ (w, rw e refl)
  | inr e ↦ rw e (get-found m k v i)
]

pub get-In :
    {K V : Type 0} ⦃o : Ord K⦄ (m : HashMap K V) (k : K) (v : V)
    → IsUnique m
    → In (k, v) m
    → get k m ≡ some v
unfolding get
get-In [] k v h i = absurd i
get-In ((j, w) ∷ m) k v h (inl e) = ground (arith, same_iff k j)
get-In ((j, w) ∷ m) k v h (inr i) =
    let (u, found) = get-found m k v i in ground (arith, same_iff k j, get-In m k v h.1 i)
