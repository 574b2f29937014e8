-- ===== src/Base/Compare.antt =====
-- std::cmp::Ord. `Ord` is a type whose comparison answers `eq` exactly at equal values; numbers,
-- lists (lexicographic, as Rust compares strings and vectors), pairs and options are such types.
use Prim.Native.Nat.{ℕ, compare, Ordering}
use mathlib.Core.Path.{◌≡◌, refl, ap, ap₂}
use mathlib.Core.Logic.{◌↔◌}
use mathlib.Core.Bool.{Bool, true, false}
use mathlib.Core.Option.{Option, none, some}
use mathlib.Core.List.{List, [], ◌∷◌}
use native.Mathlib.Omega.{arith}

pub record Ord {ℓ} (A : Type ℓ) : Type ℓ where
  pub cmp : A → A → Ordering
  pub cmp_iff : (a b : A) → (cmp a b ≡ Ordering.eq) ↔ (a ≡ b)

abbrev pub cmp {ℓ} : {A : Type ℓ} ⦃o : Ord A⦄ → A → A → Ordering
cmp ⦃o⦄ = o.cmp

abbrev pub is_eq : Ordering → Bool
is_eq Ordering.eq = true
is_eq Ordering.lt = false
is_eq Ordering.gt = false

-- `a == b` of a type with a total order
abbrev pub same {ℓ} : {A : Type ℓ} ⦃o : Ord A⦄ → A → A → Bool
same a b = is_eq (cmp a b)

pub is_eq_iff : (r : Ordering) → (is_eq r ≡ true) ↔ (r ≡ Ordering.eq)
is_eq_iff Ordering.eq = (λ h. refl, λ h. refl)
is_eq_iff Ordering.lt = (λ h. cc, λ h. cc)
is_eq_iff Ordering.gt = (λ h. cc, λ h. cc)

module _ {ℓ} {A : Type ℓ} ⦃o : Ord A⦄ where
  pub same_iff : (a b : A) → (same a b ≡ true) ↔ (a ≡ b)
  same_iff a b =
      (λ h. (o.cmp_iff a b).0 ((is_eq_iff _).0 h), λ e. (is_eq_iff _).1 ((o.cmp_iff a b).1 e))

  pub same_refl : (a : A) → same a a ≡ true
  same_refl a = (same_iff a a).1 refl

-- Ordering::then
abbrev pub then_cmp : Ordering → Ordering → Ordering
then_cmp Ordering.eq r = r
then_cmp Ordering.lt r = Ordering.lt
then_cmp Ordering.gt r = Ordering.gt

pub then_cmp_iff :
    (p q : Ordering) → (then_cmp p q ≡ Ordering.eq) ↔ ((p ≡ Ordering.eq) × (q ≡ Ordering.eq))
then_cmp_iff Ordering.eq q = (λ h. (refl, h), λ h. h.1)
then_cmp_iff Ordering.lt q = (λ h. cc, λ h. cc (h.0))
then_cmp_iff Ordering.gt q = (λ h. cc, λ h. cc (h.0))

-- The comparison of two records with two fields, field by field.
pub then_cmp_both {ℓ κ} :
    {p q : Ordering} {P : Type ℓ} {Q : Type κ}
    → (p ≡ Ordering.eq) ↔ P
    → (q ≡ Ordering.eq) ↔ Q
    → (then_cmp p q ≡ Ordering.eq) ↔ (P × Q)
then_cmp_both {p} {q} f g = (
  λ h. let (a, b) = (then_cmp_iff p q).0 h in (f.0 a, g.0 b),
  λ h. (then_cmp_iff p q).1 (f.1 h.0, g.1 h.1),
)

pub compare_iff : (a b : ℕ) → (compare a b ≡ Ordering.eq) ↔ (a ≡ b)
compare_iff a b = ground arith

instance abbrev pub nat_ord : Ord ℕ
nat_ord = record { cmp = compare; cmp_iff = compare_iff }

module _ {ℓ} {A : Type ℓ} ⦃o : Ord A⦄ where
  abbrev pub list_cmp : List A → List A → Ordering
  list_cmp [] [] = Ordering.eq
  list_cmp [] (y ∷ ys) = Ordering.lt
  list_cmp (x ∷ xs) [] = Ordering.gt
  list_cmp (x ∷ xs) (y ∷ ys) = then_cmp (o.cmp x y) (list_cmp xs ys)

  pub list_cmp_refl : (xs : List A) → list_cmp xs xs ≡ Ordering.eq
  list_cmp_refl [] = refl
  list_cmp_refl (x ∷ xs) = (then_cmp_iff _ _).1 ((o.cmp_iff x x).1 refl, list_cmp_refl xs)

  pub list_cmp_eq : (xs ys : List A) → list_cmp xs ys ≡ Ordering.eq → xs ≡ ys
  list_cmp_eq [] [] h = refl
  list_cmp_eq [] (y ∷ ys) h = cc
  list_cmp_eq (x ∷ xs) [] h = cc
  list_cmp_eq (x ∷ xs) (y ∷ ys) h =
      let (p, q) = (then_cmp_iff (o.cmp x y) (list_cmp xs ys)).0 h in
      ap₂ ◌∷◌ ((o.cmp_iff x y).0 p) (list_cmp_eq xs ys q)

  pub list_cmp_iff : (xs ys : List A) → (list_cmp xs ys ≡ Ordering.eq) ↔ (xs ≡ ys)
  list_cmp_iff xs ys = (list_cmp_eq xs ys, λ e. rw (← e) (list_cmp_refl xs))

instance abbrev pub list_ord {ℓ} : {A : Type ℓ} ⦃o : Ord A⦄ → Ord (List A)
list_ord = record { cmp = list_cmp; cmp_iff = list_cmp_iff }

-- `None` comes before every `Some`.
module _ {ℓ} {A : Type ℓ} ⦃o : Ord A⦄ where
  abbrev pub option_cmp : Option A → Option A → Ordering
  option_cmp none none = Ordering.eq
  option_cmp none (some b) = Ordering.lt
  option_cmp (some a) none = Ordering.gt
  option_cmp (some a) (some b) = o.cmp a b

  pub option_cmp_iff : (x y : Option A) → (option_cmp x y ≡ Ordering.eq) ↔ (x ≡ y)
  option_cmp_iff none none = (λ h. refl, λ e. refl)
  option_cmp_iff none (some b) = (λ h. cc, λ e. cc)
  option_cmp_iff (some a) none = (λ h. cc, λ e. cc)
  option_cmp_iff (some a) (some b) =
      (λ h. ap some ((o.cmp_iff a b).0 h), λ e. (o.cmp_iff a b).1 (cc))

instance abbrev pub option_ord {ℓ} : {A : Type ℓ} ⦃o : Ord A⦄ → Ord (Option A)
option_ord = record { cmp = option_cmp; cmp_iff = option_cmp_iff }
