-- ===== src/Futures/Joining.antt =====
-- What join_all of src/common/src/futures/mod.rs waits for.
use lightflus.Base.{
  ℕ, zero, suc, ◌+◌, ◌-◌, ◌<◌, ◌≤◌, Bool, true, false, Option, none, some, List, [], ◌∷◌, ◌++◌, ◌≡◌,
  refl, sym, ap, ◌∙◌, if◌then◌else◌, map_option, map, any, ◌==◌, length, arith, Bool-cases,
  length-append, inl, inr,
}
use mathlib.Core.List.{append_assoc}
use lightflus.Futures.{
  Future, now, later, never, Pass, kept_future, called_back, pass, finish, passes, join_all,
}

-- the numbers below a bound, the latest first
abbrev upto : ℕ → List ℕ
upto zero = []
upto (suc k) = k ∷ upto k

abbrev has : ℕ → List ℕ → Bool
has i is = any (λ j. j == i) is

has-upto : (k i : ℕ) → k ≤ i → has i (upto k) ≡ false
has-upto zero i h = refl
has-upto (suc k) i h = rw (has-upto k i (omega arith)) (grind arith)

upto-has : (k i : ℕ) → i < k → has i (upto k) ≡ true
upto-has zero i h = ground arith
upto-has (suc k) i h = elim (Bool-cases (k == i)) [
  | inl e ↦ rw e refl
  | inr n ↦ rw (n, upto-has k i (ground arith)) refl
]

zero_add : (m : ℕ) → 0 + m ≡ m
zero_add m = omega arith

suc_add : (d m : ℕ) → suc d + m ≡ suc (d + m)
suc_add d m = omega arith

add_assoc : (d t m : ℕ) → (d + t) + suc m ≡ d + suc (t + m)
add_assoc d t m = omega arith

add_suc : (n m : ℕ) → suc (n + m) ≡ n + suc m
add_suc n m = omega arith

module _ {T : Type 0} where
  -- The futures one after the other, each polled until it is ready, with fuel for the polls that
  -- are pending.
  unfoldable pub one_by_one : ℕ → List (Future T) → Option (List T)
  one_by_one zero futs = none
  one_by_one (suc n) [] = some []
  one_by_one (suc n) (now v ∷ futs) = map_option (λ vs. v ∷ vs) (one_by_one (suc n) futs)
  one_by_one (suc n) (later fut ∷ futs) = one_by_one n (fut ∷ futs)
  one_by_one (suc n) (never ∷ futs) = one_by_one n (never ∷ futs)

  abbrev behind : List (Future T) → Pass T → Pass T
  behind done p = record p { futures = done ++ p.futures }

  pass-behind :
      (done futs : List (Future T)) (idx k : ℕ)
      → idx + length done ≤ k
      → pass idx (upto k) (done ++ futs) ≡ behind done (pass (idx + length done) (upto k) futs)
  unfolding pass
  pass-behind [] futs idx k h = ap (λ i. pass i (upto k) futs) (omega arith)
  pass-behind (fut ∷ done) futs idx k h =
      rw (upto-has k idx (omega arith), pass-behind done futs (suc idx) k (omega arith))
        (ap (λ i. kept_future fut (behind done (pass i (upto k) futs))) (omega arith))

  abbrev finished : ℕ → Pass T → Option (List T)
  finished fuel p = finish p (passes fuel p.ready_index p.futures)

  cons-finish :
      (v : T) (all_ready : Bool) (vs : List T) (r : Option (List T))
      → (if all_ready then some (v ∷ vs) else map_option (λ ws. (v ∷ vs) ++ ws) r)
        ≡ map_option (λ ws. v ∷ ws) (if all_ready then some vs else map_option (λ ws. vs ++ ws) r)
  cons-finish v true vs r = refl
  cons-finish v false vs none = refl
  cons-finish v false vs (some ws) = refl

  finished-called_back :
      (fuel : ℕ) (done : List (Future T)) (v : T) (fut : Future T) (p : Pass T)
      → finished fuel (behind done (called_back v fut p))
        ≡ map_option (λ vs. v ∷ vs) (finished fuel (behind (done ++ fut ∷ []) p))
  finished-called_back fuel done v fut p =
      cons-finish v p.all_ready p.values _
      ∙ ap (λ futs. map_option (λ vs. v ∷ vs) (finished fuel (record p { futures = futs })))
          (sym (append_assoc done (fut ∷ []) p.futures))

  map_option-nothing : (r : Option (List T)) → map_option (λ vs. [] ++ vs) r ≡ r
  map_option-nothing none = refl
  map_option-nothing (some vs) = refl

  finished-pass :
      (fuel k : ℕ) (done futs : List (Future T))
      → length done ≡ k
      → ((done' : List (Future T)) (k' : ℕ) (futs' : List (Future T))
          → length done' ≡ k'
          → passes fuel (upto k') (done' ++ futs') ≡ one_by_one fuel futs')
      → finished fuel (behind done (pass k (upto k) futs)) ≡ one_by_one (suc fuel) futs
  unfolding pass one_by_one
  finished-pass fuel k done [] e ih = refl
  finished-pass fuel k done (now v ∷ futs) e ih = rw (has-upto k k (omega arith)) (
      finished-called_back fuel done v (now v) _
      ∙ ap (map_option (λ vs. v ∷ vs)) (
          finished-pass fuel (suc k) (done ++ now v ∷ []) futs
            (omega (arith, length-append done (now v ∷ []), e)) ih))
  finished-pass fuel k done (later fut ∷ futs) e ih =
      rw (has-upto k k (omega arith)) (map_option-nothing _ ∙ ih done k (fut ∷ futs) e)
  finished-pass fuel k done (never ∷ futs) e ih =
      rw (has-upto k k (omega arith)) (map_option-nothing _ ∙ ih done k (never ∷ futs) e)

  -- The passes give what the futures give one after the other.
  passes_lem :
      (fuel k : ℕ) (done futs : List (Future T))
      → length done ≡ k
      → passes fuel (upto k) (done ++ futs) ≡ one_by_one fuel futs
  unfolding passes one_by_one
  passes_lem zero k done futs e = refl
  passes_lem (suc fuel) k done futs e =
      ap (finished fuel) (
        pass-behind done futs 0 k (omega (arith, e))
        ∙ ap (λ i. behind done (pass i (upto k) futs)) (omega (arith, e)))
      ∙ finished-pass fuel k done futs e (λ done' k' futs'. passes_lem fuel k' done' futs')

  -- a future that is pending so many times before its value
  unfoldable pub settle : ℕ → T → Future T
  settle zero v = now v
  settle (suc d) v = later (settle d v)

  unfoldable pub settle_all : List (ℕ × T) → List (Future T)
  settle_all [] = []
  settle_all ((d, v) ∷ answers) = settle d v ∷ settle_all answers

  unfoldable pub total : List (ℕ × T) → ℕ
  total [] = 0
  total ((d, v) ∷ answers) = d + total answers

  one_by_one-settle :
      (d m : ℕ) (v : T) (futs : List (Future T))
      → one_by_one (d + suc m) (settle d v ∷ futs)
        ≡ map_option (λ vs. v ∷ vs) (one_by_one (suc m) futs)
  unfolding one_by_one settle
  one_by_one-settle zero m v futs = ap (λ n. one_by_one n (now v ∷ futs)) (zero_add (suc m))
  one_by_one-settle (suc d) m v futs =
      ap (λ n. one_by_one n (later (settle d v) ∷ futs)) (suc_add d (suc m))
      ∙ one_by_one-settle d m v futs

  one_by_one-settle_all :
      (answers : List (ℕ × T)) (m : ℕ)
      → one_by_one (total answers + suc m) (settle_all answers) ≡ some (map (λ a. a.1) answers)
  unfolding one_by_one settle_all total
  one_by_one-settle_all [] m = ap (λ n. one_by_one n []) (zero_add (suc m))
  one_by_one-settle_all ((d, v) ∷ answers) m =
      ap (λ n. one_by_one n (settle d v ∷ settle_all answers)) (add_assoc d (total answers) m)
      ∙ one_by_one-settle d (total answers + m) v (settle_all answers)
      ∙ ap (map_option (λ vs. v ∷ vs)) (
          ap (λ n. one_by_one n (settle_all answers)) (add_suc (total answers) m)
          ∙ one_by_one-settle_all answers m)

  one_by_one-never :
      (fuel : ℕ) (answers : List (ℕ × T)) (futs : List (Future T))
      → one_by_one fuel (settle_all answers ++ never ∷ futs) ≡ none
  unfolding one_by_one settle settle_all
  one_by_one-never zero answers futs = refl
  one_by_one-never (suc fuel) [] futs = one_by_one-never fuel [] futs
  one_by_one-never (suc fuel) ((zero, v) ∷ answers) futs =
      ap (map_option (λ vs. v ∷ vs)) (one_by_one-never (suc fuel) answers futs)
  one_by_one-never (suc fuel) ((suc d, v) ∷ answers) futs =
      one_by_one-never fuel ((d, v) ∷ answers) futs

  join_all-one_by_one :
      (fuel : ℕ) (fut : Future T) (futs : List (Future T))
      → join_all fuel (fut ∷ futs) ≡ one_by_one fuel (fut ∷ futs)
  unfolding join_all
  join_all-one_by_one fuel fut futs = passes_lem fuel 0 [] (fut ∷ futs) refl

  -- Futures that are each ready after some polls: join_all returns, and gives the callback the value
  -- of every future, once and in the order of the futures. As many passes are enough as there are
  -- pending answers, and one more.
  pub join_all-settle_all :
      (answers : List (ℕ × T)) (fuel : ℕ)
      → total answers < fuel
      → join_all fuel (settle_all answers) ≡ some (map (λ a. a.1) answers)
  unfolding join_all settle_all
  join_all-settle_all [] fuel h = refl
  join_all-settle_all ((d, v) ∷ answers) fuel h =
      join_all-one_by_one fuel (settle d v) (settle_all answers)
      ∙ ap (λ n. one_by_one n (settle_all ((d, v) ∷ answers))) (omega (arith, h))
      ∙ one_by_one-settle_all ((d, v) ∷ answers) (fuel - suc (total ((d, v) ∷ answers)))

  -- Where a future is never ready, join_all polls for ever: it gets to no end in any number of
  -- passes, whatever futures come before and after.
  pub join_all-never :
      (fuel : ℕ) (answers : List (ℕ × T)) (futs : List (Future T))
      → join_all fuel (settle_all answers ++ never ∷ futs) ≡ none
  unfolding settle_all
  join_all-never fuel [] futs = join_all-one_by_one fuel never futs ∙ one_by_one-never fuel [] futs
  join_all-never fuel ((d, v) ∷ answers) futs =
      join_all-one_by_one fuel (settle d v) (settle_all answers ++ never ∷ futs)
      ∙ one_by_one-never fuel ((d, v) ∷ answers) futs
