-- ===== src/Run/Decision/Check.antt =====
-- What `check` accepts, and what `to_resume` makes of it: src/app/run/decision.py.
use fin_agent_platform.Prelude.{
  ℕ, zero, suc, ◌+◌, ◌≤◌, ◌<◌, ◌≡◌, ◌↔◌, refl, sym, ◌∙◌, true, ◌&&◌, List, [], ◌∷◌, arith, leb, ltb,
  length, contains, Distinct, All,
}
use fin_agent_platform.Run.Decision.{range_from, unique, is_subset}
use fin_agent_platform.Run.Decision.Order.{IsIncreasing}

length-unique-le : (xs : List ℕ) → length (unique xs) ≤ length xs
unfolding unique
length-unique-le [] = omega arith
length-unique-le (x ∷ xs) = ground (arith, length-unique-le xs)

-- `len(seen) == len(set(seen))` says that no element stands twice.
pub length-unique_iff : (xs : List ℕ) → (length xs ≡ length (unique xs)) ↔ Distinct xs
unfolding unique
length-unique_iff [] = (λ _. tt, λ _. refl)
length-unique_iff (x ∷ xs) = (
  λ h. ground (arith, length-unique-le xs, (length-unique_iff xs).0),
  λ h. ground (arith, (length-unique_iff xs).1 h.1),
)

pub contains-range :
    (i start n : ℕ) → contains i (range_from start n) ≡ (leb start i && ltb i (start + n))
unfolding range_from contains
contains-range i start zero = ground arith
contains-range i start (suc n) = ground (arith, contains-range i (start + 1) n)

contains_of_subset :
    (i : ℕ) (xs ys : List ℕ) → is_subset xs ys ≡ true → contains i xs ≡ true → contains i ys ≡ true
unfolding is_subset contains
contains_of_subset i [] ys s h = cc
contains_of_subset i (x ∷ xs) ys s h = ground (arith, contains_of_subset i xs ys)

-- `set(xs) == set(ys)`
pub contains_of_sets :
    (xs ys : List ℕ)
    → (is_subset xs ys && is_subset ys xs) ≡ true
    → (i : ℕ) → contains i xs ≡ contains i ys
contains_of_sets xs ys s i = ground (arith, contains_of_subset i xs ys, contains_of_subset i ys xs)

pub lt_of_contains : (x i : ℕ) (xs : List ℕ) → All (λ y. x < y) xs → contains i xs ≡ true → x < i
unfolding contains
lt_of_contains x i [] a h = cc
lt_of_contains x i (y ∷ ys) a h = ground (arith, lt_of_contains x i ys a.1)

-- An increasing list with the members of a range is that range.
pub increasing-eq-range :
    (start n : ℕ) (xs : List ℕ)
    → IsIncreasing xs
    → ((i : ℕ) → contains i xs ≡ (leb start i && ltb i (start + n)))
    → xs ≡ range_from start n
unfolding range_from contains
increasing-eq-range start zero [] a h = refl
increasing-eq-range start zero (x ∷ xs) a h = ground (arith, h x)
increasing-eq-range start (suc n) [] a h = ground (arith, h start)
increasing-eq-range start (suc n) (x ∷ xs) a h = ground (
  arith,
  head_is,
  increasing-eq-range (start + 1) n xs a.1
      (λ i. ground (arith, h i, head_is, lt_of_contains x i xs a.0)),
)
  where
    head_is : x ≡ start
    head_is = ground (arith, h start, h x, lt_of_contains x start xs a.0)

subset_of_contains :
    (xs ys : List ℕ)
    → ((i : ℕ) → contains i xs ≡ true → contains i ys ≡ true)
    → is_subset xs ys ≡ true
unfolding is_subset contains
subset_of_contains [] ys h = refl
subset_of_contains (x ∷ xs) ys h =
    ground (arith, h x, subset_of_contains xs ys (λ i e. h i (ground arith)))

pub sets_of_contains :
    (xs ys : List ℕ)
    → ((i : ℕ) → contains i xs ≡ contains i ys)
    → (is_subset xs ys && is_subset ys xs) ≡ true
sets_of_contains xs ys h = ground (
  arith,
  subset_of_contains xs ys (λ i e. sym (h i) ∙ e),
  subset_of_contains ys xs (λ i e. h i ∙ e),
)
