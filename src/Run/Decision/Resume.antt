-- ===== src/Run/Decision/Resume.antt =====
-- Which decisions `check` accepts, and which call each one meets in `to_resume`.
-- Code: src/app/run/decision.py.
use fin_agent_platform.Prelude.{
  ℕ, zero, suc, ◌+◌, ◌<◌, ◌≡◌, ◌≢◌, ◌↔◌, refl, sym, ap, ◌∙◌, true, false, none, some, List, [], ◌∷◌,
  map, arith, length, contains, Distinct, All, Has, here, there, get_elem?,
}
use fin_agent_platform.Run.Decision.{
  Decision, edit, respond, flaw_of, first_flaw, check, indexes, sort, range_from, one, to_resume,
  is_none, is_blank, or_empty,
}
use fin_agent_platform.Run.Decision.Order.{
  IsIncreasing, contains-sort, sort-IsIncreasing, sort-Distinct, sort-Has,
}
use fin_agent_platform.Run.Decision.Check.{
  length-unique_iff, contains-range, contains_of_sets, sets_of_contains, increasing-eq-range,
  lt_of_contains,
}

-- An edit says what to run, and a reply is not blank.
pub record IsComplete (d : Decision) : Type 0 where
  pub edit_has_action : d.type ≡ edit → is_none d.edited_action ≡ false
  pub reply_has_text : d.type ≡ respond → is_blank (or_empty d.message) ≡ false

flaw-none_iff : (d : Decision) → (flaw_of d.type d ≡ none) ↔ IsComplete d
flaw-none_iff d = (λ h. ground arith, λ h. ground arith)

first_flaw-none_iff : (ds : List Decision) → (first_flaw ds ≡ none) ↔ All IsComplete ds
unfolding first_flaw
first_flaw-none_iff [] = (λ _. tt, λ _. refl)
first_flaw-none_iff (d ∷ ds) = (
  λ h. ((flaw-none_iff d).0 (ground arith), (first_flaw-none_iff ds).0 (ground arith)),
  λ h. ground (arith, (flaw-none_iff d).1 h.0, (first_flaw-none_iff ds).1 h.1),
)

range-All : (x start n : ℕ) → x < start → All (λ y. x < y) (range_from start n)
unfolding range_from
range-All x start zero h = tt
range-All x start (suc n) h = (h, range-All x (start + 1) n (omega arith))

range-IsIncreasing : (start n : ℕ) → IsIncreasing (range_from start n)
unfolding range_from
range-IsIncreasing start zero = tt
range-IsIncreasing start (suc n) =
    (range-All start (start + 1) n (omega arith), range-IsIncreasing (start + 1) n)

IsIncreasing-Distinct : (xs : List ℕ) → IsIncreasing xs → Distinct xs
IsIncreasing-Distinct [] h = tt
IsIncreasing-Distinct (x ∷ xs) h =
    (ground (arith, lt_of_contains x x xs h.0), IsIncreasing-Distinct xs h.1)

contains_of_Has :
    (d : Decision) (ds : List Decision) → Has d ds → contains d.index (indexes ds) ≡ true
unfolding contains
contains_of_Has d [] h = elim h [ ]
contains_of_Has d (x ∷ ds) (here p) = rw p (ground arith)
contains_of_Has d (x ∷ ds) (there m) = ground (arith, contains_of_Has d ds m)

length-map-one : (ds : List Decision) → length (map one ds) ≡ length (indexes ds)
length-map-one [] = refl
length-map-one (d ∷ ds) = ap suc (length-map-one ds)

length-range : (start n : ℕ) → length (range_from start n) ≡ n
unfolding range_from
length-range start zero = refl
length-range start (suc n) = ap suc (length-range (start + 1) n)

-- In a list whose indexes are start, start + 1, …, a decision stands where its index says.
get_elem?-map-one :
    (start n m : ℕ) (d : Decision) (ds : List Decision)
    → indexes ds ≡ range_from start n
    → d.index ≡ start + m
    → Has d ds
    → get_elem? (map one ds) m ≡ some (one d)
unfolding range_from
get_elem?-map-one start n m d [] e i h = elim h [ ]
get_elem?-map-one start zero m d (x ∷ ds) e i h = cc
get_elem?-map-one start (suc n) zero d (x ∷ ds) e i (here p) = cc
get_elem?-map-one start (suc n) zero d (x ∷ ds) e i (there h) = absurd (
    ground (
      arith,
      contains_of_Has d ds h,
      contains-range d.index (start + 1) n,
      ap (contains d.index) (rest_eq e),
    ))
  where
    rest_eq :
        indexes (x ∷ ds) ≡ start ∷ range_from (start + 1) n → indexes ds ≡ range_from (start + 1) n
    rest_eq e = ground arith
get_elem?-map-one start (suc n) (suc m) d (x ∷ ds) e i (here p) =
    absurd (ground (arith, ap (λ (y : Decision). y.index) p))
get_elem?-map-one start (suc n) (suc m) d (x ∷ ds) e i (there h) =
    get_elem?-map-one (start + 1) n m d ds (ground arith) (omega arith) h

module _ (ds : List Decision) (expected : ℕ) where
  sorted_of_check :
      Distinct (indexes ds)
      → ((i : ℕ) → contains i (indexes ds) ≡ contains i (range_from 0 expected))
      → indexes (sort ds) ≡ range_from 0 expected
  sorted_of_check d s =
      increasing-eq-range 0 expected (indexes (sort ds)) (sort-IsIncreasing ds d)
        (λ i. contains-sort i ds ∙ s i ∙ contains-range i 0 expected)

  check_of_sorted :
      indexes (sort ds) ≡ range_from 0 expected
      → Distinct (indexes ds)
        × ((i : ℕ) → contains i (indexes ds) ≡ contains i (range_from 0 expected))
  check_of_sorted e = (
    sort-Distinct ds
        (rw e (IsIncreasing-Distinct (range_from 0 expected) (range-IsIncreasing 0 expected))),
    λ i. sym (contains-sort i ds) ∙ ap (contains i) e,
  )

  -- `check` raises nothing exactly when something is pending, the decisions in the order of their
  -- indexes are 0, 1, … up to the number of pending calls, and each decision has the field that it
  -- needs.
  pub check-none_iff :
      (check ds expected ≡ none)
      ↔ ((expected ≢ 0) × (indexes (sort ds) ≡ range_from 0 expected) × All IsComplete ds)
  unfolding check
  check-none_iff = (accepted, λ h. raised_nothing h (check_of_sorted h.1))
    where
      accepted :
          check ds expected ≡ none
          → (expected ≢ 0) × (indexes (sort ds) ≡ range_from 0 expected) × All IsComplete ds
      accepted h = (
        ground arith,
        sorted_of_check ((length-unique_iff (indexes ds)).0 (ground arith))
            (contains_of_sets (indexes ds) (range_from 0 expected) (ground arith)),
        (first_flaw-none_iff ds).0 (ground arith),
      )

      raised_nothing :
          ((expected ≢ 0) × (indexes (sort ds) ≡ range_from 0 expected) × All IsComplete ds)
          → (Distinct (indexes ds)
              × ((i : ℕ) → contains i (indexes ds) ≡ contains i (range_from 0 expected)))
          → check ds expected ≡ none
      raised_nothing h c = ground (
        arith,
        (first_flaw-none_iff ds).1 h.2,
        (length-unique_iff (indexes ds)).1 c.0,
        sets_of_contains (indexes ds) (range_from 0 expected) c.1,
      )

  -- After a check that raises nothing, the list that DeepAgents gets has one entry for each pending
  -- call, and the entry at a place is that of the decision with this index, in whatever order the
  -- decisions came.
  pub to_resume_aligned :
      (d : Decision)
      → check ds expected ≡ none
      → Has d ds
      → (length (to_resume ds) ≡ expected) × (get_elem? (to_resume ds) d.index ≡ some (one d))
  unfolding to_resume
  to_resume_aligned d h m =
      let e = (check-none_iff.0 h).1 in
      (
        length-map-one (sort ds) ∙ ap length e ∙ length-range 0 expected,
        get_elem?-map-one 0 expected d.index d (sort ds) e (omega arith) (sort-Has d ds m),
      )
