-- ===== src/Run/Pages/Sorted.antt =====
-- Rows from the newest to the oldest: the order of `list_by_thread` in src/app/run/repository.py.
use fin_agent_platform.Prelude.{
  ℕ, ◌≡◌, refl, inl, inr, Bool, true, false, List, [], ◌∷◌, arith, ◌==◌, if◌then◌else◌, filter,
  contains, All, Bool-cases,
}
use fin_agent_platform.Schema.{RunRow}
use fin_agent_platform.Run.Repository.Table.{ids, IsTable}
use fin_agent_platform.Run.Pages.{is_newer, insert_newest, newest_first}

abbrev pub IsNewestFirst : List RunRow → Type 0
IsNewestFirst [] = Unit
IsNewestFirst (r ∷ t) = All (λ s. is_newer r s ≡ true) t × IsNewestFirst t

-- Not this identifier.
abbrev Others : ℕ → List RunRow → Type 0
Others i t = All (λ (s : RunRow). (s.id == i) ≡ false) t

insert-All :
    (P : RunRow → Type 0) (r : RunRow) (t : List RunRow) → P r → All P t → All P (insert_newest r t)
unfolding insert_newest
insert-All P r [] h a = (h, tt)
insert-All P r (s ∷ t) h a = ground (arith, insert-All P r t h a.1)

sort-All : (P : RunRow → Type 0) (t : List RunRow) → All P t → All P (newest_first t)
unfolding newest_first
sort-All P [] a = tt
sort-All P (r ∷ t) a = insert-All P r (newest_first t) a.0 (sort-All P t a.1)

newer-All :
    (r s : RunRow) (t : List RunRow)
    → is_newer r s ≡ true
    → All (λ x. is_newer s x ≡ true) t
    → All (λ x. is_newer r x ≡ true) t
newer-All r s [] h a = tt
newer-All r s (x ∷ t) h a = (ground arith, newer-All r s t h a.1)

insert-IsNewestFirst :
    (r : RunRow) (t : List RunRow)
    → Others r.id t
    → IsNewestFirst t
    → IsNewestFirst (insert_newest r t)
unfolding insert_newest
insert-IsNewestFirst r [] o h = (tt, tt)
insert-IsNewestFirst r (s ∷ t) o h = elim (Bool-cases (is_newer r s)) [
  | inl e ↦ rw e ((e, newer-All r s t e h.0), h)
  | inr e ↦ rw e (
    insert-All (λ x. is_newer s x ≡ true) r t (ground arith) h.0,
    insert-IsNewestFirst r t o.1 h.1,
  )
]

Others-of_fresh : (i : ℕ) (t : List RunRow) → contains i (ids t) ≡ false → Others i t
unfolding contains ids
Others-of_fresh i [] h = tt
Others-of_fresh i (s ∷ t) h = (ground arith, Others-of_fresh i t (ground arith))

pub newest_first-IsNewestFirst : (t : List RunRow) → IsTable t → IsNewestFirst (newest_first t)
unfolding newest_first ids
newest_first-IsNewestFirst [] h = tt
newest_first-IsNewestFirst (r ∷ t) h =
    insert-IsNewestFirst r (newest_first t) (sort-All _ t (Others-of_fresh r.id t h.0))
      (newest_first-IsNewestFirst t h.1)

filter-All :
    (P : RunRow → Type 0) (q : RunRow → Bool) (t : List RunRow) → All P t → All P (filter q t)
unfolding filter
filter-All P q [] a = tt
filter-All P q (s ∷ t) a = ground (arith, filter-All P q t a.1)

insert_front :
    (r : RunRow) (t : List RunRow) → All (λ x. is_newer r x ≡ true) t → insert_newest r t ≡ r ∷ t
unfolding insert_newest
insert_front r [] a = refl
insert_front r (s ∷ t) a = rw a.0

filter-insert :
    (q : RunRow → Bool) (r : RunRow) (t : List RunRow)
    → IsNewestFirst t
    → filter q (insert_newest r t) ≡ (if q r then insert_newest r (filter q t) else filter q t)
unfolding filter insert_newest
filter-insert q r [] h = refl
filter-insert q r (s ∷ t) h = elim (Bool-cases (is_newer r s)) [
  | inl e ↦
      let front : All (λ x. is_newer r x ≡ true) (filter q (s ∷ t)) =
        filter-All _ q (s ∷ t) (e, newer-All r s t e h.0) in
      rw e (ground (arith, insert_front r (filter q (s ∷ t)) front))
  | inr e ↦ ground (arith, e, filter-insert q r t h.1)
]

-- Selecting and sorting commute.
pub newest_first-filter :
    (q : RunRow → Bool) (t : List RunRow)
    → IsTable t
    → newest_first (filter q t) ≡ filter q (newest_first t)
unfolding newest_first filter ids
newest_first-filter q [] h = refl
newest_first-filter q (r ∷ t) h = ground (
  arith,
  newest_first-filter q t h.1,
  filter-insert q r (newest_first t) (newest_first-IsNewestFirst t h.1),
)
