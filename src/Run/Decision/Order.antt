-- ===== src/Run/Decision/Order.antt =====
-- `sorted` by index, and the strictly increasing lists of numbers that are a range.
-- Code: `to_resume` of src/app/run/decision.py.
use mathlib.Core.List.{Perm}
use fin_agent_platform.Prelude.{
  ℕ, ◌<◌, ◌≡◌, refl, sym, ◌∙◌, inl, inr, false, ◌||◌, List, [], ◌∷◌, arith, ◌==◌, leb, contains,
  Distinct, All, Has, here, there, Bool-cases,
}
use fin_agent_platform.Run.Decision.{Decision, indexes, insert, sort}
use mathlib.Core.List.Perm

pub insert-perm : (d : Decision) (ds : List Decision) → Perm (insert d ds) (d ∷ ds)
unfolding insert
insert-perm d [] = Perm.refl (d ∷ [])
insert-perm d (e ∷ ds) = elim (Bool-cases (leb d.index e.index)) [
  | inl le ↦ rw le (Perm.refl (d ∷ e ∷ ds))
  | inr gt ↦ rw gt (Perm.trans (Perm.cons e (insert-perm d ds)) (Perm.swap d e ds))
]

-- Sorting loses no decision and makes none up.
pub sort-perm : (ds : List Decision) → Perm (sort ds) ds
unfolding sort
sort-perm [] = Perm.refl []
sort-perm (d ∷ ds) = Perm.trans (insert-perm d (sort ds)) (Perm.cons d (sort-perm ds))

abbrev pub IsIncreasing : List ℕ → Type 0
IsIncreasing [] = Unit
IsIncreasing (x ∷ xs) = All (λ y. x < y) xs × IsIncreasing xs

contains-insert :
    (i : ℕ) (d : Decision) (ds : List Decision)
    → contains i (indexes (insert d ds)) ≡ (d.index == i || contains i (indexes ds))
unfolding insert contains
contains-insert i d [] = refl
contains-insert i d (e ∷ ds) = ground (arith, contains-insert i d ds)

pub contains-sort :
    (i : ℕ) (ds : List Decision) → contains i (indexes (sort ds)) ≡ contains i (indexes ds)
unfolding sort contains
contains-sort i [] = refl
contains-sort i (d ∷ ds) = ground (arith, contains-insert i d (sort ds), contains-sort i ds)

All-insert :
    (x : ℕ) (d : Decision) (ds : List Decision)
    → x < d.index
    → All (λ y. x < y) (indexes ds)
    → All (λ y. x < y) (indexes (insert d ds))
unfolding insert
All-insert x d [] h a = (h, tt)
All-insert x d (e ∷ ds) h a = ground (arith, All-insert x d ds h a.1)

All-lt_trans : (x y : ℕ) (xs : List ℕ) → x < y → All (λ z. y < z) xs → All (λ z. x < z) xs
All-lt_trans x y [] h a = tt
All-lt_trans x y (z ∷ zs) h a = (omega arith, All-lt_trans x y zs h a.1)

insert-IsIncreasing :
    (d : Decision) (ds : List Decision)
    → contains d.index (indexes ds) ≡ false
    → IsIncreasing (indexes ds)
    → IsIncreasing (indexes (insert d ds))
unfolding insert contains
insert-IsIncreasing d [] f h = (tt, tt)
insert-IsIncreasing d (e ∷ ds) f h = elim (Bool-cases (leb d.index e.index)) [
  | inl le ↦
      let lt : d.index < e.index = ground arith in
      rw le ((lt, All-lt_trans d.index e.index (indexes ds) lt h.0), h)
  | inr gt ↦
      rw gt
        (All-insert e.index d ds (ground arith) h.0, insert-IsIncreasing d ds (ground arith) h.1)
]

pub sort-IsIncreasing :
    (ds : List Decision) → Distinct (indexes ds) → IsIncreasing (indexes (sort ds))
unfolding sort
sort-IsIncreasing [] h = tt
sort-IsIncreasing (d ∷ ds) h =
    insert-IsIncreasing d (sort ds) (contains-sort d.index ds ∙ h.0) (sort-IsIncreasing ds h.1)

-- Back from the sorted list: if its indexes are distinct, so are the ones given.
insert-Distinct :
    (d : Decision) (ds : List Decision)
    → Distinct (indexes (insert d ds))
    → (contains d.index (indexes ds) ≡ false) × Distinct (indexes ds)
unfolding insert contains
insert-Distinct d [] h = (refl, tt)
insert-Distinct d (e ∷ ds) h = elim (Bool-cases (leb d.index e.index)) [
  | inl le ↦ rw (le, insert) at h
  | inr gt ↦
      let h' : Distinct (indexes (e ∷ insert d ds)) = rw (gt, insert) at h in
      let rest = insert-Distinct d ds h'.1 in
      ground (arith, h'.0, rest, contains-insert e.index d ds)
]

pub sort-Distinct : (ds : List Decision) → Distinct (indexes (sort ds)) → Distinct (indexes ds)
unfolding sort
sort-Distinct [] h = tt
sort-Distinct (d ∷ ds) h =
    let (f, r) = insert-Distinct d (sort ds) h in
    (sym (contains-sort d.index ds) ∙ f, sort-Distinct ds r)

-- The element inserted passes the head.
Has-swap :
    {a d e : Decision} {ds rest : List Decision}
    → (Has a (d ∷ ds) → Has a rest)
    → Has a (d ∷ e ∷ ds)
    → Has a (e ∷ rest)
Has-swap f (here p) = there (f (here p))
Has-swap f (there (here p)) = here p
Has-swap f (there (there m)) = there (f (there m))

insert-Has : (a d : Decision) (ds : List Decision) → Has a (d ∷ ds) → Has a (insert d ds)
unfolding insert
insert-Has a d [] h = h
insert-Has a d (e ∷ ds) h = elim (Bool-cases (leb d.index e.index)) [
  | inl le ↦ rw le h
  | inr gt ↦ rw gt (Has-swap (insert-Has a d ds) h)
]

pub sort-Has : (a : Decision) (ds : List Decision) → Has a ds → Has a (sort ds)
unfolding sort
sort-Has a [] m = elim m [ ]
sort-Has a (d ∷ ds) (here p) = insert-Has a d (sort ds) (here p)
sort-Has a (d ∷ ds) (there m) = insert-Has a d (sort ds) (there (sort-Has a ds m))
