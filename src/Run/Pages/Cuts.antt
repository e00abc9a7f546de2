-- ===== src/Run/Pages/Cuts.antt =====
-- A page as the front of the rows that are left: `split` of src/cursor.py, and the condition on the
-- cursor in `list_by_thread`.
use fin_agent_platform.Prelude.{
  ℕ, zero, suc, ◌<◌, ◌≤◌, ◌≡◌, refl, ap, inl, inr, Bool, true, false, ◌&&◌, none, some, List, [],
  ◌∷◌, ◌++◌, arith, ltb, if◌then◌else◌, filter, length, take, All, Bool-cases,
}
use fin_agent_platform.Schema.{RunRow}
use fin_agent_platform.Run.Pages.{position, is_newer, is_beyond, last_row}
use fin_agent_platform.Run.Pages.Sorted.{IsNewestFirst}

pub filter-filter :
    (p q : RunRow → Bool) (t : List RunRow) → filter (λ r. p r && q r) t ≡ filter q (filter p t)
unfolding filter
filter-filter p q [] = refl
filter-filter p q (r ∷ t) = elim (Bool-cases (p r)) [
  | inl e ↦ rw e (ap (λ l. if q r then r ∷ l else l) (filter-filter p q t))
  | inr e ↦ rw e (filter-filter p q t)
]

none_newer :
    (a : RunRow) (t : List RunRow)
    → All (λ s. is_newer a s ≡ true) t
    → filter (is_beyond (some (position a))) t ≡ t
unfolding filter
none_newer a [] h = refl
none_newer a (s ∷ t) h = rw h.0 (ap (λ l. s ∷ l) (none_newer a t h.1))

All-middle :
    (P : RunRow → Type 0) (front : List RunRow) (a : RunRow) (back : List RunRow)
    → All P (front ++ a ∷ back)
    → P a
All-middle P [] a back h = h.0
All-middle P (x ∷ front) a back h = All-middle P front a back h.1

-- Beyond a row of the order lies what follows it.
pub beyond_cut :
    (front : List RunRow) (a : RunRow) (back : List RunRow)
    → IsNewestFirst (front ++ a ∷ back)
    → filter (is_beyond (some (position a))) (front ++ a ∷ back) ≡ back
unfolding filter
beyond_cut [] a back h = ground (arith, none_newer a back h.0)
beyond_cut (x ∷ front) a back h =
    let newer : is_newer x a ≡ true = All-middle _ front a back h.0 in
    ground (arith, newer, beyond_cut front a back h.1)

pub take-take : (n k : ℕ) (t : List RunRow) → n ≤ k → take n (take k t) ≡ take n t
take-take zero k t h = refl
take-take (suc n) zero t h = absurd (omega arith)
take-take (suc n) (suc k) [] h = refl
take-take (suc n) (suc k) (x ∷ t) h = ap (λ l. x ∷ l) (take-take n k t (omega arith))

pub take_all : (n : ℕ) (t : List RunRow) → ltb n (length t) ≡ false → take n t ≡ t
take_all zero [] h = refl
take_all zero (x ∷ t) h = ground arith
take_all (suc n) [] h = refl
take_all (suc n) (x ∷ t) h = ap (λ l. x ∷ l) (take_all n t (ground arith))

-- A full page ends with the row that the cursor names.
pub record Cut (m : ℕ) (rows : List RunRow) : Type 0 where
  pub front : List RunRow
  pub last : RunRow
  pub back : List RunRow
  pub split : rows ≡ front ++ last ∷ back
  pub page : take (suc m) rows ≡ front ++ last ∷ []
  pub shorter : length back < length rows

pub Cut-page : (m : ℕ) (rows : List RunRow) → ltb (suc m) (length rows) ≡ true → Cut m rows
Cut-page m [] h = absurd (ground arith)
Cut-page zero (x ∷ t) h = record {
  front = [];
  last = x;
  back = t;
  split = refl;
  page = refl;
  shorter = omega arith;
}
Cut-page (suc m) (x ∷ t) h =
    let c = Cut-page m t (ground arith) in
    record {
      front = x ∷ c.front;
      last = c.last;
      back = c.back;
      split = ap (λ l. x ∷ l) c.split;
      page = ap (λ l. x ∷ l) c.page;
      shorter = omega (arith, c.shorter);
    }

pub last_row-append : (front : List RunRow) (a : RunRow) → last_row (front ++ a ∷ []) ≡ some a
last_row-append [] a = refl
last_row-append (x ∷ []) a = refl
last_row-append (x ∷ y ∷ front) a = last_row-append (y ∷ front) a

pub beyond_none : (rows : List RunRow) → filter (is_beyond none) rows ≡ rows
unfolding filter
beyond_none [] = refl
beyond_none (r ∷ rows) = ap (λ l. r ∷ l) (beyond_none rows)
