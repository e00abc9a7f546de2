-- ===== src/Run/Query/Members.antt =====
-- Which rows a query of src/app/run/repository.py returns.
use fin_agent_platform.Prelude.{
  ℕ, ◌≡◌, refl, ◌∙◌, inl, inr, Bool, false, ◌||◌, Option, List, [], ◌∷◌, arith, ◌==◌, leb, contains,
  filter, Bool-cases,
}
use fin_agent_platform.Schema.{RunRow, Db}
use fin_agent_platform.Run.Repository.Table.{find, ids, IsTable, holds_at}
use fin_agent_platform.Run.Query.{insert_by_start, by_start, unfinished, is_unfinished}

fresh-filter :
    (j : ℕ) (p : RunRow → Bool) (t : List RunRow)
    → contains j (ids t) ≡ false
    → contains j (ids (filter p t)) ≡ false
unfolding contains ids filter
fresh-filter j p [] h = refl
fresh-filter j p (r ∷ t) h = ground (arith, fresh-filter j p t)

-- An identifier is among those selected exactly where its row passes the test.
pub contains-filter :
    (j : ℕ) (p : RunRow → Bool) (t : List RunRow)
    → IsTable t
    → contains j (ids (filter p t)) ≡ holds_at p (find j t)
unfolding contains ids filter find
contains-filter j p [] h = refl
contains-filter j p (r ∷ t) h = elim (Bool-cases (p r)) [
  | inl e ↦ rw e (ground (arith, e, contains-filter j p t h.1, fresh-filter j p t, h.0))
  | inr e ↦ rw e (ground (arith, e, contains-filter j p t h.1, fresh-filter j p t, h.0))
]

pub filter-IsTable : (p : RunRow → Bool) (t : List RunRow) → IsTable t → IsTable (filter p t)
unfolding ids filter
filter-IsTable p [] h = tt
filter-IsTable p (r ∷ t) h = elim (Bool-cases (p r)) [
  | inl e ↦ rw e (fresh-filter r.id p t h.0, filter-IsTable p t h.1)
  | inr e ↦ rw e (filter-IsTable p t h.1)
]

contains-insert :
    (i : ℕ) (r : RunRow) (t : List RunRow)
    → contains i (ids (insert_by_start r t)) ≡ (r.id == i || contains i (ids t))
unfolding insert_by_start contains ids
contains-insert i r [] = refl
contains-insert i r (s ∷ t) = ground (arith, contains-insert i r t)

pub contains-by_start :
    (i : ℕ) (t : List RunRow) → contains i (ids (by_start t)) ≡ contains i (ids t)
unfolding by_start contains ids
contains-by_start i [] = refl
contains-by_start i (r ∷ t) =
    ground (arith, contains-insert i r (by_start t), contains-by_start i t)

insert-IsTable :
    (r : RunRow) (t : List RunRow)
    → contains r.id (ids t) ≡ false
    → IsTable t
    → IsTable (insert_by_start r t)
unfolding insert_by_start ids contains
insert-IsTable r [] f h = (refl, tt)
insert-IsTable r (s ∷ t) f h = elim (Bool-cases (leb r.started_at s.started_at)) [
  | inl e ↦ rw e (ground arith, h)
  | inr e ↦ rw e (ground (arith, contains-insert s.id r t), insert-IsTable r t (ground arith) h.1)
]

pub by_start-IsTable : (t : List RunRow) → IsTable t → IsTable (by_start t)
unfolding by_start ids
by_start-IsTable [] h = tt
by_start-IsTable (r ∷ t) h =
    insert-IsTable r (by_start t) (contains-by_start r.id t ∙ h.0) (by_start-IsTable t h.1)

-- On a table with its primary key, `unfinished` returns exactly the rows that are queued or running and started before the cutoff.
pub contains-unfinished :
    (j : ℕ) (cutoff : Option ℕ) (db : Db)
    → IsTable db.runs
    → contains j (ids (unfinished cutoff db)) ≡ holds_at (is_unfinished cutoff) (find j db.runs)
unfolding unfinished
contains-unfinished j cutoff db h =
    contains-by_start j (filter (is_unfinished cutoff) db.runs)
    ∙ contains-filter j (is_unfinished cutoff) db.runs h

pub unfinished-IsTable :
    (cutoff : Option ℕ) (db : Db) → IsTable db.runs → IsTable (unfinished cutoff db)
unfolding unfinished
unfinished-IsTable cutoff db h =
    by_start-IsTable (filter (is_unfinished cutoff) db.runs)
      (filter-IsTable (is_unfinished cutoff) db.runs h)
