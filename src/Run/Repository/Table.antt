-- ===== src/Run/Repository/Table.antt =====
-- `runs` as a table with a primary key, and what a conditional update does to one row of it.
-- Code: `_transit_from` and `session.get` of src/app/run/repository.py.
use mathlib.Core.Option
use fin_agent_platform.Prelude.{
  ℕ, ◌≡◌, refl, Bool, false, Option, none, some, List, [], ◌∷◌, arith, ◌==◌, if◌then◌else◌,
  contains, Distinct,
}
use fin_agent_platform.Prelude.Sql.{update_where, count_where, any_where}
use fin_agent_platform.Schema.{RunStatus, is_in, RunRow, Db}
use fin_agent_platform.Run.Repository.{at_status, has_run, transit_at}

-- `session.get(RunRecord, identifier)`
unfoldable pub find : ℕ → List RunRow → Option RunRow
find i [] = none
find i (r ∷ t) = if r.id == i then some r else find i t

unfoldable pub ids : List RunRow → List ℕ
ids [] = []
ids (r ∷ t) = r.id ∷ ids t

-- The primary key: no two rows share an identifier.
abbrev pub IsTable : List RunRow → Type 0
IsTable t = Distinct (ids t)

abbrev pub holds_at : (RunRow → Bool) → Option RunRow → Bool
holds_at p none = false
holds_at p (some r) = p r

abbrev pub KeepsId : (RunRow → RunRow) → Type 0
KeepsId f = (r : RunRow) → (f r).id ≡ r.id

pub ids-update_where :
    (p : RunRow → Bool) (f : RunRow → RunRow) (t : List RunRow)
    → KeepsId f
    → ids (update_where p f t) ≡ ids t
unfolding update_where ids
ids-update_where p f [] k = refl
ids-update_where p f (r ∷ t) k = ground (arith, ids-update_where p f t k, k r)

pub find-update_where :
    (i : ℕ) (p : RunRow → Bool) (f : RunRow → RunRow) (t : List RunRow)
    → KeepsId f
    → find i (update_where p f t) ≡ Option.map (λ r. if p r then f r else r) (find i t)
unfolding update_where find
find-update_where i p f [] k = refl
find-update_where i p f (r ∷ t) k = ground (arith, find-update_where i p f t k, k r)

pub has_run-ids : (i : ℕ) (t : List RunRow) → has_run i t ≡ contains i (ids t)
unfolding ids contains
has_run-ids i [] = refl
has_run-ids i (r ∷ t) = ground (arith, has_run-ids i t)

-- An identifier that no row has is not found.
pub find_of_fresh : (i : ℕ) (t : List RunRow) → contains i (ids t) ≡ false → find i t ≡ none
unfolding find ids contains
find_of_fresh i [] h = refl
find_of_fresh i (r ∷ t) h = ground (arith, find_of_fresh i t)

pub id-find : (i : ℕ) (t : List RunRow) (r : RunRow) → find i t ≡ some r → r.id ≡ i
unfolding find
id-find i [] r h = cc
id-find i (x ∷ t) r h = ground (arith, id-find i t r)

none_matches :
    (i : ℕ) (allowed : List RunStatus) (t : List RunRow)
    → contains i (ids t) ≡ false
    → count_where (at_status i allowed) t ≡ 0
unfolding count_where ids contains
none_matches i allowed [] h = refl
none_matches i allowed (r ∷ t) h = ground (arith, none_matches i allowed t)

-- Under the primary key, the row count tells the state of the one row addressed.
pub any_where-at_status :
    (i : ℕ) (allowed : List RunStatus) (t : List RunRow)
    → IsTable t
    → any_where (at_status i allowed) t ≡ holds_at (λ r. is_in r.status allowed) (find i t)
unfolding any_where count_where find ids
any_where-at_status i allowed [] h = refl
any_where-at_status i allowed (r ∷ t) h =
    ground (arith, any_where-at_status i allowed t h.1, none_matches i allowed t)

module _ (i : ℕ) (allowed : List RunStatus) (change : RunRow → RunRow) (db : Db) where
  pub transit_at-changed :
      IsTable db.runs
      → (transit_at i allowed change db).0 ≡ holds_at (λ r. is_in r.status allowed) (find i db.runs)
  unfolding transit_at
  transit_at-changed h = any_where-at_status i allowed db.runs h

  pub transit_at-IsTable :
      KeepsId change → IsTable db.runs → IsTable (transit_at i allowed change db).1.runs
  unfolding transit_at
  transit_at-IsTable k h = rw (ids-update_where (at_status i allowed) change db.runs k) h

  -- What the update makes of a row.
  pub transit_at-find :
      (j : ℕ)
      → KeepsId change
      → find j (transit_at i allowed change db).1.runs
        ≡ Option.map (λ r. if at_status i allowed r then change r else r) (find j db.runs)
  unfolding transit_at
  transit_at-find j k = find-update_where j (at_status i allowed) change db.runs k

  pub transit_at-jobs : (transit_at i allowed change db).1.memory_jobs ≡ db.memory_jobs
  unfolding transit_at
  transit_at-jobs = refl
