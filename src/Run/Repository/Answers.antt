-- ===== src/Run/Repository/Answers.antt =====
-- What `start` answers: whether this is the first leg of the run, a later one, or none.
-- Code: `RunRepository.start` of src/app/run/repository.py.
use mathlib.Core.Option
use fin_agent_platform.Prelude.{
  ℕ, ◌≡◌, refl, inl, inr, Bool, true, false, ◌&&◌, Option, none, some, List, [], ◌∷◌, arith, ◌==◌,
  Option-cases, if◌then◌else◌, Text,
}
use fin_agent_platform.Schema.{
  RunStatus, queued, is_in, resumable_status, RunRow, Db, RunStart, first, resumed, refused,
}
use fin_agent_platform.Run.Repository.{set_running, transit_at, transit_from, start, start_result}
use fin_agent_platform.Run.Repository.Table.{
  find, IsTable, transit_at-find, transit_at-changed, transit_at-IsTable, id-find,
}
use fin_agent_platform.Run.Repository.Finality.{is_live}

-- The documented meaning of the answer, from the state of the row alone.
abbrev pub leg : Option RunRow → RunStart
leg none = refused
leg (some r) =
    if is_in r.status (queued ∷ [])
    then first
    else if is_in r.status resumable_status
    then resumed
    else refused

start_result-answer :
    (m₁ m₂ : Bool × Db)
    → (start_result m₁ m₂).0 ≡ (if m₁.0 then first else if m₂.0 then resumed else refused)
start_result-answer (true, d) m = refl
start_result-answer (false, d) (true, e) = refl
start_result-answer (false, d) (false, e) = refl

start_result-db : (m₁ m₂ : Bool × Db) → (start_result m₁ m₂).1 ≡ (if m₁.0 then m₁.1 else m₂.1)
start_result-db (true, d) m = refl
start_result-db (false, d) (true, e) = refl
start_result-db (false, d) (false, e) = refl

start_at-answer :
    (i : ℕ) (db : Db)
    → IsTable db.runs
    → let (is_first, db₁) = transit_at i (queued ∷ []) set_running db in
      let (is_resumed, db₂) = transit_at i resumable_status set_running db₁ in
      (if is_first then first else if is_resumed then resumed else refused) ≡ leg (find i db.runs)
start_at-answer i db t =
    let db₁ = (transit_at i (queued ∷ []) set_running db).1 in
    rw
      (
        transit_at-changed i (queued ∷ []) set_running db t,
        transit_at-changed i resumable_status set_running db₁
            (transit_at-IsTable i (queued ∷ []) set_running db (λ r. refl) t),
        transit_at-find i (queued ∷ []) set_running db i (λ r. refl),
      )
      (elim (Option-cases (find i db.runs)) [
        | inl e ↦ rw e
        | inr (r, e) ↦ rw e (ground (arith, e, id-find i db.runs r))
      ])

start_at-find :
    (i j : ℕ) (db : Db)
    → IsTable db.runs
    → let (is_first, db₁) = transit_at i (queued ∷ []) set_running db in
      let (_, db₂) = transit_at i resumable_status set_running db₁ in
      find j (if is_first then db₁ else db₂).runs
      ≡ Option.map (λ r. if r.id == i && is_live r then set_running r else r) (find j db.runs)
start_at-find i j db t =
    let db₁ = (transit_at i (queued ∷ []) set_running db).1 in
    let found = transit_at-find i (queued ∷ []) set_running db j (λ r. refl) in
    let again = transit_at-find i resumable_status set_running db₁ j (λ r. refl) in
    rw (transit_at-changed i (queued ∷ []) set_running db t) (elim (Option-cases (find j db.runs)) [
      | inl e ↦ ground (arith, e, found, again)
      | inr (r, e) ↦ ground (arith, e, found, again, id-find j db.runs r)
    ])

transit_from-at :
    (parse : Text → Option ℕ) (run : Text) (i : ℕ)
    → parse run ≡ some i
    → (allowed : List RunStatus) (change : RunRow → RunRow) (db : Db)
    → transit_from parse run allowed change db ≡ transit_at i allowed change db
unfolding transit_from
transit_from-at parse run i p allowed change db = rw (p, transit_from)

module _ (parse : Text → Option ℕ) (run : Text) (i : ℕ) (db : Db) (t : IsTable db.runs)
    (p : parse run ≡ some i) where
  -- On a table with its primary key, for an identifier that parses and with no other statement
  -- between the two of `start`, it answers `first` exactly for a queued run, `resumed` exactly for one that runs or waits
  -- for approval, and `refused` for one that has ended or is not there.
  pub start-leg : (start parse run db).0 ≡ leg (find i db.runs)
  unfolding start
  start-leg = simp (transit_from-at parse run i p, start_result-answer) (start_at-answer i db t)

  -- Under the same conditions, a run that has not ended is running after `start`, and every other
  -- row is as it was.
  pub start-find :
      (j : ℕ)
      → find j (start parse run db).1.runs
        ≡ Option.map (λ r. if r.id == i && is_live r then set_running r else r) (find j db.runs)
  unfolding start
  start-find j = simp (transit_from-at parse run i p, start_result-db) (start_at-find i j db t)
