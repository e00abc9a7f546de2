-- ===== src/Run/Repository/Outbox.antt =====
-- The outbox: a memory job exists only for a run that succeeded, and `succeed` never clashes with a
-- job that is there. Code: `succeed` of src/app/run/repository.py.
use fin_agent_platform.Prelude.{
  ℕ, ◌≡◌, ◌≢◌, refl, ap, sym, ◌∙◌, inl, inr, Bool, true, false, Option, none, some, List, [], ◌∷◌,
  arith, ◌==◌, All, Bool-cases, Option-cases, Text,
}
use fin_agent_platform.Schema.{
  TokenUsage, succeeded, same_status, cancellable_status, RunRow, MemoryJobRow, Db,
}
use fin_agent_platform.Run.Repository.{
  raised, integrity_error, MemoryJobPayload, has_job, set_succeeded, transit_at, succeed, store_job,
  add_job,
}
use fin_agent_platform.Run.Repository.Table.{
  find, IsTable, holds_at, transit_at-find, transit_at-changed, id-find,
}
use fin_agent_platform.Run.Repository.Finality.{is_live}

abbrev pub has_succeeded : Db → ℕ → Bool
has_succeeded db i = holds_at (λ r. same_status r.status succeeded) (find i db.runs)

-- Each job belongs to a run that succeeded.
abbrev pub IsOutbox : Db → Type 0
IsOutbox db = All (λ (j : MemoryJobRow). has_succeeded db j.run_id ≡ true) db.memory_jobs

pub holds_some :
    (o : Option RunRow)
    → holds_at (λ r. same_status r.status succeeded) o ≡ true
    → (r : RunRow) × (o ≡ some r) × (is_live r ≡ false) × (same_status r.status succeeded ≡ true)
holds_some none h = cc
holds_some (some r) h = (r, refl, ground arith, h)

-- A run that has a job is not live, so it has no second one.
no_job_of_live :
    (i : ℕ) (db : Db) (jobs : List MemoryJobRow)
    → holds_at is_live (find i db.runs) ≡ true
    → All (λ (j : MemoryJobRow). has_succeeded db j.run_id ≡ true) jobs
    → has_job i jobs ≡ false
no_job_of_live i db [] l o = refl
no_job_of_live i db (j ∷ jobs) l o = elim (Bool-cases (j.run_id == i)) [
  | inl e ↦
      let same : j.run_id ≡ i = ground arith in
      let (r, found, final, s) = holds_some (find j.run_id db.runs) o.0 in
      absurd (
        ground (
          arith,
          final,
          l,
          ap (λ n. holds_at is_live (find n db.runs)) same,
          ap (holds_at is_live) found,
        ))
  | inr e ↦ ground (arith, no_job_of_live i db jobs l o.1)
]

-- The update of `succeed`, where it changed the row.
pub changed_row :
    (i now : ℕ) (tokens : TokenUsage) (db : Db)
    → IsTable db.runs
    → let (changed, done) = transit_at i cancellable_status (set_succeeded tokens now) db in
      changed ≡ true → (holds_at is_live (find i db.runs) ≡ true) × (has_succeeded done i ≡ true)
changed_row i now tokens db t h =
    let live : holds_at is_live (find i db.runs) ≡ true =
      sym (transit_at-changed i cancellable_status (set_succeeded tokens now) db t) ∙ h in
    (
      live,
      elim (Option-cases (find i db.runs)) [
        | inl e ↦ absurd (ground (arith, live, ap (holds_at is_live) e))
        | inr (r, e) ↦
            rw (transit_at-find i cancellable_status (set_succeeded tokens now) db i (λ r. refl), e)
              (ground (arith, id-find i db.runs r e, live, ap (holds_at is_live) e))
      ],
    )

module _ (parse : Text → Option ℕ) where
  add_job-outcome :
      (thread user : Option ℕ) (job run : ℕ) (messages : List Text) (now : ℕ) (before done : Db)
      → has_job run done.memory_jobs ≡ false
      → (add_job thread user job run messages now before done).0 ≢ raised integrity_error
  add_job-outcome (some thread) (some user) job run messages now before done h = rw h (λ e. cc)
  add_job-outcome (some thread) none job run messages now before done h = λ e. cc
  add_job-outcome none user job run messages now before done h = λ e. cc

  store_job-outcome :
      (i job : ℕ) (payload : Option MemoryJobPayload) (now : ℕ) (before : Db) (changed : Bool)
      (done : Db)
      → (changed ≡ true → has_job i done.memory_jobs ≡ false)
      → (store_job parse i job payload now before (changed, done)).0 ≢ raised integrity_error
  unfolding store_job
  store_job-outcome i job none now before changed done h = λ e. cc
  store_job-outcome i job (some payload) now before false done h = λ e. cc
  store_job-outcome i job (some payload) now before true done h =
      add_job-outcome (parse payload.thread_id) (parse payload.user_id) job i payload.messages now
        before done (h refl)

  -- On a table with its primary key whose jobs all belong to runs that succeeded, `succeed` never
  -- breaks the unique constraint on the run of a job.
  pub succeed-outcome :
      (run : Text) (tokens : TokenUsage) (payload : Option MemoryJobPayload) (job now : ℕ) (db : Db)
      → IsTable db.runs
      → IsOutbox db
      → (succeed parse run tokens payload job now db).0 ≢ raised integrity_error
  unfolding succeed
  succeed-outcome run tokens payload job now db t o = elim (Option-cases (parse run)) [
    | inl e ↦ rw (e, succeed) (λ e. cc)
    | inr (i, e) ↦
        let m = transit_at i cancellable_status (set_succeeded tokens now) db in
        rw (e, succeed)
          (store_job-outcome i job payload now db m.0 m.1
            (λ c. no_job_of_live i db m.1.memory_jobs (changed_row i now tokens db t c).0 o))
  ]
