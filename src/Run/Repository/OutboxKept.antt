-- ===== src/Run/Repository/OutboxKept.antt =====
-- Every statement keeps the outbox sound. Code: src/app/run/repository.py.
use mathlib.Core.Path.{subst}
use fin_agent_platform.Prelude.{
  ℕ, ◌≡◌, refl, ap, sym, ◌∙◌, inl, inr, Bool, true, false, Option, none, some, List, [], ◌∷◌, All,
  All-map, Bool-cases, Option-cases, Text,
}
use fin_agent_platform.Schema.{
  TokenUsage, RunStatus, queued, succeeded, same_status, cancellable_status, resumable_status,
  RunRow, MemoryJobRow, Db,
}
use fin_agent_platform.Run.Repository.{
  MemoryJobPayload, has_run, has_job, insert_run, create_parsed, set_succeeded, set_failed,
  set_cancelled, set_waiting, set_running, transit_at, transit_from, transit, resume, succeed,
  store_job, add_job, new_run, new_job,
}
use fin_agent_platform.Run.Repository.Table.{find, IsTable, holds_at}
use fin_agent_platform.Run.Repository.Calls.{
  Call, creates, starts_first, starts_again, succeeds, fails, cancels, waits, resumes, after,
}
use fin_agent_platform.Run.Repository.Lifecycle.{after-RowStep}
use fin_agent_platform.Run.Repository.History.{RowStep-final}
use fin_agent_platform.Run.Repository.Outbox.{has_succeeded, IsOutbox, holds_some, changed_row}

module _ (parse : Text → Option ℕ) where
  still_succeeded :
      (call : Call) (i : ℕ) (db : Db)
      → has_succeeded db i ≡ true
      → has_succeeded (after parse call db) i ≡ true
  still_succeeded call i db h =
      let (r, found, final, s) = holds_some (find i db.runs) h in
      rw (RowStep-final r (after-RowStep parse call i db) found final) s

  transit_from-jobs :
      (run : Text) (allowed : List RunStatus) (change : RunRow → RunRow) (db : Db)
      → (transit_from parse run allowed change db).1.memory_jobs ≡ db.memory_jobs
  unfolding transit_from transit_at
  transit_from-jobs run allowed change db = elim (Option-cases (parse run)) [
    | inl e ↦ rw (e, transit_from)
    | inr (i, e) ↦ rw (e, transit_from)
  ]

  resume-jobs : (run : Text) (db : Db) → (resume parse run db).1.memory_jobs ≡ db.memory_jobs
  unfolding resume transit_at
  resume-jobs run db = elim (Option-cases (parse run)) [
    | inl e ↦ rw (e, resume)
    | inr (i, e) ↦ rw (e, resume)
  ]

  insert_run-jobs : (row : RunRow) (db : Db) → (insert_run row db).1.memory_jobs ≡ db.memory_jobs
  insert_run-jobs row db = elim (Bool-cases (has_run row.id db.runs)) [
    | inl e ↦ rw e
    | inr e ↦ rw e
  ]

  create_parsed-jobs :
      (run thread user : Option ℕ) (content config context : Option Text) (now : ℕ) (db : Db)
      → (create_parsed run thread user content config context now db).1.memory_jobs ≡ db.memory_jobs
  create_parsed-jobs (some run) (some thread) (some user) content config context now db =
      insert_run-jobs (new_run run thread user content config context now) db
  create_parsed-jobs (some run) (some thread) none content config context now db = refl
  create_parsed-jobs (some run) none user content config context now db = refl
  create_parsed-jobs none thread user content config context now db = refl

  -- What `succeed` does to the jobs: nothing, or one job more of the run that it ended.
  data JobStep (i : ℕ) (before done : Db) (changed : Bool) (out : Db) : Type 0 where
    same_jobs : out.memory_jobs ≡ before.memory_jobs → JobStep i before done changed out
    one_more :
        (j : MemoryJobRow)
        → out.memory_jobs ≡ j ∷ done.memory_jobs
        → j.run_id ≡ i
        → out.runs ≡ done.runs
        → changed ≡ true
        → JobStep i before done changed out

  add_job-JobStep :
      (thread user : Option ℕ) (job run : ℕ) (messages : List Text) (now : ℕ) (before done : Db)
      → JobStep run before done true (add_job thread user job run messages now before done).1
  add_job-JobStep (some thread) (some user) job run messages now before done =
      elim (Bool-cases (has_job run done.memory_jobs)) [
        | inl e ↦ rw e (same_jobs refl)
        | inr e ↦ rw e (one_more (new_job job run thread user messages now) refl refl refl refl)
      ]
  add_job-JobStep (some thread) none job run messages now before done = same_jobs refl
  add_job-JobStep none user job run messages now before done = same_jobs refl

  store_job-JobStep :
      (i job : ℕ) (payload : Option MemoryJobPayload) (now : ℕ) (before : Db) (changed : Bool)
      (done : Db)
      → done.memory_jobs ≡ before.memory_jobs
      → JobStep i before done changed (store_job parse i job payload now before (changed, done)).1
  unfolding store_job
  store_job-JobStep i job none now before changed done h = same_jobs h
  store_job-JobStep i job (some payload) now before false done h = same_jobs h
  store_job-JobStep i job (some payload) now before true done h =
      add_job-JobStep (parse payload.thread_id) (parse payload.user_id) job i payload.messages now
        before done

  kept_jobs :
      (call : Call) (db : Db)
      → IsOutbox db
      → All
          (λ (j : MemoryJobRow). has_succeeded (after parse call db) j.run_id ≡ true)
          db.memory_jobs
  kept_jobs call db o = All-map _ _ db.memory_jobs (λ j h. still_succeeded call j.run_id db h) o

  kept-IsOutbox :
      (call : Call) (db : Db)
      → IsOutbox db
      → (after parse call db).memory_jobs ≡ db.memory_jobs
      → IsOutbox (after parse call db)
  kept-IsOutbox call db o e =
      subst (All (λ (j : MemoryJobRow). has_succeeded (after parse call db) j.run_id ≡ true))
        (sym e) (kept_jobs call db o)

  store_job-IsOutbox :
      (i : ℕ) (before done : Db) (changed : Bool) (out : Db)
      → IsOutbox before
      → done.memory_jobs ≡ before.memory_jobs
      → (changed ≡ true → has_succeeded done i ≡ true)
      → All (λ (j : MemoryJobRow). has_succeeded out j.run_id ≡ true) before.memory_jobs
      → JobStep i before done changed out
      → IsOutbox out
  store_job-IsOutbox i before done changed out o e c kept (same_jobs s) =
      subst (All (λ (j : MemoryJobRow). has_succeeded out j.run_id ≡ true)) (sym s) kept
  store_job-IsOutbox i before done changed out o e c kept (one_more j s r d t) =
      subst (All (λ (j : MemoryJobRow). has_succeeded out j.run_id ≡ true))
        (sym (s ∙ ap (λ l. j ∷ l) e))
        (
          ap (has_succeeded out) r
              ∙ ap (λ rows. holds_at (λ (r : RunRow). same_status r.status succeeded) (find i rows))
                  d
              ∙ c t,
          kept,
        )

  succeed-IsOutbox :
      (run : Text) (tokens : TokenUsage) (payload : Option MemoryJobPayload) (job now : ℕ) (db : Db)
      → IsTable db.runs
      → IsOutbox db
      → All
          (λ (j : MemoryJobRow).
            has_succeeded (succeed parse run tokens payload job now db).1 j.run_id ≡ true)
          db.memory_jobs
      → IsOutbox (succeed parse run tokens payload job now db).1
  unfolding succeed
  succeed-IsOutbox run tokens payload job now db t o kept = elim (Option-cases (parse run)) [
    | inl e ↦ rw (e, succeed) o
    | inr (i, e) ↦
        let m = transit_at i cancellable_status (set_succeeded tokens now) db in
        let kept' : All
            (λ (j : MemoryJobRow).
              has_succeeded (store_job parse i job payload now db m).1 j.run_id ≡ true)
            db.memory_jobs =
          rw (e, succeed) at kept in
        rw (e, succeed)
          (store_job-IsOutbox i db m.1 m.0 (store_job parse i job payload now db m).1 o refl
            (λ c. (changed_row i now tokens db t c).1) kept'
            (store_job-JobStep i job payload now db m.0 m.1 refl))
  ]

  -- On a table with its primary key, every statement keeps the outbox sound: if each memory job
  -- belongs to a run that succeeded, the same holds after it.
  pub after-IsOutbox :
      (call : Call) (db : Db) → IsTable db.runs → IsOutbox db → IsOutbox (after parse call db)
  unfolding after transit
  after-IsOutbox (creates run thread user content config context now) db t o =
      kept-IsOutbox (creates run thread user content config context now) db o
        (create_parsed-jobs (parse run) (parse thread) (parse user) content config context now db)
  after-IsOutbox (starts_first run) db t o =
      kept-IsOutbox (starts_first run) db o (transit_from-jobs run (queued ∷ []) set_running db)
  after-IsOutbox (starts_again run) db t o =
      kept-IsOutbox (starts_again run) db o (transit_from-jobs run resumable_status set_running db)
  after-IsOutbox (succeeds run tokens payload job now) db t o =
      succeed-IsOutbox run tokens payload job now db t o
        (kept_jobs (succeeds run tokens payload job now) db o)
  after-IsOutbox (fails run code message now) db t o =
      kept-IsOutbox (fails run code message now) db o
        (transit_from-jobs run cancellable_status (set_failed code message now) db)
  after-IsOutbox (cancels run tokens now) db t o =
      kept-IsOutbox (cancels run tokens now) db o
        (transit_from-jobs run cancellable_status (set_cancelled tokens now) db)
  after-IsOutbox (waits run tokens) db t o =
      kept-IsOutbox (waits run tokens) db o
        (transit_from-jobs run cancellable_status (set_waiting tokens) db)
  after-IsOutbox (resumes run) db t o = kept-IsOutbox (resumes run) db o (resume-jobs run db)
