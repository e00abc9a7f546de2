-- ===== src/Run/Repository/History.antt =====
-- A run over any history of calls: one final state, written once, and nothing after it.
-- Code: src/app/run/repository.py, as the api, the workers and the sweeps call it.
use fin_agent_platform.Prelude.{
  ℕ, ◌+◌, ◌≡◌, refl, inl, inr, Bool, true, false, Option, none, some, List, [], ◌∷◌, arith,
  Bool-cases, Option-cases, Text,
}
use fin_agent_platform.Schema.{
  TokenUsage, RunStatus, queued, waiting_approval, cancellable_status, resumable_status, RunRow, Db,
}
use fin_agent_platform.Run.Repository.{
  MemoryJobPayload, has_run, has_job, insert_run, create_parsed, set_succeeded, set_failed,
  set_cancelled, set_waiting, set_running, set_queued, transit_at, transit_from, transit, resume,
  succeed, store_job, add_job, new_run,
}
use fin_agent_platform.Run.Repository.Table.{
  find, ids, IsTable, KeepsId, holds_at, transit_at-IsTable, has_run-ids,
}
use fin_agent_platform.Run.Repository.Calls.{
  Call, creates, starts_first, starts_again, succeeds, fails, cancels, waits, resumes, after,
  after_all, finals,
}
use fin_agent_platform.Run.Repository.Finality.{is_live, open_at, finalizes-open}
use fin_agent_platform.Run.Repository.Lifecycle.{
  Moves, begins_first, begins_again, ends_well, ends_badly, ends_early, ends_charged, suspends,
  requeues, RowStep, untouched, inserted, moved, after-RowStep,
}

-- A row that has its final state makes no move any more.
Moves-final :
    {parse : Text → Option ℕ} {r s : RunRow} {call : Call}
    → Moves parse r s call
    → is_live r ≡ false
    → s ≡ r
Moves-final (begins_first run t l e) h = ground arith
Moves-final (begins_again run t l e) h = ground arith
Moves-final (ends_well run tokens payload job now t l e) h = ground arith
Moves-final (ends_badly run code message now t l e) h = ground arith
Moves-final (ends_early run now t l e) h = ground arith
Moves-final (ends_charged run tokens now t l e) h = ground arith
Moves-final (suspends run tokens t l e) h = ground arith
Moves-final (requeues run t l e) h = ground arith

pub RowStep-final :
    {parse : Text → Option ℕ} {i : ℕ} {o p : Option RunRow} {call : Call} (r : RunRow)
    → RowStep parse i o p call
    → o ≡ some r
    → is_live r ≡ false
    → p ≡ some r
RowStep-final r (untouched e) h f = cc
RowStep-final r (inserted run thread user content config context now t u er et eu e e') h f = cc
RowStep-final r (moved r' s e e' m) h f = ground (arith, Moves-final m)

-- A row stays in the table.
pub RowStep-kept :
    {parse : Text → Option ℕ} {i : ℕ} {o p : Option RunRow} {call : Call}
    → RowStep parse i o p call
    → holds_at (λ r. true) o ≡ true
    → holds_at (λ r. true) p ≡ true
RowStep-kept (untouched e) h = rw e h
RowStep-kept (inserted run thread user content config context now t u er et eu e e') h = rw e'
RowStep-kept (moved r s e e' m) h = rw e'

-- The primary key is kept by every call.
module _ (parse : Text → Option ℕ) where
  pub transit_from-IsTable :
      (run : Text) (allowed : List RunStatus) (change : RunRow → RunRow) (db : Db)
      → KeepsId change
      → IsTable db.runs
      → IsTable (transit_from parse run allowed change db).1.runs
  unfolding transit_from
  transit_from-IsTable run allowed change db k t = elim (Option-cases (parse run)) [
    | inl e ↦ rw (e, transit_from) t
    | inr (i, e) ↦ rw (e, transit_from) (transit_at-IsTable i allowed change db k t)
  ]

  insert_run-IsTable :
      (row : RunRow) (db : Db) → IsTable db.runs → IsTable (insert_run row db).1.runs
  unfolding ids
  insert_run-IsTable row db t = elim (Bool-cases (has_run row.id db.runs)) [
    | inl e ↦ rw e t
    | inr e ↦ rw e (ground (arith, has_run-ids row.id db.runs), t)
  ]

  create_parsed-IsTable :
      (run thread user : Option ℕ) (content config context : Option Text) (now : ℕ) (db : Db)
      → IsTable db.runs
      → IsTable (create_parsed run thread user content config context now db).1.runs
  create_parsed-IsTable (some run) (some thread) (some user) content config context now db t =
      insert_run-IsTable (new_run run thread user content config context now) db t
  create_parsed-IsTable (some run) (some thread) none content config context now db t = t
  create_parsed-IsTable (some run) none user content config context now db t = t
  create_parsed-IsTable none thread user content config context now db t = t

  add_job-IsTable :
      (thread user : Option ℕ) (i job : ℕ) (messages : List Text) (now : ℕ) (before done : Db)
      → IsTable before.runs
      → IsTable done.runs
      → IsTable (add_job thread user job i messages now before done).1.runs
  add_job-IsTable (some thread) (some user) i job messages now before done b d =
      elim (Bool-cases (has_job i done.memory_jobs)) [ inl e ↦ rw e b | inr e ↦ rw e d ]
  add_job-IsTable (some thread) none i job messages now before done b d = b
  add_job-IsTable none user i job messages now before done b d = b

  store_job-IsTable :
      (i job : ℕ) (payload : Option MemoryJobPayload) (now : ℕ) (before : Db) (changed : Bool)
      (done : Db)
      → IsTable before.runs
      → IsTable done.runs
      → IsTable (store_job parse i job payload now before (changed, done)).1.runs
  unfolding store_job
  store_job-IsTable i job none now before changed done b d = d
  store_job-IsTable i job (some payload) now before false done b d = d
  store_job-IsTable i job (some payload) now before true done b d =
      add_job-IsTable (parse payload.thread_id) (parse payload.user_id) i job payload.messages now
        before done b d

  succeed-IsTable :
      (run : Text) (tokens : TokenUsage) (payload : Option MemoryJobPayload) (job now : ℕ) (db : Db)
      → IsTable db.runs
      → IsTable (succeed parse run tokens payload job now db).1.runs
  unfolding succeed
  succeed-IsTable run tokens payload job now db t = elim (Option-cases (parse run)) [
    | inl e ↦ rw (e, succeed) t
    | inr (i, e) ↦
        rw (e, succeed)
          (let m = transit_at i cancellable_status (set_succeeded tokens now) db in
            store_job-IsTable i job payload now db m.0 m.1 t
              (transit_at-IsTable i cancellable_status (set_succeeded tokens now) db (λ r. refl) t))
  ]

  resume-IsTable : (run : Text) (db : Db) → IsTable db.runs → IsTable (resume parse run db).1.runs
  unfolding resume
  resume-IsTable run db t = elim (Option-cases (parse run)) [
    | inl e ↦ rw (e, resume) t
    | inr (i, e) ↦
        rw (e, resume) (transit_at-IsTable i (waiting_approval ∷ []) set_queued db (λ r. refl) t)
  ]

  pub after-IsTable : (call : Call) (db : Db) → IsTable db.runs → IsTable (after parse call db).runs
  unfolding after transit
  after-IsTable (creates run thread user content config context now) db t =
      create_parsed-IsTable (parse run) (parse thread) (parse user) content config context now db t
  after-IsTable (starts_first run) db t =
      transit_from-IsTable run (queued ∷ []) set_running db (λ r. refl) t
  after-IsTable (starts_again run) db t =
      transit_from-IsTable run resumable_status set_running db (λ r. refl) t
  after-IsTable (succeeds run tokens payload job now) db t =
      succeed-IsTable run tokens payload job now db t
  after-IsTable (fails run code message now) db t =
      transit_from-IsTable run cancellable_status (set_failed code message now) db (λ r. refl) t
  after-IsTable (cancels run none now) db t =
      transit_from-IsTable run cancellable_status (set_cancelled none now) db (λ r. refl) t
  after-IsTable (cancels run (some tokens) now) db t =
      transit_from-IsTable run cancellable_status (set_cancelled (some tokens) now) db (λ r. refl) t
  after-IsTable (waits run tokens) db t =
      transit_from-IsTable run cancellable_status (set_waiting tokens) db (λ r. refl) t
  after-IsTable (resumes run) db t = resume-IsTable run db t

  pub after_all-IsTable :
      (cs : List Call) (db : Db) → IsTable db.runs → IsTable (after_all parse cs db).runs
  unfolding after_all
  after_all-IsTable [] db t = t
  after_all-IsTable (c ∷ cs) db t = after_all-IsTable cs _ (after-IsTable c db t)

  -- On a table with its primary key and over any interleaving of calls, the number of calls that answer `True` for a run is the drop of
  -- `open_at`: exactly one if the run had no final state before and has one after, otherwise none.
  pub finals-balance :
      (i : ℕ) (calls : List Call) (db : Db)
      → IsTable db.runs
      → finals parse i calls db + open_at i (after_all parse calls db) ≡ open_at i db
  unfolding finals after_all
  finals-balance i [] db t = omega arith
  finals-balance i (c ∷ cs) db t = omega (
    arith,
    finalizes-open parse i c db t,
    finals-balance i cs (after parse c db) (after-IsTable c db t),
  )

  -- A run that has its final state keeps its whole row unchanged, whatever calls follow.
  pub final_row_frozen :
      (i : ℕ) (r : RunRow) (calls : List Call) (db : Db)
      → find i db.runs ≡ some r
      → is_live r ≡ false
      → find i (after_all parse calls db).runs ≡ some r
  unfolding after_all
  final_row_frozen i r [] db e f = e
  final_row_frozen i r (c ∷ cs) db e f =
      final_row_frozen i r cs (after parse c db) (RowStep-final r (after-RowStep parse c i db) e f)
        f

  pub after_all-kept :
      (i : ℕ) (calls : List Call) (db : Db)
      → holds_at (λ r. true) (find i db.runs) ≡ true
      → holds_at (λ r. true) (find i (after_all parse calls db).runs) ≡ true
  unfolding after_all
  after_all-kept i [] db h = h
  after_all-kept i (c ∷ cs) db h =
      after_all-kept i cs (after parse c db) (RowStep-kept (after-RowStep parse c i db) h)
