-- ===== src/Run/Repository/Finality.antt =====
-- Who ends a run: the answers of the calls against the states of the table.
-- Code: the callers of src/app/run/repository.py push the final event only on `True`.
use fin_agent_platform.Prelude.{
  ℕ, ◌+◌, ◌≡◌, refl, inl, inr, Bool, true, false, ◌&&◌, Option, none, some, List, [], ◌∷◌, arith,
  ◌==◌, Bool-cases, Option-cases, if◌then◌else◌, Text,
}
use fin_agent_platform.Schema.{
  TokenUsage, RunStatus, queued, waiting_approval, is_in, cancellable_status, live_status,
  resumable_status, RunRow, Db,
}
use fin_agent_platform.Run.Repository.{
  MemoryJobPayload, has_run, has_job, insert_run, create_parsed, set_succeeded, set_failed,
  set_cancelled, set_waiting, set_running, set_queued, transit_at, transit_from, transit,
  wait_approval, resume, succeed, store_job, add_job, new_run,
}
use fin_agent_platform.Run.Repository.Table.{
  find, IsTable, KeepsId, transit_at-find, transit_at-changed, has_run-ids, find_of_fresh, id-find,
}
use fin_agent_platform.Run.Repository.Calls.{
  Call, creates, starts_first, starts_again, succeeds, fails, cancels, waits, resumes, after,
  finalizes, targets, answer_true,
}

abbrev pub is_live : RunRow → Bool
is_live r = is_in r.status live_status

-- 1 while run `i` has no final state yet (before it is created too), 0 once it has one.
abbrev open_row : Option RunRow → ℕ
open_row none = 1
open_row (some r) = if is_live r then 1 else 0

abbrev pub open_at : ℕ → Db → ℕ
open_at i db = open_row (find i db.runs)

transit_at-opens :
    (i j : ℕ) (allowed : List RunStatus) (change : RunRow → RunRow) (db : Db)
    → KeepsId change
    → ((r : RunRow)
        → is_in r.status allowed ≡ true
        → (is_live r ≡ true) × (is_live (change r) ≡ true))
    → open_at j (transit_at i allowed change db).1 ≡ open_at j db
transit_at-opens i j allowed change db k live = elim (Option-cases (find j db.runs)) [
  | inl e ↦ rw (transit_at-find i allowed change db j k) (rw e)
  | inr (r, e) ↦ rw (transit_at-find i allowed change db j k) (rw e (ground (arith, live r)))
]

transit_at-closes :
    (i j : ℕ) (change : RunRow → RunRow) (db : Db)
    → IsTable db.runs
    → KeepsId change
    → ((r : RunRow) → is_live (change r) ≡ false)
    → (if i == j && (transit_at i cancellable_status change db).0 then 1 else 0)
        + open_at j (transit_at i cancellable_status change db).1
      ≡ open_at j db
transit_at-closes i j change db t k final =
    rw
      (
        transit_at-changed i cancellable_status change db t,
        transit_at-find i cancellable_status change db j k,
      )
      (elim (Option-cases (find j db.runs)) [
        | inl e ↦ rw e (ground (arith, e))
        | inr (r, e) ↦ rw e (ground (arith, e, final r, id-find j db.runs r))
      ])

module _ (parse : Text → Option ℕ) where
  transit_from-opens :
      (run : Text) (j : ℕ) (allowed : List RunStatus) (change : RunRow → RunRow) (db : Db)
      → KeepsId change
      → ((r : RunRow)
          → is_in r.status allowed ≡ true
          → (is_live r ≡ true) × (is_live (change r) ≡ true))
      → open_at j (transit_from parse run allowed change db).1 ≡ open_at j db
  unfolding transit_from
  transit_from-opens run j allowed change db k live = elim (Option-cases (parse run)) [
    | inl e ↦ rw (e, transit_from)
    | inr (i, e) ↦ rw (e, transit_from) (transit_at-opens i j allowed change db k live)
  ]

  pub transit-closes :
      (run : Text) (j : ℕ) (change : RunRow → RunRow) (db : Db)
      → IsTable db.runs
      → KeepsId change
      → ((r : RunRow) → is_live (change r) ≡ false)
      → (if targets j (parse run) && (transit parse run change db).0 then 1 else 0)
          + open_at j (transit parse run change db).1
        ≡ open_at j db
  unfolding transit
  transit-closes run j change db t k final = elim (Option-cases (parse run)) [
    | inl e ↦ rw (e, transit_from) (omega arith)
    | inr (i, e) ↦ rw (e, transit_from) (transit_at-closes i j change db t k final)
  ]

  add_job-closes :
      (thread user : Option ℕ) (i job : ℕ) (messages : List Text) (now j : ℕ) (before done : Db)
      → (if i == j then 1 else 0) + open_at j done ≡ open_at j before
      → let (answer, db) = add_job thread user job i messages now before done in
        (if i == j && answer_true answer then 1 else 0) + open_at j db ≡ open_at j before
  add_job-closes (some thread) (some user) i job messages now j before done h =
      elim (Bool-cases (has_job i done.memory_jobs)) [
        | inl e ↦ rw e (ground arith)
        | inr e ↦ rw e (ground arith)
      ]
  add_job-closes (some thread) none i job messages now j before done h = ground arith
  add_job-closes none user i job messages now j before done h = ground arith

  store_job-closes :
      (i job : ℕ) (payload : Option MemoryJobPayload) (now j : ℕ) (before : Db) (changed : Bool)
      (done : Db)
      → (if i == j && changed then 1 else 0) + open_at j done ≡ open_at j before
      → let (answer, db) = store_job parse i job payload now before (changed, done) in
        (if i == j && answer_true answer then 1 else 0) + open_at j db ≡ open_at j before
  unfolding store_job
  store_job-closes i job none now j before changed done h = h
  store_job-closes i job (some payload) now j before false done h = h
  store_job-closes i job (some payload) now j before true done h =
      add_job-closes (parse payload.thread_id) (parse payload.user_id) i job payload.messages now j
        before done (ground arith)

  succeed-closes :
      (run : Text) (tokens : TokenUsage) (payload : Option MemoryJobPayload) (job now j : ℕ)
      (db : Db)
      → IsTable db.runs
      → let (answer, db') = succeed parse run tokens payload job now db in
        (if targets j (parse run) && answer_true answer then 1 else 0) + open_at j db'
        ≡ open_at j db
  unfolding succeed
  succeed-closes run tokens payload job now j db t = elim (Option-cases (parse run)) [
    | inl e ↦ rw (e, succeed) (omega arith)
    | inr (i, e) ↦
        rw (e, succeed)
          (let m = transit_at i cancellable_status (set_succeeded tokens now) db in
            store_job-closes i job payload now j db m.0 m.1
              (transit_at-closes i j (set_succeeded tokens now) db t (λ r. refl) (λ r. refl)))
  ]

  insert_run-opens :
      (row : RunRow) (j : ℕ) (db : Db)
      → row.status ≡ queued
      → open_at j (insert_run row db).1 ≡ open_at j db
  unfolding find
  insert_run-opens row j db q = elim (Bool-cases (has_run row.id db.runs)) [
    | inl e ↦ rw e
    | inr e ↦ elim (Bool-cases (row.id == j)) [
      | inl same ↦
          (let absent : find j db.runs ≡ none =
              find_of_fresh j db.runs (ground (arith, has_run-ids row.id db.runs)) in
            rw (e, same) (rw (absent, q)))
      | inr other ↦ rw (e, other)
    ]
  ]

  create_parsed-opens :
      (run thread user : Option ℕ) (content config context : Option Text) (now j : ℕ) (db : Db)
      → open_at j (create_parsed run thread user content config context now db).1 ≡ open_at j db
  create_parsed-opens (some run) (some thread) (some user) content config context now j db =
      insert_run-opens (new_run run thread user content config context now) j db refl
  create_parsed-opens (some run) (some thread) none content config context now j db = refl
  create_parsed-opens (some run) none user content config context now j db = refl
  create_parsed-opens none thread user content config context now j db = refl

  resume-opens : (run : Text) (j : ℕ) (db : Db) → open_at j (resume parse run db).1 ≡ open_at j db
  unfolding resume
  resume-opens run j db = elim (Option-cases (parse run)) [
    | inl e ↦ rw (e, resume)
    | inr (i, e) ↦
        rw (e, resume)
          (transit_at-opens i j (waiting_approval ∷ []) set_queued db (λ r. refl)
            (λ r h. ground arith))
  ]

  wait_approval-opens :
      (run : Text) (tokens : TokenUsage) (j : ℕ) (db : Db)
      → open_at j (wait_approval parse run tokens db).1 ≡ open_at j db
  unfolding wait_approval
  wait_approval-opens run tokens j db =
      transit_from-opens run j cancellable_status (set_waiting tokens) db (λ r. refl)
        (λ r h. ground arith)

  -- One call: it answers `True` for run `j` exactly when it takes `j` out of the open runs.
  pub finalizes-open :
      (j : ℕ) (call : Call) (db : Db)
      → IsTable db.runs
      → (if finalizes parse j call db then 1 else 0) + open_at j (after parse call db)
        ≡ open_at j db
  unfolding after finalizes
  finalizes-open j (creates run thread user content config context now) db t = omega (
    arith,
    create_parsed-opens (parse run) (parse thread) (parse user) content config context now j db,
  )
  finalizes-open j (starts_first run) db t = omega (
    arith,
    transit_from-opens run j (queued ∷ []) set_running db (λ r. refl) (λ r h. ground arith),
  )
  finalizes-open j (starts_again run) db t = omega (
    arith,
    transit_from-opens run j resumable_status set_running db (λ r. refl) (λ r h. ground arith),
  )
  finalizes-open j (succeeds run tokens payload job now) db t =
      succeed-closes run tokens payload job now j db t
  finalizes-open j (fails run code message now) db t =
      transit-closes run j (set_failed code message now) db t (λ r. refl) (λ r. refl)
  finalizes-open j (cancels run none now) db t =
      transit-closes run j (set_cancelled none now) db t (λ r. refl) (λ r. refl)
  finalizes-open j (cancels run (some tokens) now) db t =
      transit-closes run j (set_cancelled (some tokens) now) db t (λ r. refl) (λ r. refl)
  finalizes-open j (waits run tokens) db t = omega (arith, wait_approval-opens run tokens j db)
  finalizes-open j (resumes run) db t = omega (arith, resume-opens run j db)
