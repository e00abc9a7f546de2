-- ===== src/Run/Repository/Lifecycle.antt =====
-- The state machine of a run: what any call makes of any row.
-- Code: the conditional updates of src/app/run/repository.py.
use fin_agent_platform.Prelude.{
  ℕ, ◌+◌, ◌≡◌, refl, ap, ◌∙◌, inl, inr, Bool, true, false, Option, none, some, List, [], ◌∷◌, arith,
  ◌==◌, Bool-cases, Option-cases, Text,
}
use fin_agent_platform.Schema.{
  TokenUsage, RunStatus, queued, running, waiting_approval, succeeded, failed, cancelled,
  RunErrorCode, is_in, cancellable_status, resumable_status, RunRow, Db,
}
use fin_agent_platform.Run.Repository.{
  MemoryJobPayload, at_status, has_run, has_job, insert_run, create_parsed, set_succeeded,
  set_failed, set_cancelled, set_waiting, set_running, set_queued, transit_at, transit_from,
  transit, resume, succeed, store_job, add_job, new_run,
}
use fin_agent_platform.Run.Repository.Table.{
  find, KeepsId, transit_at-find, has_run-ids, find_of_fresh,
}
use fin_agent_platform.Run.Repository.Calls.{
  Call, creates, starts_first, starts_again, succeeds, fails, cancels, waits, resumes, after,
}

-- The moves of one row under a call that names it: the edges of the state machine, with every column
-- that each one writes.
pub data Moves (parse : Text → Option ℕ) (r s : RunRow) : Call → Type 0 where
  begins_first :
      (run : Text)
      → parse run ≡ some r.id
      → r.status ≡ queued
      → s ≡ record r { status = running }
      → Moves parse r s (starts_first run)
  begins_again :
      (run : Text)
      → parse run ≡ some r.id
      → is_in r.status (running ∷ waiting_approval ∷ []) ≡ true
      → s ≡ record r { status = running }
      → Moves parse r s (starts_again run)
  ends_well :
      (run : Text) (tokens : TokenUsage) (payload : Option MemoryJobPayload) (job now : ℕ)
      → parse run ≡ some r.id
      → is_in r.status (queued ∷ running ∷ waiting_approval ∷ []) ≡ true
      → s ≡ record r {
        status = succeeded;
        ended_at = some now;
        tokens_cache_read = r.tokens_cache_read + tokens.input_cache_read;
        tokens_uncached = r.tokens_uncached + tokens.input_uncached;
        tokens_output = r.tokens_output + tokens.output;
      }
      → Moves parse r s (succeeds run tokens payload job now)
  ends_badly :
      (run : Text) (code : RunErrorCode) (message : Text) (now : ℕ)
      → parse run ≡ some r.id
      → is_in r.status (queued ∷ running ∷ waiting_approval ∷ []) ≡ true
      → s ≡ record r {
        status = failed;
        error_code = some code;
        error_message = some message;
        ended_at = some now;
      }
      → Moves parse r s (fails run code message now)
  ends_early :
      (run : Text) (now : ℕ)
      → parse run ≡ some r.id
      → is_in r.status (queued ∷ running ∷ waiting_approval ∷ []) ≡ true
      → s ≡ record r { status = cancelled; ended_at = some now }
      → Moves parse r s (cancels run none now)
  ends_charged :
      (run : Text) (tokens : TokenUsage) (now : ℕ)
      → parse run ≡ some r.id
      → is_in r.status (queued ∷ running ∷ waiting_approval ∷ []) ≡ true
      → s ≡ record r {
        status = cancelled;
        ended_at = some now;
        tokens_cache_read = r.tokens_cache_read + tokens.input_cache_read;
        tokens_uncached = r.tokens_uncached + tokens.input_uncached;
        tokens_output = r.tokens_output + tokens.output;
      }
      → Moves parse r s (cancels run (some tokens) now)
  suspends :
      (run : Text) (tokens : TokenUsage)
      → parse run ≡ some r.id
      → is_in r.status (queued ∷ running ∷ waiting_approval ∷ []) ≡ true
      → s ≡ record r {
        status = waiting_approval;
        tokens_cache_read = r.tokens_cache_read + tokens.input_cache_read;
        tokens_uncached = r.tokens_uncached + tokens.input_uncached;
        tokens_output = r.tokens_output + tokens.output;
      }
      → Moves parse r s (waits run tokens)
  requeues :
      (run : Text)
      → parse run ≡ some r.id
      → r.status ≡ waiting_approval
      → s ≡ record r { status = queued; ended_at = none }
      → Moves parse r s (resumes run)

-- What a call makes of the row with one identifier: nothing, the new row of a `create` where there
-- was none, or the move of the call.
pub data RowStep (parse : Text → Option ℕ) (i : ℕ) (o p : Option RunRow) : Call → Type 0 where
  untouched : {call : Call} → p ≡ o → RowStep parse i o p call
  inserted :
      (run thread user : Text) (content config context : Option Text) (now t u : ℕ)
      → parse run ≡ some i
      → parse thread ≡ some t
      → parse user ≡ some u
      → o ≡ none
      → p
        ≡ some (record {
          id = i;
          thread_id = t;
          content = content;
          agent_config = config;
          user_context = context;
          user_id = some u;
          status = queued;
          checkpoint_id = none;
          error_code = none;
          error_message = none;
          tokens_cache_read = 0;
          tokens_uncached = 0;
          tokens_output = 0;
          started_at = now;
          ended_at = none;
        })
      → RowStep parse i o p (creates run thread user content config context now)
  moved :
      {call : Call} (r s : RunRow)
      → o ≡ some r
      → p ≡ some s
      → Moves parse r s call
      → RowStep parse i o p call

-- A conditional update moves a row that passes its test and leaves every other row.
transit_at-RowStep :
    (parse : Text → Option ℕ) (call : Call) (i j : ℕ) (allowed : List RunStatus)
    (change : RunRow → RunRow) (db : Db)
    → KeepsId change
    → ((r : RunRow) → r.id ≡ i → is_in r.status allowed ≡ true → Moves parse r (change r) call)
    → RowStep parse j (find j db.runs) (find j (transit_at i allowed change db).1.runs) call
transit_at-RowStep parse call i j allowed change db k step = elim (Option-cases (find j db.runs)) [
  | inl e ↦ untouched (rw (transit_at-find i allowed change db j k) (rw e))
  | inr (r, e) ↦ elim (Bool-cases (at_status i allowed r)) [
    | inl t ↦
        moved r (change r) e (rw (transit_at-find i allowed change db j k) (rw (e, t)))
          (step r (ground arith) (ground arith))
    | inr t ↦ untouched (rw (transit_at-find i allowed change db j k) (rw (e, t)))
  ]
]

module _ (parse : Text → Option ℕ) where
  transit_from-RowStep :
      (call : Call) (run : Text) (j : ℕ) (allowed : List RunStatus) (change : RunRow → RunRow)
      (db : Db)
      → KeepsId change
      → ((r : RunRow)
          → parse run ≡ some r.id
          → is_in r.status allowed ≡ true
          → Moves parse r (change r) call)
      → RowStep parse j
          (find j db.runs)
          (find j (transit_from parse run allowed change db).1.runs)
          call
  unfolding transit_from
  transit_from-RowStep call run j allowed change db k step = elim (Option-cases (parse run)) [
    | inl e ↦ rw (e, transit_from) (untouched refl)
    | inr (i, e) ↦
        rw (e, transit_from)
          (transit_at-RowStep parse call i j allowed change db k (λ r same h. step r (rw same e) h))
  ]

  insert_run-RowStep :
      (run thread user : Text) (content config context : Option Text) (now i t u j : ℕ) (db : Db)
      → parse run ≡ some i
      → parse thread ≡ some t
      → parse user ≡ some u
      → RowStep parse j
          (find j db.runs)
          (find j (insert_run (new_run i t u content config context now) db).1.runs)
          (creates run thread user content config context now)
  unfolding find
  insert_run-RowStep run thread user content config context now i t u j db er et eu =
      elim (Bool-cases (has_run i db.runs)) [
        | inl e ↦ rw e (untouched refl)
        | inr e ↦ elim (Bool-cases (i == j)) [
          | inl same ↦
              let one : i ≡ j = ground arith in
              let absent : find j db.runs ≡ none =
                find_of_fresh j db.runs (ground (arith, has_run-ids i db.runs)) in
              rw (e, same)
                (inserted run thread user content config context now t u (er ∙ ap some one) et eu
                  absent (rw one))
          | inr other ↦ rw (e, other) (untouched refl)
        ]
      ]

  create-RowStep :
      (run thread user : Text) (content config context : Option Text) (now j : ℕ) (db : Db)
      → RowStep parse j
          (find j db.runs)
          (find j
            (create_parsed
              (parse run)
              (parse thread)
              (parse user)
              content
              config
              context
              now
              db).1.runs)
          (creates run thread user content config context now)
  create-RowStep run thread user content config context now j db = elim (Option-cases (parse run)) [
    | inl e ↦ rw e (untouched refl)
    | inr (i, er) ↦ elim (Option-cases (parse thread)) [
      | inl e ↦ rw (er, e) (untouched refl)
      | inr (t, et) ↦ elim (Option-cases (parse user)) [
        | inl e ↦ rw (er, et, e) (untouched refl)
        | inr (u, eu) ↦
            rw (er, et, eu)
              (insert_run-RowStep run thread user content config context now i t u j db er et eu)
      ]
    ]
  ]

  resume-RowStep :
      (run : Text) (j : ℕ) (db : Db)
      → RowStep parse j (find j db.runs) (find j (resume parse run db).1.runs) (resumes run)
  unfolding resume
  resume-RowStep run j db = elim (Option-cases (parse run)) [
    | inl e ↦ rw (e, resume) (untouched refl)
    | inr (i, e) ↦
        rw (e, resume)
          (transit_at-RowStep parse (resumes run) i j (waiting_approval ∷ []) set_queued db
            (λ r. refl) (λ r same h. requeues run (rw same e) (ground arith) refl))
  ]

  -- The outbox row never touches `runs`: either the update stays, or all of it is rolled back.
  add_job-RowStep :
      (call : Call) (thread user : Option ℕ) (job run : ℕ) (messages : List Text) (now j : ℕ)
      (before done : Db)
      → RowStep parse j (find j before.runs) (find j done.runs) call
      → RowStep parse j
          (find j before.runs)
          (find j (add_job thread user job run messages now before done).1.runs)
          call
  add_job-RowStep call (some thread) (some user) job run messages now j before done h =
      elim (Bool-cases (has_job run done.memory_jobs)) [
        | inl e ↦ rw e (untouched refl)
        | inr e ↦ rw e h
      ]
  add_job-RowStep call (some thread) none job run messages now j before done h = untouched refl
  add_job-RowStep call none user job run messages now j before done h = untouched refl

  store_job-RowStep :
      (call : Call) (i job : ℕ) (payload : Option MemoryJobPayload) (now j : ℕ) (before : Db)
      (changed : Bool) (done : Db)
      → RowStep parse j (find j before.runs) (find j done.runs) call
      → RowStep parse j
          (find j before.runs)
          (find j (store_job parse i job payload now before (changed, done)).1.runs)
          call
  unfolding store_job
  store_job-RowStep call i job none now j before changed done h = h
  store_job-RowStep call i job (some payload) now j before false done h = h
  store_job-RowStep call i job (some payload) now j before true done h =
      add_job-RowStep call (parse payload.thread_id) (parse payload.user_id) job i payload.messages
        now j before done h

  succeed-RowStep :
      (run : Text) (tokens : TokenUsage) (payload : Option MemoryJobPayload) (job now j : ℕ)
      (db : Db)
      → RowStep parse j
          (find j db.runs)
          (find j (succeed parse run tokens payload job now db).1.runs)
          (succeeds run tokens payload job now)
  unfolding succeed
  succeed-RowStep run tokens payload job now j db = elim (Option-cases (parse run)) [
    | inl e ↦ rw (e, succeed) (untouched refl)
    | inr (i, e) ↦
        rw (e, succeed)
          (let m = transit_at i cancellable_status (set_succeeded tokens now) db in
            let call = succeeds run tokens payload job now in
            store_job-RowStep call i job payload now j db m.0 m.1 (
              transit_at-RowStep parse call i j cancellable_status (set_succeeded tokens now) db
                (λ r. refl) (λ r same h. ends_well run tokens payload job now (rw same e) h refl)))
  ]

  -- Whatever the call, a row is left alone, is inserted by a `create` as a queued run without tokens,
  -- or makes the one move of that call, with every column that it writes.
  pub after-RowStep :
      (call : Call) (j : ℕ) (db : Db)
      → RowStep parse j (find j db.runs) (find j (after parse call db).runs) call
  unfolding after transit
  after-RowStep (creates run thread user content config context now) j db =
      create-RowStep run thread user content config context now j db
  after-RowStep (starts_first run) j db =
      transit_from-RowStep (starts_first run) run j (queued ∷ []) set_running db (λ r. refl)
        (λ r e h. begins_first run e (ground arith) refl)
  after-RowStep (starts_again run) j db =
      transit_from-RowStep (starts_again run) run j resumable_status set_running db (λ r. refl)
        (λ r e h. begins_again run e (ground arith) refl)
  after-RowStep (succeeds run tokens payload job now) j db =
      succeed-RowStep run tokens payload job now j db
  after-RowStep (fails run code message now) j db =
      transit_from-RowStep (fails run code message now) run j cancellable_status
        (set_failed code message now) db (λ r. refl)
        (λ r e h. ends_badly run code message now e h refl)
  after-RowStep (cancels run none now) j db =
      transit_from-RowStep (cancels run none now) run j cancellable_status (set_cancelled none now)
        db (λ r. refl) (λ r e h. ends_early run now e h refl)
  after-RowStep (cancels run (some tokens) now) j db =
      transit_from-RowStep (cancels run (some tokens) now) run j cancellable_status
        (set_cancelled (some tokens) now) db (λ r. refl)
        (λ r e h. ends_charged run tokens now e h refl)
  after-RowStep (waits run tokens) j db =
      transit_from-RowStep (waits run tokens) run j cancellable_status (set_waiting tokens) db
        (λ r. refl) (λ r e h. suspends run tokens e h refl)
  after-RowStep (resumes run) j db = resume-RowStep run j db
