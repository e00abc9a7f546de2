-- ===== src/Run/Repository.antt =====
-- `RunRepository` of src/app/run/repository.py: every method that writes `runs`, as a function from
-- the database to its result and the database after it. A statement is one transaction, so a method
-- is atomic wherever the source sends one statement. `now` is `datetime.now(UTC)`, and `parse` is
-- `UUID(…)`, with `none` for its `ValueError`.
pub mod Table
pub mod Calls
pub mod Lifecycle
pub mod Finality
pub mod Answers
pub mod Tokens
pub mod Ledger
pub mod History
pub mod Outbox
pub mod OutboxKept
use fin_agent_platform.Prelude.{
  ℕ, ◌+◌, Bool, true, false, ◌&&◌, ◌||◌, Option, none, some, List, [], ◌∷◌, Text, ◌==◌,
  if◌then◌else◌,
}
use fin_agent_platform.Prelude.Sql.{update_where, any_where}
use fin_agent_platform.Schema.{
  TokenUsage, RunStatus, queued, running, waiting_approval, succeeded, failed, cancelled,
  RunErrorCode, RunStart, first, resumed, refused, job_queued, is_in, cancellable_status,
  resumable_status, RunRow, MemoryJobRow, Db,
}

-- What a statement can raise: a bad UUID, or a broken unique constraint.
pub data Failure : Type 0 where
  value_error integrity_error : Failure

pub data Outcome (A : Type 0) : Type 0 where
  returned : A → Outcome A
  raised : Failure → Outcome A

-- `MemoryJobPayload`
pub record MemoryJobPayload : Type 0 where
  pub thread_id : Text
  pub user_id : Text
  pub messages : List Text

-- `.values(tokens_… = col(…) + tokens.…)`
abbrev pub charge : TokenUsage → RunRow → RunRow
charge t r = record r {
  tokens_cache_read = r.tokens_cache_read + t.input_cache_read;
  tokens_uncached = r.tokens_uncached + t.input_uncached;
  tokens_output = r.tokens_output + t.output;
}

-- The `WHERE` of a conditional update: this row, in one of these states.
abbrev pub at_status : ℕ → List RunStatus → RunRow → Bool
at_status identifier allowed r = r.id == identifier && is_in r.status allowed

-- `session.exec(update(…).where(…).values(…))` and `bool(result.rowcount)`
unfoldable pub transit_at : ℕ → List RunStatus → (RunRow → RunRow) → Db → Bool × Db
unfolding any_where update_where
transit_at identifier allowed change db = (
  any_where (at_status identifier allowed) db.runs,
  record db { runs = update_where (at_status identifier allowed) change db.runs },
)

-- `session.add(record)` under a primary key
abbrev pub has_run : ℕ → List RunRow → Bool
has_run identifier [] = false
has_run identifier (r ∷ t) = r.id == identifier || has_run identifier t

-- `UniqueConstraint("run_id")`
abbrev pub has_job : ℕ → List MemoryJobRow → Bool
has_job run [] = false
has_job run (j ∷ t) = j.run_id == run || has_job run t

-- The row that `create` builds.
abbrev pub new_run : ℕ → ℕ → ℕ → Option Text → Option Text → Option Text → ℕ → RunRow
new_run run thread user content agent_config user_context now = record {
  id = run;
  thread_id = thread;
  content = content;
  agent_config = agent_config;
  user_context = user_context;
  user_id = some user;
  status = queued;
  checkpoint_id = none;
  error_code = none;
  error_message = none;
  tokens_cache_read = 0;
  tokens_uncached = 0;
  tokens_output = 0;
  started_at = now;
  ended_at = none;
}

abbrev pub insert_run : RunRow → Db → Outcome Unit × Db
insert_run row db =
    if has_run row.id db.runs
    then (raised integrity_error, db)
    else (returned tt, record db { runs = row ∷ db.runs })

abbrev pub create_parsed :
    Option ℕ
    → Option ℕ
    → Option ℕ
    → Option Text
    → Option Text
    → Option Text
    → ℕ
    → Db
    → Outcome Unit × Db
create_parsed (some run) (some thread) (some user) content config context now db =
    insert_run (new_run run thread user content config context now) db
create_parsed _ _ _ content config context now db = (raised value_error, db)

-- `values(status=SUCCEEDED, tokens_… += …, ended_at=now)`
abbrev pub set_succeeded : TokenUsage → ℕ → RunRow → RunRow
set_succeeded tokens now r = record (charge tokens r) { status = succeeded; ended_at = some now }

abbrev pub set_failed : RunErrorCode → Text → ℕ → RunRow → RunRow
set_failed code message now r = record r {
  status = failed;
  error_code = some code;
  error_message = some message;
  ended_at = some now;
}

-- The token columns change only where `tokens` is given.
abbrev pub set_cancelled : Option TokenUsage → ℕ → RunRow → RunRow
set_cancelled none now r = record r { status = cancelled; ended_at = some now }
set_cancelled (some tokens) now r = record (charge tokens r) {
  status = cancelled;
  ended_at = some now;
}

abbrev pub set_waiting : TokenUsage → RunRow → RunRow
set_waiting tokens r = record (charge tokens r) { status = waiting_approval }

abbrev pub set_running : RunRow → RunRow
set_running r = record r { status = running }

abbrev pub set_queued : RunRow → RunRow
set_queued r = record r { status = queued; ended_at = none }

-- `session.add(MemoryJobRecord(…))` of `succeed`, inside its transaction: a bad UUID or a second
-- job of the run raises before the commit, so the caller sees the database it began with.
abbrev pub new_job : ℕ → ℕ → ℕ → ℕ → List Text → ℕ → MemoryJobRow
new_job job run thread user messages now = record {
  id = job;
  run_id = run;
  thread_id = thread;
  user_id = user;
  status = job_queued;
  snapshot = messages;
  attempts = 0;
  accepted_count = 0;
  rejected_count = 0;
  rejection_reasons = [];
  last_error = none;
  created_at = now;
  started_at = none;
  ended_at = none;
}

abbrev pub add_job : Option ℕ → Option ℕ → ℕ → ℕ → List Text → ℕ → Db → Db → Outcome Bool × Db
add_job (some thread) (some user) job run messages now before after =
    if has_job run after.memory_jobs then (raised integrity_error, before) else (
      returned true,
      record after { memory_jobs = new_job job run thread user messages now ∷ after.memory_jobs },
    )
add_job _ _ job run messages now before after = (raised value_error, before)

-- The two early returns of `start`, and the answer after them.
abbrev pub start_result : Bool × Db → Bool × Db → RunStart × Db
start_result (true, db₁) _ = (first, db₁)
start_result (false, db₁) (true, db₂) = (resumed, db₂)
start_result (false, db₁) (false, db₂) = (refused, db₂)

module _ (parse : Text → Option ℕ) where
  unfoldable pub create :
      Text → Text → Text → Option Text → Option Text → Option Text → ℕ → Db → Outcome Unit × Db
  create run_id thread_id user_id content config context now db =
      create_parsed (parse run_id) (parse thread_id) (parse user_id) content config context now db

  -- `_transit_from`: a bad identifier is logged and changes nothing.
  unfoldable pub transit_from : Text → List RunStatus → (RunRow → RunRow) → Db → Bool × Db
  unfolding transit_at
  transit_from run_id allowed change db = elim (parse run_id) [
    | none ↦ (false, db)
    | some identifier ↦ transit_at identifier allowed change db
  ]

  -- `_transit`
  unfoldable pub transit : Text → (RunRow → RunRow) → Db → Bool × Db
  unfolding transit_from
  transit run_id change db = transit_from run_id cancellable_status change db

  -- `start`: two statements; the second is sent only where the first changed nothing.
  unfoldable pub start : Text → Db → RunStart × Db
  start run_id db =
      let queued_one = transit_from run_id (queued ∷ []) set_running db in
      start_result queued_one (transit_from run_id resumable_status set_running queued_one.1)

  -- `fail`, through `_finalize`
  unfoldable pub fail : Text → RunErrorCode → Text → ℕ → Db → Bool × Db
  unfolding transit
  fail run_id code message now db = transit run_id (set_failed code message now) db

  -- `cancel`, through `_finalize`
  unfoldable pub cancel : Text → Option TokenUsage → ℕ → Db → Bool × Db
  unfolding transit
  cancel run_id tokens now db = transit run_id (set_cancelled tokens now) db

  unfoldable pub wait_approval : Text → TokenUsage → Db → Bool × Db
  unfolding transit
  wait_approval run_id tokens db = transit run_id (set_waiting tokens) db

  unfoldable pub resume : Text → Db → Bool × Db
  unfolding transit_at
  resume run_id db = elim (parse run_id) [
    | none ↦ (false, db)
    | some identifier ↦ transit_at identifier (waiting_approval ∷ []) set_queued db
  ]

  -- What `succeed` does after its update: the outbox row goes in with the final state.
  unfoldable pub store_job :
      ℕ → ℕ → Option MemoryJobPayload → ℕ → Db → Bool × Db → Outcome Bool × Db
  store_job identifier job none now before (changed, after) = (returned changed, after)
  store_job identifier job (some payload) now before (false, after) = (returned false, after)
  store_job identifier job (some payload) now before (true, after) =
      add_job (parse payload.thread_id) (parse payload.user_id) job identifier payload.messages now
        before after

  -- `succeed`; `job` is the `uuid4()` of the outbox row.
  unfoldable pub succeed :
      Text → TokenUsage → Option MemoryJobPayload → ℕ → ℕ → Db → Outcome Bool × Db
  unfolding transit_at store_job
  succeed run_id tokens memory_job job now db = elim (parse run_id) [
    | none ↦ (returned false, db)
    | some identifier ↦
        store_job identifier job memory_job now db
          (transit_at identifier cancellable_status (set_succeeded tokens now) db)
  ]
