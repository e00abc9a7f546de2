-- ===== src/Memory/Job.antt =====
-- `MemoryJobRepository` of src/app/memory/job.py: the consumers' side of the outbox.
-- `parse` is `UUID(…)`. `locked` says which rows another transaction holds at this moment, which
-- `with_for_update(skip_locked=True)` passes over.
pub mod Queue
pub mod Exclusive
use fin_agent_platform.Prelude.{
  ℕ, zero, suc, ◌+◌, Bool, true, false, not, ◌&&◌, ◌||◌, Option, none, some, List, [], ◌∷◌, Text,
  ◌==◌, ltb, if◌then◌else◌, length,
}
use fin_agent_platform.Prelude.Sql.{update_where, any_where, count_where}
use fin_agent_platform.Schema.{
  MemoryJobStatus, job_queued, job_running, job_succeeded, job_failed, job_discarded,
  same_job_status, MemoryJobRow,
}

abbrev pub Jobs : Type 0
Jobs = List MemoryJobRow

-- `ORDER BY created_at, id`
abbrev pub goes_before : MemoryJobRow → MemoryJobRow → Bool
goes_before a b =
    ltb a.created_at b.created_at || (a.created_at == b.created_at && not (ltb b.id a.id))

abbrev pub is_free : (ℕ → Bool) → MemoryJobRow → Bool
is_free locked j = same_job_status j.status job_queued && not (locked j.id)

abbrev pub earlier : MemoryJobRow → Option MemoryJobRow → MemoryJobRow
earlier j none = j
earlier j (some best) = if goes_before j best then j else best

-- `SELECT … WHERE status = 'queued' ORDER BY … LIMIT 1 FOR UPDATE SKIP LOCKED`
unfoldable pub first_queued : (ℕ → Bool) → Jobs → Option MemoryJobRow
first_queued locked [] = none
first_queued locked (j ∷ t) =
    let best = first_queued locked t in if is_free locked j then some (earlier j best) else best

abbrev pub set_claimed : ℕ → MemoryJobRow → MemoryJobRow
set_claimed now j = record j {
  status = job_running;
  attempts = j.attempts + 1;
  started_at = some now;
  last_error = none;
}

-- `UPDATE` of one row, by its primary key
unfoldable pub write_row : MemoryJobRow → Jobs → Jobs
unfolding update_where
write_row row t = update_where (λ j. j.id == row.id) (λ _. row) t

-- `MemoryJob`: what a consumer gets.
pub record MemoryJob : Type 0 where
  pub id : Text
  pub run_id : Text
  pub thread_id : Text
  pub user_id : Text
  pub messages : List Text
  pub attempts : ℕ

-- `_to_job`; `hex` is `UUID.hex`.
abbrev pub to_job : (ℕ → Text) → MemoryJobRow → MemoryJob
to_job hex j = record {
  id = hex j.id;
  run_id = hex j.run_id;
  thread_id = hex j.thread_id;
  user_id = hex j.user_id;
  messages = j.snapshot;
  attempts = j.attempts;
}

-- `claim`, on the row that its query found.
abbrev pub claim_row : (ℕ → Text) → ℕ → Jobs → Option MemoryJobRow → Option MemoryJob × Jobs
claim_row hex now t none = (none, t)
claim_row hex now t (some j) =
    (some (to_job hex (set_claimed now j)), write_row (set_claimed now j) t)

unfoldable pub claim : (ℕ → Text) → (ℕ → Bool) → ℕ → Jobs → Option MemoryJob × Jobs
claim hex locked now t = claim_row hex now t (first_queued locked t)

-- The consumers at work, each claim a transaction: the jobs that a query has found and locked, with
-- the transaction still open, are `held`.
pub record Consumers : Type 0 where
  pub jobs : Jobs
  pub held : List MemoryJobRow

-- `claim`, up to its commit: the query runs on what is committed, and passes over what is held.
abbrev pub hold : Option MemoryJobRow → Consumers → Consumers
hold none c = c
hold (some j) c = record c { held = j ∷ c.held }

unfoldable pub is_held : ℕ → List MemoryJobRow → Bool
is_held id [] = false
is_held id (j ∷ held) = j.id == id || is_held id held

unfoldable pub begin_claim : Consumers → Consumers
unfolding first_queued is_held
begin_claim c = hold (first_queued (λ id. is_held id c.held) c.jobs) c

unfoldable pub find_held : ℕ → List MemoryJobRow → Option MemoryJobRow
find_held id [] = none
find_held id (j ∷ held) = if j.id == id then some j else find_held id held

unfoldable pub unlock : ℕ → List MemoryJobRow → List MemoryJobRow
unlock id [] = []
unlock id (j ∷ held) = let rest = unlock id held in if j.id == id then held else j ∷ rest

-- `claim`, its commit: the row is written, its lock goes, and the consumer gets the job.
unfoldable pub commit_claim : (ℕ → Text) → ℕ → ℕ → Consumers → Option MemoryJob × Consumers
unfolding find_held unlock write_row
commit_claim hex id now c = elim (find_held id c.held) [
  | none ↦ (none, c)
  | some j ↦ (
    some (to_job hex (set_claimed now j)),
    record { jobs = write_row (set_claimed now j) c.jobs; held = unlock id c.held },
  )
]

-- The transaction is lost: its lock goes.
unfoldable pub abort_claim : ℕ → Consumers → Consumers
unfolding unlock
abort_claim id c = record c { held = unlock id c.held }

abbrev pub started_before : ℕ → Option ℕ → Bool
started_before cutoff none = false
started_before cutoff (some at) = ltb at cutoff

-- `"消费者超时，等待重试"`
abbrev pub stale_message : Text
stale_message =
    0x6d88 ∷ 0x8d39 ∷ 0x8005 ∷ 0x8d85 ∷ 0x65f6 ∷ 0xff0c ∷ 0x7b49 ∷ 0x5f85 ∷ 0x91cd ∷ 0x8bd5 ∷ []

abbrev pub is_stale : ℕ → MemoryJobRow → Bool
is_stale cutoff j = same_job_status j.status job_running && started_before cutoff j.started_at

-- `requeue_stale`, with its row count
unfoldable pub requeue_stale : ℕ → Jobs → ℕ × Jobs
unfolding count_where update_where
requeue_stale cutoff t = (
  count_where (is_stale cutoff) t,
  update_where (is_stale cutoff)
      (λ j. record j { status = job_queued; started_at = none; last_error = some stale_message }) t,
)

abbrev pub is_running : ℕ → MemoryJobRow → Bool
is_running identifier j = j.id == identifier && same_job_status j.status job_running

-- An update of one row that is `running`, with `bool(result.rowcount)`.
unfoldable pub change_running : ℕ → (MemoryJobRow → MemoryJobRow) → Jobs → Bool × Jobs
unfolding any_where update_where
change_running identifier change t =
    (any_where (is_running identifier) t, update_where (is_running identifier) change t)

-- The columns that `_finish` writes.
pub record Ending : Type 0 where
  pub status : MemoryJobStatus
  pub accepted_count : ℕ
  pub rejection_reasons : List Text
  pub last_error : Option Text

abbrev pub set_ending : Ending → ℕ → MemoryJobRow → MemoryJobRow
set_ending e now j = record j {
  status = e.status;
  accepted_count = e.accepted_count;
  rejected_count = length e.rejection_reasons;
  rejection_reasons = e.rejection_reasons;
  last_error = e.last_error;
  ended_at = some now;
}

abbrev pub completed : ℕ → List Text → Ending
completed accepted reasons = record {
  status = job_succeeded;
  accepted_count = accepted;
  rejection_reasons = reasons;
  last_error = none;
}

-- `discard` writes `rejected_count=0` beside one reason, so it does not go through `set_ending`.
abbrev pub set_discarded : Text → ℕ → MemoryJobRow → MemoryJobRow
set_discarded reason now j = record j {
  status = job_discarded;
  accepted_count = 0;
  rejected_count = 0;
  rejection_reasons = reason ∷ [];
  last_error = none;
  ended_at = some now;
}

abbrev pub gave_up : Text → Ending
gave_up error = record {
  status = job_failed;
  accepted_count = 0;
  rejection_reasons = [];
  last_error = some error;
}

abbrev pub set_requeued : Text → MemoryJobRow → MemoryJobRow
set_requeued error j = record j {
  status = job_queued;
  started_at = none;
  ended_at = none;
  last_error = some error;
}

module _ (parse : Text → Option ℕ) where
  -- `_finish` and `requeue` begin alike: a bad identifier changes nothing.
  unfoldable pub finish : Text → (MemoryJobRow → MemoryJobRow) → Jobs → Bool × Jobs
  unfolding change_running
  finish job_id change t = elim (parse job_id) [
    | none ↦ (false, t)
    | some identifier ↦ change_running identifier change t
  ]

  unfoldable pub complete : Text → ℕ → List Text → ℕ → Jobs → Bool × Jobs
  unfolding finish
  complete job_id accepted reasons now t =
      finish job_id (set_ending (completed accepted reasons) now) t

  unfoldable pub discard : Text → Text → ℕ → Jobs → Bool × Jobs
  unfolding finish
  discard job_id reason now t = finish job_id (set_discarded reason now) t

  unfoldable pub give_up : Text → Text → ℕ → Jobs → Bool × Jobs
  unfolding finish
  give_up job_id error now t = finish job_id (set_ending (gave_up error) now) t

  unfoldable pub requeue : Text → Text → Jobs → Bool × Jobs
  unfolding finish
  requeue job_id error t = finish job_id (set_requeued error) t
