-- ===== src/Schema/Status.antt =====
-- The enumerations of the schema, with `==` and `in` on them.
-- Code: src/app/event/model.py, src/app/run/repository.py, src/app/memory/job.py.
use mathlib.Core.Bool.{Bool, true, false, ◌||◌}
use mathlib.Core.List.{List, [], ◌∷◌}

-- `RunStatus`
pub data RunStatus : Type 0 where
  queued running waiting_approval succeeded failed cancelled : RunStatus

-- `RunErrorCode`
pub data RunErrorCode : Type 0 where
  sandbox_queue_timeout internal recursion_limit orphaned_run : RunErrorCode

-- `RunStart`
pub data RunStart : Type 0 where
  first resumed refused : RunStart

-- `MemoryJobStatus`
pub data MemoryJobStatus : Type 0 where
  job_queued job_running job_succeeded job_failed job_discarded : MemoryJobStatus

abbrev pub same_status : RunStatus → RunStatus → Bool
same_status queued queued = true
same_status running running = true
same_status waiting_approval waiting_approval = true
same_status succeeded succeeded = true
same_status failed failed = true
same_status cancelled cancelled = true
same_status _ _ = false

abbrev pub is_in : RunStatus → List RunStatus → Bool
is_in s [] = false
is_in s (t ∷ ts) = same_status s t || is_in s ts

abbrev pub same_job_status : MemoryJobStatus → MemoryJobStatus → Bool
same_job_status job_queued job_queued = true
same_job_status job_running job_running = true
same_job_status job_succeeded job_succeeded = true
same_job_status job_failed job_failed = true
same_job_status job_discarded job_discarded = true
same_job_status _ _ = false

-- The tuples of states of src/app/run/repository.py and src/app/quota/usage.py.
abbrev pub unfinished_status : List RunStatus
unfinished_status = queued ∷ running ∷ []

abbrev pub cancellable_status : List RunStatus
cancellable_status = queued ∷ running ∷ waiting_approval ∷ []

abbrev pub resumable_status : List RunStatus
resumable_status = running ∷ waiting_approval ∷ []

abbrev pub live_status : List RunStatus
live_status = queued ∷ running ∷ waiting_approval ∷ []

abbrev pub active_status : List RunStatus
active_status = queued ∷ running ∷ []
