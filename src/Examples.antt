-- ===== src/Examples.antt =====
-- Sample rows, calls and events, with one application of each theorem of the results to them.
-- No code corresponds to this module. `decode` and `encode` stand for `UUID(…)` and `UUID.hex`.
pub mod Runs
pub mod Sweeps
pub mod Decisions
pub mod Events
pub mod Jobs
pub mod Books
pub mod Logs
pub mod Pools
pub mod Legs
pub mod Tasks
pub mod Routes
pub mod Servers
use fin_agent_platform.Prelude.{ℕ, ◌≡◌, refl, Option, none, some, List, [], ◌∷◌, Text, contains}
use fin_agent_platform.Run.Repository.Table.{ids, IsTable}
use fin_agent_platform.Schema.{
  TokenUsage, waiting_approval, running, succeeded, RunRow, MemoryJobRow, Db,
}
use fin_agent_platform.Run.Repository.{new_run, new_job}

abbrev pub decode : Text → Option ℕ
decode (n ∷ []) = some n
decode _ = none

abbrev pub encode : ℕ → Text
encode n = n ∷ []

pub decode-encode : (n : ℕ) → decode (encode n) ≡ some n
decode-encode n = refl

abbrev pub usage : TokenUsage
usage = record { input_cache_read = 900; input_uncached = 120; output = 35 }

-- Run 7 of user 9 in thread 1.
abbrev pub queued_run : RunRow
queued_run = new_run 7 1 9 none none none 1000

abbrev pub waiting_run : RunRow
waiting_run = record queued_run { id = 8; status = waiting_approval }

abbrev pub ended_run : RunRow
ended_run = record queued_run {
  id = 6;
  status = succeeded;
  tokens_output = 35;
  ended_at = some 1200;
}

abbrev pub sample_db : Db
sample_db = record { runs = queued_run ∷ waiting_run ∷ ended_run ∷ []; memory_jobs = [] }

abbrev pub older_job : MemoryJobRow
older_job = new_job 21 6 1 9 [] 500

abbrev pub newer_job : MemoryJobRow
newer_job = new_job 20 5 1 9 [] 800

abbrev pub sample_jobs : List MemoryJobRow
sample_jobs = newer_job ∷ older_job ∷ []

pub sample_db-IsTable : IsTable sample_db.runs
unfolding ids contains
sample_db-IsTable = (refl, (refl, (refl, tt)))
