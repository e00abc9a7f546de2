-- ===== src/Schema.antt =====
-- The rows that the repositories read and write, and the database as the tables together.
-- Code: src/app/run/repository.py and src/app/memory/job.py (the table classes),
-- src/app/event/model.py (`RunStatus`, `RunErrorCode`, `TokenUsage`).
-- A UUID is its number, a time is a number on one scale, a JSONB column is its serialised text.
mod Status
pub use Status.*
use fin_agent_platform.Prelude.{ℕ, ◌+◌, Bool, Option, List, Text}

-- `TokenUsage`: three kinds of token, charged differently and never added up.
pub record TokenUsage : Type 0 where
  pub input_cache_read : ℕ
  pub input_uncached : ℕ
  pub output : ℕ

abbrev pub no_tokens : TokenUsage
no_tokens = record { input_cache_read = 0; input_uncached = 0; output = 0 }

-- `TokenUsage.__add__`
abbrev pub add_tokens : TokenUsage → TokenUsage → TokenUsage
add_tokens a b = record {
  input_cache_read = a.input_cache_read + b.input_cache_read;
  input_uncached = a.input_uncached + b.input_uncached;
  output = a.output + b.output;
}

-- `RunRecord`, a row of `runs`.
pub record RunRow : Type 0 where
  pub id : ℕ
  pub thread_id : ℕ
  pub content : Option Text
  pub agent_config : Option Text
  pub user_context : Option Text
  pub user_id : Option ℕ
  pub status : RunStatus
  pub checkpoint_id : Option Text
  pub error_code : Option RunErrorCode
  pub error_message : Option Text
  pub tokens_cache_read : ℕ
  pub tokens_uncached : ℕ
  pub tokens_output : ℕ
  pub started_at : ℕ
  pub ended_at : Option ℕ

-- `MemoryJobRecord`, a row of `memory_jobs`: the outbox of finished runs.
pub record MemoryJobRow : Type 0 where
  pub id : ℕ
  pub run_id : ℕ
  pub thread_id : ℕ
  pub user_id : ℕ
  pub status : MemoryJobStatus
  pub snapshot : List Text
  pub attempts : ℕ
  pub accepted_count : ℕ
  pub rejected_count : ℕ
  pub rejection_reasons : List Text
  pub last_error : Option Text
  pub created_at : ℕ
  pub started_at : Option ℕ
  pub ended_at : Option ℕ

-- The tables that a run and its memory job live in.
pub record Db : Type 0 where
  pub runs : List RunRow
  pub memory_jobs : List MemoryJobRow

abbrev pub run_tokens : RunRow → TokenUsage
run_tokens r = record {
  input_cache_read = r.tokens_cache_read;
  input_uncached = r.tokens_uncached;
  output = r.tokens_output;
}
