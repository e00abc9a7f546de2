-- ===== src/Memory/Usage.antt =====
-- The usage of the memory models: `record_usage` and `usage_for_run` of src/app/memory/job.py.
-- `parse` is `UUID(…)` and `hex` is `UUID.hex`. A cost is a float that nothing here computes with:
-- it is the number of its bits. `run_id` and `stage` are unique together.
pub mod Booked
use fin_agent_platform.Prelude.{
  ℕ, Bool, true, false, ◌&&◌, ◌||◌, Option, none, some, List, [], ◌∷◌, Text, ◌==◌, if◌then◌else◌,
}
use fin_agent_platform.Prelude.Sql.{update_where, any_where}
use fin_agent_platform.Schema.{TokenUsage}

-- `MemoryUsageStage`
pub data MemoryUsageStage : Type 0 where
  selector extractor consolidator : MemoryUsageStage

abbrev pub same_stage : MemoryUsageStage → MemoryUsageStage → Bool
same_stage selector selector = true
same_stage extractor extractor = true
same_stage consolidator consolidator = true
same_stage _ _ = false

-- `MemoryUsageRecord`
pub record UsageRow : Type 0 where
  pub id : ℕ
  pub run_id : ℕ
  pub thread_id : ℕ
  pub job_id : Option ℕ
  pub stage : MemoryUsageStage
  pub model : Text
  pub tokens_cache_read : ℕ
  pub tokens_uncached : ℕ
  pub tokens_output : ℕ
  pub cost_yuan : ℕ
  pub duration_ms : ℕ
  pub hit_count : ℕ
  pub rejected_count : ℕ
  pub fallback_reason : Option Text
  pub included_in_run : Bool
  pub selected_slugs : List Text
  pub created_at : ℕ

-- `MemoryUsage`
pub record MemoryUsage : Type 0 where
  pub run_id : Text
  pub thread_id : Text
  pub stage : MemoryUsageStage
  pub model : Text
  pub tokens : TokenUsage
  pub cost_yuan : ℕ
  pub duration_ms : ℕ
  pub hit_count : ℕ
  pub rejected_count : ℕ
  pub fallback_reason : Option Text
  pub included_in_run : Bool
  pub selected_slugs : List Text
  pub job_id : Option Text

-- `values`, with the identifiers parsed.
abbrev pub usage_row : ℕ → ℕ → ℕ → ℕ → Option ℕ → MemoryUsage → UsageRow
usage_row id now run thread job u = record {
  id = id;
  run_id = run;
  thread_id = thread;
  job_id = job;
  stage = u.stage;
  model = u.model;
  tokens_cache_read = u.tokens.input_cache_read;
  tokens_uncached = u.tokens.input_uncached;
  tokens_output = u.tokens.output;
  cost_yuan = u.cost_yuan;
  duration_ms = u.duration_ms;
  hit_count = u.hit_count;
  rejected_count = u.rejected_count;
  fallback_reason = u.fallback_reason;
  included_in_run = u.included_in_run;
  selected_slugs = u.selected_slugs;
  created_at = now;
}

-- The row that the constraint `uq_memory_usage_run_stage` clashes on.
abbrev pub is_usage_of : ℕ → MemoryUsageStage → UsageRow → Bool
is_usage_of run stage r = r.run_id == run && same_stage r.stage stage

-- `on_conflict_do_update`: all columns but `id`, `run_id`, `stage` and `created_at`.
abbrev pub overwrite : UsageRow → UsageRow → UsageRow
overwrite new r = record new {
  id = r.id;
  run_id = r.run_id;
  stage = r.stage;
  created_at = r.created_at;
}

unfoldable pub upsert : UsageRow → List UsageRow → List UsageRow
unfolding update_where any_where
upsert new t =
    if any_where (is_usage_of new.run_id new.stage) t
    then update_where (is_usage_of new.run_id new.stage) (overwrite new) t
    else new ∷ t

-- `UUID(usage.job_id) if usage.job_id is not None else None`, with its `ValueError` outside.
abbrev pub parse_job : (Text → Option ℕ) → Option Text → Option (Option ℕ)
parse_job parse none = some none
parse_job parse (some t) = elim (parse t) [ none ↦ none | some j ↦ some (some j) ]

abbrev pub record_parsed :
    ℕ
    → ℕ
    → MemoryUsage
    → Option ℕ
    → Option ℕ
    → Option (Option ℕ)
    → List UsageRow
    → Option (List UsageRow)
record_parsed id now u (some run) (some thread) (some job) t =
    some (upsert (usage_row id now run thread job u) t)
record_parsed id now u _ _ _ t = none

-- `record_usage`; `none` is a `ValueError`, `id` the `uuid4()` of the row.
unfoldable pub record_usage :
    (Text → Option ℕ) → ℕ → ℕ → MemoryUsage → List UsageRow → Option (List UsageRow)
unfolding upsert
record_usage parse id now u t =
    record_parsed id now u (parse u.run_id) (parse u.thread_id) (parse_job parse u.job_id) t

abbrev pub hex_job : (ℕ → Text) → Option ℕ → Option Text
hex_job hex none = none
hex_job hex (some j) = some (hex j)

-- `_to_usage`
abbrev pub to_usage : (ℕ → Text) → UsageRow → MemoryUsage
to_usage hex r = record {
  run_id = hex r.run_id;
  thread_id = hex r.thread_id;
  stage = r.stage;
  model = r.model;
  tokens = record {
    input_cache_read = r.tokens_cache_read;
    input_uncached = r.tokens_uncached;
    output = r.tokens_output;
  };
  cost_yuan = r.cost_yuan;
  duration_ms = r.duration_ms;
  hit_count = r.hit_count;
  rejected_count = r.rejected_count;
  fallback_reason = r.fallback_reason;
  included_in_run = r.included_in_run;
  selected_slugs = r.selected_slugs;
  job_id = hex_job hex r.job_id;
}

-- The entry of one stage in the dictionary that `usage_for_run` builds: the last row of the stage
-- wins, and a stage without a row has no entry.
unfoldable pub usage_of : (ℕ → Text) → ℕ → MemoryUsageStage → List UsageRow → Option MemoryUsage
usage_of hex run stage [] = none
usage_of hex run stage (r ∷ t) =
    let later = usage_of hex run stage t in
    elim later [
      | some u ↦ some u
      | none ↦ if is_usage_of run stage r then some (to_usage hex r) else none
    ]

unfoldable pub usage_for_run :
    (ℕ → Text) → (Text → Option ℕ) → Text → MemoryUsageStage → List UsageRow → Option MemoryUsage
unfolding usage_of
usage_for_run hex parse run_id stage t = elim (parse run_id) [
  | none ↦ none
  | some run ↦ usage_of hex run stage t
]
