-- ===== src/Examples/Books.antt =====
-- The theorems on the quota, on booked usage and on paths, at sample values.
use fin_agent_platform.Prelude.{
  ◌+◌, ◌*◌, ◌≡◌, ◌≤◌, arith, contains, filter, refl, true, false, none, some, List, [], ◌∷◌, ◌++◌,
  text,
}
use fin_agent_platform.Prelude.Sql.{any_where, count_where}
use fin_agent_platform.Run.Repository.{succeed, returned}
use fin_agent_platform.Run.Repository.Table.{find}
use fin_agent_platform.Memory.Usage.{MemoryUsage, UsageRow, selector, usage_row, record_usage}
use fin_agent_platform.Memory.Usage.Booked.{record_usage-record_usage}
use fin_agent_platform.Quota.{token_today}
use fin_agent_platform.Quota.Booking.{token_today-succeed}
use fin_agent_platform.Quota.Rate.{Rate, counting, remove_one}
use fin_agent_platform.Quota.Rate.Window.{
  Pipeline, counts, records, after_requests, after_pipeline, IsServed, after_requests-limited,
  is_inside, no_past,
}
use fin_agent_platform.Sandbox.Path.{
  to_virtual_path, to_sandbox_path, strip_slashes, to_virtual_path-to_sandbox_path,
}
use fin_agent_platform.Examples.{decode, encode, usage, queued_run, sample_db, sample_db-IsTable}

find-queued : find 7 sample_db.runs ≡ some queued_run
unfolding find
find-queued = refl

succeed-queued : (succeed decode (encode 7) usage none 30 2000 sample_db).0 ≡ returned true
unfolding succeed any_where count_where
succeed-queued = refl

token_today-succeed_example :
    token_today decode 1
      (encode 9)
      500
      (succeed decode (encode 7) usage none 30 2000 sample_db).1
      []
    ≡ token_today decode 1 (encode 9) 500 sample_db [] + (120 + 35 * 1)
token_today-succeed_example =
    token_today-succeed decode 1 9 500 (encode 7) (encode 9) 7 queued_run sample_db
      sample_db-IsTable refl refl find-queued refl refl usage none 30 2000 [] succeed-queued

abbrev selection : MemoryUsage
selection = record {
  run_id = encode 7;
  thread_id = encode 1;
  stage = selector;
  model = text "m";
  tokens = usage;
  cost_yuan = 0;
  duration_ms = 80;
  hit_count = 2;
  rejected_count = 0;
  fallback_reason = none;
  included_in_run = false;
  selected_slugs = [];
  job_id = none;
}

abbrev booked : List UsageRow
booked = usage_row 40 1500 7 1 none selection ∷ []

record_usage-selection : record_usage decode 40 1500 selection [] ≡ some booked
unfolding record_usage any_where count_where
record_usage-selection = refl

record_usage-record_usage_example : record_usage decode 41 1600 selection booked ≡ some booked
record_usage-record_usage_example =
    record_usage-record_usage decode 40 1500 41 1600 selection [] booked record_usage-selection

to_virtual_path-to_sandbox_path_example :
    to_virtual_path (to_sandbox_path (text "//a")) ≡ some (text "/" ++ strip_slashes (text "//a"))
to_virtual_path-to_sandbox_path_example = to_virtual_path-to_sandbox_path (text "//a")

abbrev two_a_minute : Rate
two_a_minute = record { limit = 2; window = 60 }

-- Two requests are counted before either is recorded, so that three are let through within a minute.
abbrev overlapping : List Pipeline
overlapping =
    counts 100 ∷ records 100 ∷ counts 130 ∷ counts 131 ∷ records 131 ∷ records 130 ∷ counts 140 ∷ []

allowed_requests : (after_requests two_a_minute overlapping no_past).allowed ≡ 131 ∷ 130 ∷ 100 ∷ []
unfolding after_requests contains counting filter remove_one
allowed_requests = refl

after_requests-limited_example :
    count_where
      (is_inside two_a_minute 100)
      (after_requests two_a_minute overlapping no_past).allowed
    ≤ 2 + 1
unfolding IsServed after_pipeline counting filter remove_one contains
after_requests-limited_example = after_requests-limited two_a_minute 1 overlapping 100 (
  omega arith,
  (
    omega arith,
    (omega arith, (omega arith, (omega arith, (omega arith, (omega arith, (omega arith, tt)))))),
  ),
)
