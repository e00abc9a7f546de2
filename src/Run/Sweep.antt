-- ===== src/Run/Sweep.antt =====
-- The two sweeps that end abandoned runs: src/app/run/reaper.py and src/app/run/approval.py.
-- A sweep works on the database and the event log; `clock` is the time that each ending stamps, and
-- `ts` the time of each event.
pub mod Loop
pub mod Exact
pub mod Settled
pub mod Race
use fin_agent_platform.Prelude.{
  ℕ, zero, suc, ◌+◌, ◌-◌, ◌*◌, Bool, true, false, not, ◌&&◌, ◌||◌, Option, none, some, List, [],
  ◌∷◌, ◌++◌, map, Text, text_eq, ◌==◌, ltb, if◌then◌else◌, filter,
}
use fin_agent_platform.Schema.{
  TokenUsage, no_tokens, RunErrorCode, orphaned_run, waiting_approval, same_status, RunRow, Db,
}
use fin_agent_platform.Event.{Event, EventData, run_failed, run_cancelled}
use fin_agent_platform.Run.Repository.{fail, cancel}
use fin_agent_platform.Run.Repository.Calls.{Call, after_all}
use fin_agent_platform.Run.Query.{unfinished}

-- What a sweep changes.
pub record World : Type 0 where
  pub db : Db
  pub log : List Event

abbrev pub ended_by : Bool → Event → Db → World → ℕ × World
ended_by true event db w = (1, record { db = db; log = w.log ++ event ∷ [] })
ended_by false event db w = (0, record w { db = db })

-- The loop of both sweeps: end each run by a conditional update, and push the event only where
-- this update was the one that ended it. `meanwhile` is what other processes make of the database
-- after the query, or after the update before, and before this one.
unfoldable pub sweep_all :
    (Text → Db → Bool × Db) → (Text → Event) → (Text → Db → Db) → List Text → World → ℕ × World
sweep_all end_run event meanwhile [] w = (0, w)
sweep_all end_run event meanwhile (run_id ∷ ids) w =
    let (changed, db) = end_run run_id (meanwhile run_id w.db) in
    let (one, w₁) = ended_by changed (event run_id) db w in
    let (more, w₂) = sweep_all end_run event meanwhile ids w₁ in (one + more, w₂)

abbrev pub is_among : Text → List Text → Bool
is_among t [] = false
is_among t (s ∷ ts) = text_eq s t || is_among t ts

-- Microseconds, as `datetime` counts.
abbrev pub minute : ℕ
minute = 60000000

abbrev pub hour : ℕ
hour = 60 * minute

-- `DEFAULT_GRACE_MINUTE`, `DEFAULT_TIMEOUT_HOUR`
abbrev pub default_grace_minute : ℕ
default_grace_minute = 10

abbrev pub default_timeout_hour : ℕ
default_timeout_hour = 24

-- `ORPHAN_MESSAGE` is a parameter of the event, since nothing depends on its wording.
abbrev pub orphan_event : Text → (Text → ℕ) → Text → Event
orphan_event message ts run_id = record {
  ts = ts run_id;
  run_id = run_id;
  path = [];
  data_ = run_failed orphaned_run message true;
}

abbrev pub timeout_event : (Text → ℕ) → Text → Event
timeout_event ts run_id = record {
  ts = ts run_id;
  run_id = run_id;
  path = [];
  data_ = run_cancelled no_tokens;
}

abbrev pub run_ids : (ℕ → Text) → List RunRow → List Text
run_ids hex rows = map (λ (r : RunRow). hex r.id) rows

-- `orphaned`: the table is read first and the queue after it, so `in_flight` is what the queue
-- answers then. With nothing unfinished the queue is not asked, and the result is the same.
unfoldable pub orphaned : (ℕ → Text) → ℕ → ℕ → Db → List Text → List Text
unfolding unfinished filter
orphaned hex now grace_minute db in_flight =
    filter (λ id. not (is_among id in_flight))
      (run_ids hex (unfinished (some (now - grace_minute * minute)) db))

module _ (parse : Text → Option ℕ) (hex : ℕ → Text) (clock ts : Text → ℕ) where
  -- `sweep` of reaper.py; `others` are the statements that other processes send before the update
  -- of a run.
  unfoldable pub reap : Text → ℕ → ℕ → List Text → (Text → List Call) → World → ℕ × World
  reap message now grace_minute in_flight others w =
      sweep_all (λ run_id db. fail parse run_id orphaned_run message (clock run_id) db)
        (orphan_event message ts) (λ run_id db. after_all parse (others run_id) db)
        (orphaned hex now grace_minute w.db in_flight) w

  -- `expired` of approval.py
  unfoldable pub expired : ℕ → ℕ → Db → List Text
  unfolding filter
  expired now timeout_hour db = run_ids hex (
      filter
        (λ r. same_status r.status waiting_approval && ltb r.started_at (now - timeout_hour * hour))
        db.runs)

  -- `sweep` of approval.py
  unfoldable pub sweep_approvals : ℕ → ℕ → (Text → List Call) → World → ℕ × World
  sweep_approvals now timeout_hour others w =
      sweep_all (λ run_id db. cancel parse run_id none (clock run_id) db) (timeout_event ts)
        (λ run_id db. after_all parse (others run_id) db) (expired now timeout_hour w.db) w
