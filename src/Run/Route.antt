-- ===== src/Run/Route.antt =====
-- The endpoints of src/app/api/route/run.py that change a run, and `RunSubmitter` of
-- src/app/run/submitter.py. `meanwhile` and `later` are the statements that other processes send
-- before a statement of the endpoint; identifiers and times are arguments. The log is the one of the
-- run that the endpoint is about. Of a run's configuration only what the queue carries is kept.
pub mod Approved
pub mod Unbooked
use fin_agent_platform.Prelude.{
  ℕ, suc, ◌+◌, Bool, true, false, not, Option, none, some, List, [], ◌∷◌, ◌++◌, Text, if◌then◌else◌,
  length,
}
use fin_agent_platform.Schema.{waiting_approval, queued, same_status, no_tokens, Db}
use fin_agent_platform.Event.{Event, EventData, interrupt_data, run_cancelled, InterruptAction}
use fin_agent_platform.Run.Decision.{Decision, DecisionError, check}
use fin_agent_platform.Run.Query.{Run, get}
use fin_agent_platform.Run.Repository.{Outcome, returned, raised, Failure, create, cancel, resume}
use fin_agent_platform.Run.Repository.Calls.{Call, after_all}
use fin_agent_platform.Run.Executor.{RunTask}
use fin_agent_platform.Task.Queue.{Queue, publish}

-- What the endpoints share: the database, the log of the run, the queue and the cancel flags.
pub record Platform : Type 0 where
  pub db : Db
  pub log : List Event
  pub queue : Queue
  pub flags : List Text

-- The errors of the endpoints, and their answer.
pub data Refusal : Type 0 where
  not_waiting no_longer_waiting : Refusal
  bad_decisions : DecisionError → Refusal

pub data Reply : Type 0 where
  not_found : Reply
  invalid : Refusal → Reply
  accepted : Run → Reply

-- The length of the actions of the last `interrupt`.
abbrev pub or_count : Option ℕ → EventData → Option ℕ
or_count (some n) d = some n
or_count none (interrupt_data actions) = some (length actions)
or_count none _ = none

unfoldable pub last_interrupt : List Event → Option ℕ
last_interrupt [] = none
last_interrupt (e ∷ es) = or_count (last_interrupt es) e.data_

abbrev pub or_zero : Option ℕ → ℕ
or_zero none = 0
or_zero (some n) = n

-- `_pending_action_count`
unfoldable pub pending_action_count : List Event → ℕ
unfolding last_interrupt
pending_action_count log = or_zero (last_interrupt log)

-- The statements of others.
abbrev pub interleave : (Text → Option ℕ) → List Call → Platform → Platform
interleave parse calls p = record p { db = after_all parse calls p.db }

-- The task of `submit`, after the row.
abbrev pub submitted : ℕ → RunTask → Outcome Unit × Db → Platform → Outcome Unit × Platform
submitted message task (returned u, db) p =
    (returned u, record p { db = db; queue = publish message task p.queue })
submitted message task (raised e, db) p = (raised e, record p { db = db })

-- `resubmit`
abbrev pub resumed_task : Text → Text → Text → List ℕ → List Decision → RunTask
resumed_task run_id thread_id user_id skills decisions = record {
  run_id = run_id;
  thread_id = thread_id;
  content = [];
  user_id = some user_id;
  skills = skills;
  decisions = some decisions;
}

-- The run as the caller reads it at the end.
abbrev pub reply_of : Option Run → Reply
reply_of none = not_found
reply_of (some run) = accepted run

-- The event only where the answer is `True`.
abbrev pub cancelled_log : Bool → Event → List Event → List Event
cancelled_log true e log = log ++ e ∷ []
cancelled_log false e log = log

abbrev pub cancel_event : Text → ℕ → Event
cancel_event run_id ts = record {
  ts = ts;
  run_id = run_id;
  path = [];
  data_ = run_cancelled no_tokens;
}

module _ (parse : Text → Option ℕ) (hex : ℕ → Text) where
  -- `submit`: the row first, then the task.
  unfoldable pub submit :
      Text → Text → Text → Text → Text → List ℕ → ℕ → ℕ → Platform → Outcome Unit × Platform
  unfolding create publish
  submit run_id thread_id content user_id config skills now message p =
      let task : RunTask = record {
        run_id = run_id;
        thread_id = thread_id;
        content = content;
        user_id = some user_id;
        skills = skills;
        decisions = none;
      } in
      submitted message task
        (create parse run_id thread_id user_id (some content) (some config) none now p.db) p

  -- `cancel_run` of a run of the caller: the flag first, then the state, then the event.
  unfoldable pub cancel_found :
      Text → Text → List Call → List Call → ℕ → ℕ → Platform → Reply × Platform
  unfolding cancel get
  cancel_found run_id user_id meanwhile later now ts p =
      let v = interleave parse meanwhile (record p { flags = run_id ∷ p.flags }) in
      let (changed, db) = cancel parse run_id none now v.db in
      let done : Platform = record v {
        db = db;
        log = cancelled_log changed (cancel_event run_id ts) v.log;
      } in
      let seen = interleave parse later done in
      (reply_of (get hex parse run_id user_id seen.db), seen)

  unfoldable pub cancel_run :
      Text → Text → List Call → List Call → ℕ → ℕ → Platform → Reply × Platform
  unfolding get cancel_found
  cancel_run run_id user_id meanwhile later now ts p = elim (get hex parse run_id user_id p.db) [
    | none ↦ (not_found, p)
    | some run ↦ cancel_found run_id user_id meanwhile later now ts p
  ]

  -- The end of `approve_run`: the state, and then the task.
  unfoldable pub approve_checked :
      Run → Text → Text → List ℕ → List Decision → List Call → ℕ → Platform → Reply × Platform
  unfolding resume publish
  approve_checked run run_id user_id skills decisions meanwhile message p =
      let v = interleave parse meanwhile p in
      let (changed, db) = resume parse run_id v.db in
      if not changed then (invalid no_longer_waiting, record v { db = db }) else (
        accepted (record run { status = queued }),
        record v {
          db = db;
          queue =
              publish message (resumed_task run_id run.thread_id user_id skills decisions) v.queue;
        },
      )

  -- `approve_run` of a run of the caller.
  unfoldable pub approve_found :
      Run → Text → Text → List ℕ → List Decision → List Call → ℕ → Platform → Reply × Platform
  unfolding check pending_action_count approve_checked
  approve_found run run_id user_id skills decisions meanwhile message p =
      if not (same_status run.status waiting_approval)
      then (invalid not_waiting, p)
      else elim (check decisions (pending_action_count p.log)) [
        | some e ↦ (invalid (bad_decisions e), p)
        | none ↦ approve_checked run run_id user_id skills decisions meanwhile message p
      ]

  unfoldable pub approve_run :
      Text → Text → List ℕ → List Decision → List Call → ℕ → Platform → Reply × Platform
  unfolding get approve_found
  approve_run run_id user_id skills decisions meanwhile message p =
      elim (get hex parse run_id user_id p.db) [
        | none ↦ (not_found, p)
        | some run ↦ approve_found run run_id user_id skills decisions meanwhile message p
      ]
