-- ===== src/Run/Executor.antt =====
-- `RunExecutor` of src/app/run/executor.py: one task from the queue, as the list of what the
-- executor does to the world while everybody else goes on.
-- The answers of the others are the fields of `Leg`: the cancel flag, the guard of the thread, the
-- pool, the skills, the chunks of the agent with what the mapper makes of them, and the statements
-- that other processes send to the database before each statement of the executor. `str(exc)` is
-- the text of a failure. A Redis or database connection that fails is left out, and so is the
-- ledger of the memory selector.
pub mod Usage
pub mod Pending
pub mod Trace
pub mod Balance
pub mod Announced
pub mod Returned
pub mod Heard
use fin_agent_platform.Prelude.{
  ℕ, suc, ◌+◌, Bool, true, false, not, ◌&&◌, ◌||◌, Option, none, some, List, [], ◌∷◌, Text, text,
  if◌then◌else◌,
}
use fin_agent_platform.Schema.{
  TokenUsage, no_tokens, add_tokens, RunErrorCode, sandbox_queue_timeout, internal, recursion_limit,
  orphaned_run, queued, resumable_status, RunStart, first, resumed, refused, Db,
}
use fin_agent_platform.Event.{
  Event, EventData, run_started, run_finished, run_failed, run_cancelled, sandbox_queued,
  sandbox_ready, interrupt_data, InterruptAction, LoggedEvent,
}
use fin_agent_platform.Run.Decision.{Decision, Payload, to_resume}
use fin_agent_platform.Run.Repository.{
  MemoryJobPayload, Outcome, returned, raised, Failure, transit_from, set_running, cancel, fail,
  succeed, wait_approval, start_result,
}
use fin_agent_platform.Run.Repository.Calls.{
  Call, starts_first, starts_again, succeeds, fails, cancels, waits, after_all,
}
use fin_agent_platform.Run.Executor.Usage.{Chunk, token_usage}
use fin_agent_platform.Run.Executor.Pending.{pending_action_path}

-- `RunTask`
pub record RunTask : Type 0 where
  pub run_id : Text
  pub thread_id : Text
  pub content : Text
  pub user_id : Option Text
  pub skills : List ℕ
  pub decisions : Option (List Decision)

-- `AgentSnapshot`
pub record Snapshot : Type 0 where
  pub actions : List InterruptAction
  pub messages : List Text

-- The stream of the agent: its chunks, and then its end with the answer of `inspect`, or an
-- exception of either.
pub data Stream : Type 0 where
  chunk : Chunk → Stream → Stream
  ends : TokenUsage → Snapshot → Stream
  recursion_error other_error : Text → Stream

-- What the pool answers.
pub data Lease : Type 0 where
  granted : Lease
  timed_out not_started : Text → Lease

pub record Leg : Type 0 where
  pub flagged : Bool
  pub guard : Option Bool
  pub positions : List ℕ
  pub lease : Lease
  pub align_error : Option Text
  pub stream : Stream
  pub history : List LoggedEvent
  pub others : ℕ → List Call
  pub now_ms : ℕ → ℕ
  pub utc_now : ℕ → ℕ
  pub job : ℕ

-- What happens, one after the other; `meanwhile` are the statements of the other processes.
pub data Effect : Type 0 where
  sends : Call → Effect
  meanwhile : List Call → Effect
  pushes : Event → Effect
  acquires releases : Effect
  aligns : List ℕ → Effect
  streams : Text → Effect
  resumes : List Payload → Effect

-- The database, the number of points at which others had their turn, and what happened, the latest
-- first.
pub record Stage : Type 0 where
  pub db : Db
  pub tick : ℕ
  pub effects : List Effect

-- The exceptions that `_drive` sorts.
pub data Raised : Type 0 where
  nothing run_cancelled_error : Raised
  graph_recursion_error other_exception : Text → Raised

abbrev pub error_value : RunErrorCode → Text
error_value sandbox_queue_timeout = text "SANDBOX_QUEUE_TIMEOUT"
error_value internal = text "INTERNAL"
error_value recursion_limit = text "RECURSION_LIMIT"
error_value orphaned_run = text "ORPHANED"

-- `message or code.value`
abbrev pub or_value : Text → RunErrorCode → Text
or_value [] code = error_value code
or_value (c ∷ s) code = c ∷ s

abbrev pub perform : Effect → Stage → Stage
perform e w = record w { effects = e ∷ w.effects }

-- `_thread_guard is not None and user_id is not None and not await …active(…)`
abbrev pub is_gone : Option Bool → Option Text → Bool
is_gone (some active) (some user) = not active
is_gone _ _ = false

abbrev pub is_some : Option (List Decision) → Bool
is_some none = false
is_some (some _) = true

-- `MemoryJobPayload(…)` where there is a user and a message.
abbrev pub memory_job_of : Text → Option Text → List Text → Option MemoryJobPayload
memory_job_of thread (some user) (m ∷ ms) =
    some (record { thread_id = thread; user_id = user; messages = m ∷ ms })
memory_job_of thread _ _ = none

-- A statement has been sent, and this is the database after it.
abbrev pub sent : Call → Db → Stage → Stage
sent call db w = record w { db = db; effects = sends call ∷ w.effects }

module _ (parse : Text → Option ℕ) (show : Failure → Text) (leg : Leg) (task : RunTask) where
  -- The other processes have their turn before a statement of the executor.
  unfoldable pub interfere : Stage → Stage
  interfere w = record {
    db = after_all parse (leg.others w.tick) w.db;
    tick = suc w.tick;
    effects = meanwhile (leg.others w.tick) ∷ w.effects;
  }

  -- `_emit`
  unfoldable pub emit : List Text → EventData → Stage → Stage
  emit path data_ w =
      perform
        (pushes
          (record { ts = leg.now_ms w.tick; run_id = task.run_id; path = path; data_ = data_ }))
        w

  -- `if await …: await self._emit(…)`
  abbrev pub emit_if : Bool → EventData → Stage → Stage
  emit_if true data_ w = emit [] data_ w
  emit_if false data_ w = w

  -- `_stop`
  unfoldable pub stop : TokenUsage → Stage → Stage
  unfolding cancel
  stop tokens w =
      let v = interfere w in
      let now = leg.utc_now v.tick in
      let (changed, db) = cancel parse task.run_id (some tokens) now v.db in
      emit_if changed (run_cancelled tokens) (sent (cancels task.run_id (some tokens) now) db v)

  -- `_fail`
  unfoldable pub fail_run : RunErrorCode → Text → Bool → Stage → Stage
  unfolding fail
  fail_run code message retryable w =
      let v = interfere w in
      let now = leg.utc_now v.tick in
      let told = or_value message code in
      let (changed, db) = fail parse task.run_id code told now v.db in
      emit_if changed (run_failed code told retryable) (sent (fails task.run_id code told now) db v)

  -- `repository.start`: two statements, the second only where the first changed nothing.
  unfoldable pub start_again : Stage → RunStart × Stage
  unfolding transit_from
  start_again w =
      let v = interfere w in
      let (changed, db) = transit_from parse task.run_id resumable_status set_running v.db in
      (if changed then resumed else refused, sent (starts_again task.run_id) db v)

  unfoldable pub start_run : Stage → RunStart × Stage
  unfolding transit_from
  start_run w =
      let v = interfere w in
      let (changed, db) = transit_from parse task.run_id (queued ∷ []) set_running v.db in
      let after_first = sent (starts_first task.run_id) db v in
      if changed then (first, after_first) else start_again after_first

  -- `announce`, for each position that the pool reports.
  unfoldable pub announce : List ℕ → Stage → Stage
  announce [] w = w
  announce (n ∷ ns) w = announce ns (emit [] (sandbox_queued n) w)

  -- `_acquire`
  abbrev pub acquire_ended : Lease → Stage → Bool × Stage
  acquire_ended granted w = (true, emit [] sandbox_ready (perform acquires w))
  acquire_ended (timed_out message) w = (false, fail_run sandbox_queue_timeout message true w)
  acquire_ended (not_started message) w = (false, fail_run internal message false w)

  unfoldable pub acquire_sandbox : Stage → Bool × Stage
  acquire_sandbox w = acquire_ended leg.lease (announce leg.positions w)

  -- `_suspend`, where there are actions.
  unfoldable pub suspend : TokenUsage → List InterruptAction → Stage → Stage
  unfolding wait_approval
  suspend tokens actions w =
      let v = interfere w in
      let (changed, db) = wait_approval parse task.run_id tokens v.db in
      let waiting = sent (waits task.run_id tokens) db v in
      if changed
      then emit (pending_action_path leg.history actions) (interrupt_data actions) waiting
      else waiting

  -- The end of `_consume`: the final state with its outbox row, and only then the event.
  abbrev pub finished : TokenUsage → Outcome Bool → Stage → Raised × Stage
  finished tokens (returned changed) w = (nothing, emit_if changed (run_finished tokens) w)
  finished tokens (raised e) w = (other_exception (show e), w)

  unfoldable pub finish_run : TokenUsage → List Text → Stage → Raised × Stage
  unfolding succeed
  finish_run tokens messages w =
      let v = interfere w in
      let now = leg.utc_now v.tick in
      let payload = memory_job_of task.thread_id task.user_id messages in
      let (answer, db) = succeed parse task.run_id tokens payload leg.job now v.db in
      finished tokens answer (sent (succeeds task.run_id tokens payload leg.job now) db v)

  abbrev pub settle : TokenUsage → Snapshot → Stage → Raised × Stage
  settle tokens s w = elim s.actions [
    | [] ↦ finish_run tokens s.messages w
    | a ∷ more ↦ (nothing, suspend tokens (a ∷ more) w)
  ]

  -- `for event in mapper.map_chunk(…)`
  unfoldable pub append_all : List Event → Stage → Stage
  append_all [] w = w
  append_all (e ∷ es) w = append_all es (perform (pushes e) w)

  -- The loop of `_consume`, with the tokens so far; the flag is looked at on `updates` only.
  unfoldable pub consume_from : TokenUsage → Stream → Stage → Raised × Stage
  unfolding token_usage
  consume_from tokens (ends reported s) w = settle (add_tokens tokens reported) s w
  consume_from tokens (recursion_error message) w = (graph_recursion_error message, w)
  consume_from tokens (other_error message) w = (other_exception message, w)
  consume_from tokens (chunk c rest) w =
      let used = add_tokens (add_tokens tokens c.reported) (token_usage c.is_updates c.payload) in
      let heard = consume_from used rest (append_all c.events w) in
      if c.is_updates && c.flagged then (run_cancelled_error, stop used w) else heard

  -- `_start`: the agent begins, or goes on with the decisions.
  abbrev pub begin : Option (List Decision) → Stage → Stage
  begin none w = perform (streams task.content) w
  begin (some decisions) w = perform (resumes (to_resume decisions)) w

  unfoldable pub consume : Stage → Raised × Stage
  unfolding consume_from
  consume w = consume_from no_tokens leg.stream (begin task.decisions w)

  -- `_align_skills`, then `_consume`.
  abbrev pub aligned : Option Text → Stage → Raised × Stage
  aligned none w = consume w
  aligned (some message) w = (other_exception message, w)

  abbrev pub align_skills : List ℕ → Stage → Raised × Stage
  align_skills [] w = consume w
  align_skills (s ∷ ss) w = aligned leg.align_error (perform (aligns (s ∷ ss)) w)

  -- The `except` branches.
  abbrev pub handle : Raised × Stage → Stage
  handle (nothing, w) = w
  handle (run_cancelled_error, w) = w
  handle (graph_recursion_error message, w) = fail_run recursion_limit message false w
  handle (other_exception message, w) = fail_run internal message false w

  -- The rest of `_drive` once `start` has answered.
  abbrev pub drive_acquired : Bool × Stage → Stage
  drive_acquired (false, w) = w
  drive_acquired (true, w) = perform releases (handle (align_skills task.skills w))

  unfoldable pub drive_started : RunStart × Stage → Stage
  unfolding acquire_sandbox
  drive_started (refused, w) = w
  drive_started (first, w) =
      drive_acquired
        (acquire_sandbox (emit [] (run_started task.thread_id (is_some task.decisions)) w))
  drive_started (resumed, w) =
      drive_acquired (acquire_sandbox (emit [] (run_started task.thread_id true) w))

  -- `_drive`
  unfoldable pub execute : Stage → Stage
  unfolding start_run drive_started stop
  execute w =
      if leg.flagged
      then stop no_tokens w
      else if is_gone leg.guard task.user_id
      then stop no_tokens w
      else drive_started (start_run w)
