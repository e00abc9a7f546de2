-- ===== src/Run/Executor/Returned.antt =====
-- The sandbox of a leg: taken before the agent runs, given back whatever happens.
-- Code: `_drive` and `_acquire` of src/app/run/executor.py.
use fin_agent_platform.Prelude.{
  ℕ, ◌≡◌, ap, inl, inr, Bool, true, false, ◌&&◌, Option, none, some, List, [], ◌∷◌, Text,
  if◌then◌else◌, Bool-cases,
}
use fin_agent_platform.Schema.{
  TokenUsage, no_tokens, add_tokens, RunErrorCode, internal, sandbox_queue_timeout, recursion_limit,
  queued, RunStart, first, resumed, refused, Db,
}
use fin_agent_platform.Event.{
  Event, EventData, run_started, run_finished, run_failed, run_cancelled, InterruptAction,
}
use fin_agent_platform.Run.Repository.{
  Failure, Outcome, returned, raised, transit_from, set_running, cancel, fail, succeed,
  wait_approval,
}
use fin_agent_platform.Run.Repository.Calls.{Call, succeeds, fails, cancels, after}
use fin_agent_platform.Run.Executor.{
  RunTask, Stream, chunk, ends, recursion_error, other_error, Lease, granted, timed_out,
  not_started, Leg, Effect, acquires, releases, aligns, streams, resumes, Stage, Raised, nothing,
  run_cancelled_error, graph_recursion_error, other_exception, interfere, emit, sent, emit_if, stop,
  fail_run, start_again, start_run, announce, acquire_ended, acquire_sandbox, suspend, finished,
  finish_run, settle, append_all, consume_from, begin, consume, aligned, align_skills, handle,
  drive_acquired, drive_started, execute, or_value, is_some, is_gone, memory_job_of,
}
use fin_agent_platform.Run.Decision.{Decision}
use fin_agent_platform.Run.Executor.Usage.{token_usage}

-- Whether the leg holds the sandbox after the effects, the latest first; `none` where it takes it
-- twice, gives back what it does not hold, or lets the agent or the skills in without it.
abbrev taken : Option Bool → Option Bool
taken (some false) = some true
taken _ = none

abbrev given_back : Option Bool → Option Bool
given_back (some true) = some false
given_back _ = none

abbrev used : Option Bool → Option Bool
used (some true) = some true
used _ = none

unfoldable pub holding : List Effect → Option Bool
holding [] = some false
holding (acquires ∷ es) = taken (holding es)
holding (releases ∷ es) = given_back (holding es)
holding (aligns skills ∷ es) = used (holding es)
holding (streams content ∷ es) = used (holding es)
holding (resumes payload ∷ es) = used (holding es)
holding (_ ∷ es) = holding es

module _ (parse : Text → Option ℕ) (show : Failure → Text) (leg : Leg) (task : RunTask) where
  abbrev Holding : Bool → Stage → Type 0
  Holding b w = holding w.effects ≡ some b

  -- A statement after the turn of the others, with its event.
  emit_if-Holding :
      (b changed : Bool) (d : EventData) (c : Call) (db : Db) (w : Stage)
      → Holding b w
      → Holding b
          (emit_if parse show leg task changed d (sent c db (interfere parse show leg task w)))
  unfolding holding emit interfere
  emit_if-Holding b true d c db w h = h
  emit_if-Holding b false d c db w h = h

  stop-Holding :
      (b : Bool) (tokens : TokenUsage) (w : Stage)
      → Holding b w
      → Holding b (stop parse show leg task tokens w)
  unfolding stop
  stop-Holding b tokens w h =
      let v = interfere parse show leg task w in
      let now = leg.utc_now v.tick in
      let m = cancel parse task.run_id (some tokens) now v.db in
      emit_if-Holding b m.0 (run_cancelled tokens) (cancels task.run_id (some tokens) now) m.1 w h

  fail_run-Holding :
      (b : Bool) (code : RunErrorCode) (message : Text) (retryable : Bool) (w : Stage)
      → Holding b w
      → Holding b (fail_run parse show leg task code message retryable w)
  unfolding fail_run
  fail_run-Holding b code message retryable w h =
      let v = interfere parse show leg task w in
      let now = leg.utc_now v.tick in
      let shown = or_value message code in
      let m = fail parse task.run_id code shown now v.db in
      emit_if-Holding b m.0 (run_failed code shown retryable) (fails task.run_id code shown now) m.1
        w h

  start_run-Holding :
      (b : Bool) (w : Stage) → Holding b w → Holding b (start_run parse show leg task w).1
  unfolding start_run start_again holding interfere transit_from
  start_run-Holding b w h =
      let v = interfere parse show leg task w in
      elim (Bool-cases (transit_from parse task.run_id (queued ∷ []) set_running v.db).0) [
        | inl e ↦ rw e h
        | inr e ↦ rw e h
      ]

  announce-Holding :
      (b : Bool) (ns : List ℕ) (w : Stage)
      → Holding b w
      → Holding b (announce parse show leg task ns w)
  unfolding announce holding emit
  announce-Holding b [] w h = h
  announce-Holding b (n ∷ ns) w h = announce-Holding b ns _ h

  acquire_ended-Holding :
      (l : Lease) (w : Stage)
      → Holding false w
      → let (got, after) = acquire_ended parse show leg task l w in Holding got after
  unfolding holding emit
  acquire_ended-Holding granted w h = ap taken h
  acquire_ended-Holding (timed_out m) w h = fail_run-Holding false sandbox_queue_timeout m true w h
  acquire_ended-Holding (not_started m) w h = fail_run-Holding false internal m false w h

  suspend-Holding :
      (b : Bool) (tokens : TokenUsage) (actions : List InterruptAction) (w : Stage)
      → Holding b w
      → Holding b (suspend parse show leg task tokens actions w)
  unfolding suspend holding interfere emit
  suspend-Holding b tokens actions w h =
      let v = interfere parse show leg task w in
      elim (Bool-cases (wait_approval parse task.run_id tokens v.db).0) [
        | inl e ↦ rw e h
        | inr e ↦ rw e h
      ]

  finished-Holding :
      (b : Bool) (tokens : TokenUsage) (o : Outcome Bool) (c : Call) (db : Db) (w : Stage)
      → Holding b w
      → Holding b
          (finished parse show leg task tokens o (sent c db (interfere parse show leg task w))).1
  unfolding holding interfere
  finished-Holding b tokens (returned changed) c db w h =
      emit_if-Holding b changed (run_finished tokens) c db w h
  finished-Holding b tokens (raised f) c db w h = h

  settle-Holding :
      (b : Bool) (tokens : TokenUsage) (actions : List InterruptAction) (messages : List Text)
      (w : Stage)
      → Holding b w
      → Holding b
          (settle parse show leg task tokens
            (record { actions = actions; messages = messages })
            w).1
  unfolding finish_run
  settle-Holding b tokens [] messages w h =
      let v = interfere parse show leg task w in
      let now = leg.utc_now v.tick in
      let payload = memory_job_of task.thread_id task.user_id messages in
      let m = succeed parse task.run_id tokens payload leg.job now v.db in
      finished-Holding b tokens m.0 (succeeds task.run_id tokens payload leg.job now) m.1 w h
  settle-Holding b tokens (a ∷ more) messages w h = suspend-Holding b tokens (a ∷ more) w h

  append_all-Holding :
      (b : Bool) (es : List Event) (w : Stage)
      → Holding b w
      → Holding b (append_all parse show leg task es w)
  unfolding append_all holding
  append_all-Holding b [] w h = h
  append_all-Holding b (e ∷ es) w h = append_all-Holding b es _ h

  consume_from-Holding :
      (b : Bool) (tokens : TokenUsage) (s : Stream) (w : Stage)
      → Holding b w
      → Holding b (consume_from parse show leg task tokens s w).1
  unfolding consume_from
  consume_from-Holding b tokens (ends reported s) w h =
      settle-Holding b (add_tokens tokens reported) s.actions s.messages w h
  consume_from-Holding b tokens (recursion_error m) w h = h
  consume_from-Holding b tokens (other_error m) w h = h
  consume_from-Holding b tokens (chunk c rest) w h =
      let used = add_tokens (add_tokens tokens c.reported) (token_usage c.is_updates c.payload) in
      elim (Bool-cases (c.is_updates && c.flagged)) [
        | inl e ↦ rw (e, consume_from) (stop-Holding b used w h)
        | inr e ↦
            rw (e, consume_from)
              (consume_from-Holding b used rest _ (append_all-Holding b c.events w h))
      ]

  begin-Holding :
      (ds : Option (List Decision)) (w : Stage)
      → Holding true w
      → Holding true (begin parse show leg task ds w)
  unfolding holding
  begin-Holding none w h = ap used h
  begin-Holding (some ds) w h = ap used h

  aligned-Holding :
      (e : Option Text) (w : Stage)
      → Holding true w
      → Holding true (aligned parse show leg task e w).1
  unfolding consume
  aligned-Holding none w h =
      consume_from-Holding true no_tokens leg.stream _ (begin-Holding task.decisions w h)
  aligned-Holding (some m) w h = h

  align_skills-Holding :
      (skills : List ℕ) (w : Stage)
      → Holding true w
      → Holding true (align_skills parse show leg task skills w).1
  unfolding holding
  align_skills-Holding [] w h = aligned-Holding none w h
  align_skills-Holding (s ∷ ss) w h = aligned-Holding leg.align_error _ (ap used h)

  handle-Holding :
      (r : Raised × Stage) → Holding true r.1 → Holding true (handle parse show leg task r)
  handle-Holding (nothing, w) h = h
  handle-Holding (run_cancelled_error, w) h = h
  handle-Holding (graph_recursion_error m, w) h = fail_run-Holding true recursion_limit m false w h
  handle-Holding (other_exception m, w) h = fail_run-Holding true internal m false w h

  drive_acquired-Holding :
      (r : Bool × Stage) → Holding r.0 r.1 → Holding false (drive_acquired parse show leg task r)
  unfolding holding
  drive_acquired-Holding (false, w) h = h
  drive_acquired-Holding (true, w) h = ap given_back (
      handle-Holding (align_skills parse show leg task task.skills w)
        (align_skills-Holding task.skills w h))

  begun-Holding :
      (w : Stage)
      → Holding false w
      → Holding false (drive_acquired parse show leg task (acquire_sandbox parse show leg task w))
  unfolding acquire_sandbox
  begun-Holding w h =
      let v = announce parse show leg task leg.positions w in
      drive_acquired-Holding (acquire_ended parse show leg task leg.lease v)
        (acquire_ended-Holding leg.lease v (announce-Holding false leg.positions w h))

  drive_started-Holding :
      (r : RunStart × Stage)
      → Holding false r.1
      → Holding false (drive_started parse show leg task r)
  unfolding drive_started acquire_sandbox emit holding
  drive_started-Holding (refused, w) h = h
  drive_started-Holding (first, w) h =
      begun-Holding
        (emit parse show leg task [] (run_started task.thread_id (is_some task.decisions)) w) h
  drive_started-Holding (resumed, w) h =
      begun-Holding (emit parse show leg task [] (run_started task.thread_id true) w) h

  either-Holding :
      (b : Bool) (x y : Stage)
      → Holding false x
      → Holding false y
      → Holding false (if b then x else y)
  either-Holding true x y h k = h
  either-Holding false x y h k = k

  -- A leg that takes the sandbox gives it back once, at its end and whatever was raised in between,
  -- and prepares the skills and runs the agent only while it holds it.
  pub execute-holding :
      (w : Stage)
      → holding w.effects ≡ some false
      → holding (execute parse show leg task w).effects ≡ some false
  unfolding execute
  execute-holding w h =
      let stopped = stop-Holding false no_tokens w h in
      either-Holding leg.flagged _ _ stopped (
        either-Holding (is_gone leg.guard task.user_id) _ _ stopped
          (drive_started-Holding _ (start_run-Holding false w h)))
