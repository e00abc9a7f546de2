-- ===== src/Run/Executor/Announced.antt =====
-- Over a whole leg, each end of the run is told exactly once.
-- Code: `_drive` and `_consume` of src/app/run/executor.py.
use fin_agent_platform.Prelude.{
  ℕ, ◌≡◌, refl, inl, inr, Bool, true, false, ◌&&◌, Option, none, some, List, [], ◌∷◌, Text, All,
  if◌then◌else◌, Bool-cases, Option-cases,
}
use fin_agent_platform.Schema.{
  TokenUsage, no_tokens, add_tokens, internal, sandbox_queue_timeout, recursion_limit, queued,
  RunStart, first, resumed, refused, Db,
}
use fin_agent_platform.Event.{
  Event, type_of, is_terminal, run_started, run_finished, sandbox_queued, sandbox_ready,
  interrupt_data, InterruptAction,
}
use fin_agent_platform.Run.Repository.{
  Failure, Outcome, returned, raised, transit_from, set_running, succeed, wait_approval,
}
use fin_agent_platform.Run.Repository.Calls.{
  Call, starts_first, starts_again, succeeds, waits, after, finalizes, targets, answer_true,
}
use fin_agent_platform.Run.Executor.{
  RunTask, Stream, chunk, ends, recursion_error, other_error, Lease, granted, timed_out,
  not_started, Leg, pushes, acquires, releases, aligns, streams, resumes, Stage, Raised, nothing,
  run_cancelled_error, graph_recursion_error, other_exception, interfere, sent, start_again,
  start_run, announce, acquire_ended, acquire_sandbox, suspend, finished, finish_run, settle,
  append_all, consume_from, begin, consume, aligned, align_skills, handle, drive_acquired,
  drive_started, execute, is_some, is_gone, memory_job_of,
}
use fin_agent_platform.Run.Decision.{to_resume}
use fin_agent_platform.Run.Executor.Usage.{token_usage}
use fin_agent_platform.Run.Executor.Trace.{ends_run}
use fin_agent_platform.Run.Executor.Balance.{
  IsBalanced, is_plain, perform-IsBalanced, sent-IsBalanced, interfere-IsBalanced, emit-IsBalanced,
  emit_if-IsBalanced, stop-IsBalanced, fail_run-IsBalanced,
}

-- What the mapper makes of the chunks ends no run.
abbrev pub IsQuiet : Stream → Type 0
IsQuiet (chunk c rest) = All (λ (e : Event). ends_run e.data_ ≡ false) c.events × IsQuiet rest
IsQuiet (ends reported s) = Unit
IsQuiet (recursion_error message) = Unit
IsQuiet (other_error message) = Unit

module _ (parse : Text → Option ℕ) (show : Failure → Text) (leg : Leg) (task : RunTask) (i : ℕ)
    (db₀ : Db) (own : targets i (parse task.run_id) ≡ true) where
  abbrev Good : Stage → Type 0
  Good w = IsBalanced parse i db₀ w

  start_again-Good : (w : Stage) → Good w → Good (start_again parse show leg task w).1
  unfolding start_again after finalizes
  start_again-Good w h =
      sent-IsBalanced parse i db₀ (starts_again task.run_id) _ refl
        (interfere-IsBalanced parse i db₀ leg task show w h)

  start_run-Good : (w : Stage) → Good w → Good (start_run parse show leg task w).1
  unfolding start_run after finalizes transit_from
  start_run-Good w h =
      let v = interfere parse show leg task w in
      let once =
        sent-IsBalanced parse i db₀ (starts_first task.run_id) v refl
          (interfere-IsBalanced parse i db₀ leg task show w h) in
      elim (Bool-cases (transit_from parse task.run_id (queued ∷ []) set_running v.db).0) [
        | inl e ↦ rw e once
        | inr e ↦ rw e (start_again-Good _ once)
      ]

  announce-Good : (ns : List ℕ) (w : Stage) → Good w → Good (announce parse show leg task ns w)
  unfolding announce ends_run type_of is_terminal
  announce-Good [] w h = h
  announce-Good (n ∷ ns) w h =
      announce-Good ns _ (emit-IsBalanced parse i db₀ leg task show [] (sandbox_queued n) w refl h)

  acquire_ended-Good :
      (l : Lease) (w : Stage) → Good w → Good (acquire_ended parse show leg task l w).1
  unfolding is_plain ends_run type_of is_terminal
  acquire_ended-Good granted w h =
      emit-IsBalanced parse i db₀ leg task show [] sandbox_ready _ refl
        (perform-IsBalanced parse i db₀ acquires w refl h)
  acquire_ended-Good (timed_out m) w h =
      fail_run-IsBalanced parse i db₀ leg task show own sandbox_queue_timeout m true w h
  acquire_ended-Good (not_started m) w h =
      fail_run-IsBalanced parse i db₀ leg task show own internal m false w h

  suspend-Good :
      (tokens : TokenUsage) (actions : List InterruptAction) (w : Stage)
      → Good w
      → Good (suspend parse show leg task tokens actions w)
  unfolding suspend after finalizes ends_run type_of is_terminal
  suspend-Good tokens actions w h =
      let v = interfere parse show leg task w in
      let once =
        sent-IsBalanced parse i db₀ (waits task.run_id tokens) v refl
          (interfere-IsBalanced parse i db₀ leg task show w h) in
      elim (Bool-cases (wait_approval parse task.run_id tokens v.db).0) [
        | inl e ↦
            rw e (emit-IsBalanced parse i db₀ leg task show _ (interrupt_data actions) _ refl once)
        | inr e ↦ rw e once
      ]

  finished-Good :
      (tokens : TokenUsage) (c : Call) (o : Outcome Bool) (w : Stage)
      → finalizes parse i c w.db ≡ answer_true o
      → Good w
      → Good (finished parse show leg task tokens o (sent c (after parse c w.db) w)).1
  unfolding ends_run type_of is_terminal
  finished-Good tokens c (returned changed) w e h =
      emit_if-IsBalanced parse i db₀ leg task show c changed (run_finished tokens) w e refl h
  finished-Good tokens c (raised f) w e h = sent-IsBalanced parse i db₀ c w e h

  finish_run-Good :
      (tokens : TokenUsage) (messages : List Text) (w : Stage)
      → Good w
      → Good (finish_run parse show leg task tokens messages w).1
  unfolding finish_run after finalizes
  finish_run-Good tokens messages w h =
      let v = interfere parse show leg task w in
      let payload = memory_job_of task.thread_id task.user_id messages in
      let c = succeeds task.run_id tokens payload leg.job (leg.utc_now v.tick) in
      finished-Good tokens c
        (succeed parse task.run_id tokens payload leg.job (leg.utc_now v.tick) v.db).0 v (rw own)
        (interfere-IsBalanced parse i db₀ leg task show w h)

  settle-Good :
      (tokens : TokenUsage) (actions : List InterruptAction) (messages : List Text) (w : Stage)
      → Good w
      → Good
          (settle parse show leg task tokens
            (record { actions = actions; messages = messages })
            w).1
  settle-Good tokens [] messages w h = finish_run-Good tokens messages w h
  settle-Good tokens (a ∷ more) messages w h = suspend-Good tokens (a ∷ more) w h

  append_all-Good :
      (es : List Event) (w : Stage)
      → All (λ (e : Event). ends_run e.data_ ≡ false) es
      → Good w
      → Good (append_all parse show leg task es w)
  unfolding append_all is_plain
  append_all-Good [] w q h = h
  append_all-Good (e ∷ es) w q h =
      append_all-Good es _ q.1 (perform-IsBalanced parse i db₀ (pushes e) w (rw q.0) h)

  consume_from-Good :
      (tokens : TokenUsage) (s : Stream) (w : Stage)
      → IsQuiet s
      → Good w
      → Good (consume_from parse show leg task tokens s w).1
  unfolding consume_from
  consume_from-Good tokens (ends reported s) w q h =
      settle-Good (add_tokens tokens reported) s.actions s.messages w h
  consume_from-Good tokens (recursion_error m) w q h = h
  consume_from-Good tokens (other_error m) w q h = h
  consume_from-Good tokens (chunk c rest) w q h =
      let used = add_tokens (add_tokens tokens c.reported) (token_usage c.is_updates c.payload) in
      elim (Bool-cases (c.is_updates && c.flagged)) [
        | inl e ↦ rw (e, consume_from) (stop-IsBalanced parse i db₀ leg task show own used w h)
        | inr e ↦
            rw (e, consume_from)
              (consume_from-Good used rest _ q.1 (append_all-Good c.events w q.0 h))
      ]

  begin-Good : (w : Stage) → Good w → Good (begin parse show leg task task.decisions w)
  unfolding is_plain
  begin-Good w h = elim (Option-cases task.decisions) [
    | inl e ↦ rw e (perform-IsBalanced parse i db₀ (streams task.content) w refl h)
    | inr (ds, e) ↦ rw e (perform-IsBalanced parse i db₀ (resumes (to_resume ds)) w refl h)
  ]

  module _ (quiet : IsQuiet leg.stream) where
    consume-Good : (w : Stage) → Good w → Good (consume parse show leg task w).1
    unfolding consume
    consume-Good w h = consume_from-Good no_tokens leg.stream _ quiet (begin-Good w h)

    aligned-Good : (e : Option Text) (w : Stage) → Good w → Good (aligned parse show leg task e w).1
    aligned-Good none w h = consume-Good w h
    aligned-Good (some m) w h = h

    align_skills-Good :
        (skills : List ℕ) (w : Stage) → Good w → Good (align_skills parse show leg task skills w).1
    unfolding is_plain
    align_skills-Good [] w h = consume-Good w h
    align_skills-Good (s ∷ ss) w h =
        aligned-Good leg.align_error _ (perform-IsBalanced parse i db₀ (aligns (s ∷ ss)) w refl h)

    handle-Good : (r : Raised × Stage) → Good r.1 → Good (handle parse show leg task r)
    handle-Good (nothing, w) h = h
    handle-Good (run_cancelled_error, w) h = h
    handle-Good (graph_recursion_error m, w) h =
        fail_run-IsBalanced parse i db₀ leg task show own recursion_limit m false w h
    handle-Good (other_exception m, w) h =
        fail_run-IsBalanced parse i db₀ leg task show own internal m false w h

    drive_acquired-Good :
        (r : Bool × Stage) → Good r.1 → Good (drive_acquired parse show leg task r)
    unfolding is_plain
    drive_acquired-Good (false, w) h = h
    drive_acquired-Good (true, w) h =
        perform-IsBalanced parse i db₀ releases _ refl
          (handle-Good _ (align_skills-Good task.skills w h))

    acquire_sandbox-Good : (w : Stage) → Good w → Good (acquire_sandbox parse show leg task w).1
    unfolding acquire_sandbox
    acquire_sandbox-Good w h = acquire_ended-Good leg.lease _ (announce-Good leg.positions w h)

    drive_started-Good :
        (r : RunStart × Stage) → Good r.1 → Good (drive_started parse show leg task r)
    unfolding drive_started ends_run type_of is_terminal
    drive_started-Good (refused, w) h = h
    drive_started-Good (first, w) h = drive_acquired-Good _ (
        acquire_sandbox-Good _ (
          emit-IsBalanced parse i db₀ leg task show []
            (run_started task.thread_id (is_some task.decisions)) w refl h))
    drive_started-Good (resumed, w) h = drive_acquired-Good _ (
        acquire_sandbox-Good _
          (emit-IsBalanced parse i db₀ leg task show [] (run_started task.thread_id true) w refl h))

    either-Good : (b : Bool) (x y : Stage) → Good x → Good y → Good (if b then x else y)
    either-Good true x y h k = h
    either-Good false x y h k = k

    -- However a leg goes and whatever the others send meanwhile, the final events of the leg, the
    -- answers by which the others ended the run, and whether it is still open afterwards, make up
    -- whether it was open before: an end is told once, by the one whose statement made it, and a
    -- leg whose statement ended the run tells it.
    pub execute-IsBalanced : (w : Stage) → Good w → Good (execute parse show leg task w)
    unfolding execute
    execute-IsBalanced w h =
        let stopped = stop-IsBalanced parse i db₀ leg task show own no_tokens w h in
        either-Good leg.flagged _ _ stopped (
          either-Good (is_gone leg.guard task.user_id) _ _ stopped
            (drive_started-Good _ (start_run-Good w h)))
