-- ===== src/Examples/Legs.antt =====
-- The theorems on the executor, at a leg of run 7: two tool calls of a subgraph, the second of which
-- waits for the teacher; another process tries to cancel the run when the leg suspends it.
use fin_agent_platform.Prelude.{
  ℕ, ◌+◌, ◌≡◌, refl, true, false, none, some, List, [], ◌∷◌, Text, text, ◌==◌, arith, text_eq,
  filter, if◌then◌else◌,
}
use fin_agent_platform.Schema.{no_tokens, add_tokens}
use fin_agent_platform.Event.{
  Event, EventData, tool_call, tool_result, token_data, InterruptAction, LoggedEvent, type_of,
  is_terminal,
}
use fin_agent_platform.Run.Repository.{Failure}
use fin_agent_platform.Run.Repository.Calls.{Call, cancels}
use fin_agent_platform.Run.Executor.{
  RunTask, Stream, chunk, ends, Leg, granted, Stage, execute, consume_from, append_all,
}
use fin_agent_platform.Run.Executor.Usage.{Chunk}
use fin_agent_platform.Run.Executor.Pending.{
  pending_action_path, match_paths, last_match, pending_calls, tool_calls, completed_calls,
  has_text, all_same,
}
use fin_agent_platform.Run.Executor.Pending.Assigned.{IsAssigned, pending_action_path-IsAssigned}
use fin_agent_platform.Run.Executor.Trace.{ends_run, told, told_by_others, db_after}
use fin_agent_platform.Run.Executor.Balance.{IsBalanced}
use fin_agent_platform.Run.Executor.Announced.{execute-IsBalanced}
use fin_agent_platform.Run.Executor.Returned.{holding, execute-holding}
use fin_agent_platform.Run.Executor.Heard.{consume_from_lem, closing, heard, spent, close}
use fin_agent_platform.Examples.{decode, sample_db, sample_db-IsTable}

abbrev pub show : Failure → Text
show e = []

abbrev subgraph : List Text
subgraph = text "sub" ∷ []

abbrev event : EventData → Event
event d = record { ts = 1; run_id = 7 ∷ []; path = subgraph; data_ = d }

abbrev log : List LoggedEvent
log =
    record { id = (1, 0); event = event (tool_call (text "a") (text "ls") (text "{}")) }
    ∷ record { id = (2, 0); event = event (tool_result (text "a") (text "ls") (text "ok") true) }
    ∷ record { id = (3, 0); event = event (tool_call (text "b") (text "rm") (text "{}")) }
    ∷ []

abbrev action : InterruptAction
action = record { index = 0; tool_name = text "rm"; args = text "{}"; allowed_decisions = [] }

abbrev first_chunk : Chunk
first_chunk = record {
  is_updates = true;
  payload =
      some (
        some (record { input_tokens = some 120; cache_read = some 100; output_tokens = some 5 })
        ∷ [])
      ∷ [];
  reported = no_tokens;
  flagged = false;
  events = event (token_data (text "hi")) ∷ [];
}

abbrev stream : Stream
stream = chunk first_chunk (ends no_tokens (record { actions = action ∷ []; messages = [] }))

abbrev others : ℕ → List Call
others n = if n == 1 then cancels (7 ∷ []) none 5000 ∷ [] else []

abbrev pub leg : Leg
leg = record {
  flagged = false;
  guard = some true;
  positions = 1 ∷ [];
  lease = granted;
  align_error = none;
  stream = stream;
  history = log;
  others = others;
  now_ms = λ n. 4000 + n;
  utc_now = λ n. 4000 + n;
  job = 50;
}

abbrev pub task : RunTask
task = record {
  run_id = 7 ∷ [];
  thread_id = 1 ∷ [];
  content = text "?";
  user_id = some (9 ∷ []);
  skills = 3 ∷ [];
  decisions = none;
}

abbrev before : Stage
before = record { db = sample_db; tick = 0; effects = [] }

before-IsBalanced : IsBalanced decode 7 sample_db before
unfolding told told_by_others db_after
before-IsBalanced = record { database = refl; table = sample_db-IsTable; balance = omega arith }

execute-IsBalanced_example : IsBalanced decode 7 sample_db (execute decode show leg task before)
unfolding ends_run type_of is_terminal
execute-IsBalanced_example =
    execute-IsBalanced decode show leg task 7 sample_db refl ((refl, tt), tt) before
      before-IsBalanced

execute-holding_example : holding (execute decode show leg task before).effects ≡ some false
unfolding holding
execute-holding_example = execute-holding decode show leg task before refl

consume_from_lem_example :
    consume_from decode show leg task no_tokens stream before
    ≡ closing decode show leg task
        (add_tokens no_tokens (spent stream))
        (close stream)
        (append_all decode show leg task (heard stream) before)
consume_from_lem_example = consume_from_lem decode show leg task no_tokens stream before

pending_action_path-subgraph : pending_action_path log (action ∷ []) ≡ subgraph
unfolding pending_action_path match_paths last_match pending_calls tool_calls completed_calls
    has_text all_same text_eq filter
pending_action_path-subgraph = refl

pending_action_path-IsAssigned_example :
    IsAssigned log (pending_action_path log (action ∷ [])) [] (action ∷ [])
pending_action_path-IsAssigned_example =
    pending_action_path-IsAssigned log (action ∷ [])
      (λ e. ground (arith, pending_action_path-subgraph))
