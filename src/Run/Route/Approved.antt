-- ===== src/Run/Route/Approved.antt =====
-- What an approval does on each of its branches.
-- Code: `approve_run` of src/app/api/route/run.py.
use fin_agent_platform.Prelude.{ℕ, ◌≡◌, ◌⊎◌, Bool, true, false, Option, none, some, List, Text}
use fin_agent_platform.Schema.{waiting_approval, queued, same_status, RunRow}
use fin_agent_platform.Run.Decision.{Decision, check}
use fin_agent_platform.Run.Query.{Run}
use fin_agent_platform.Run.Repository.{set_queued}
use fin_agent_platform.Run.Repository.Table.{find, IsTable}
use fin_agent_platform.Run.Repository.Calls.{Call, after_all}
use fin_agent_platform.Task.Queue.{publish}
use fin_agent_platform.Run.Route.{Platform, Reply, accepted, pending_action_count, resumed_task}

abbrev pub is_accepted : Reply → Bool
is_accepted (accepted run) = true
is_accepted _ = false

-- How an approval of run `i` ends, when the others have had their turn: refused, and then neither the
-- queue nor the row is changed by it; or accepted, and then the decisions fit the interrupt, the row
-- went from waiting to queued, and one task with the decisions was published.
pub data IsAnswered (parse : Text → Option ℕ) (i : ℕ) (run_id user_id : Text) (skills : List ℕ)
    (decisions : List Decision) (meanwhile : List Call) (message : ℕ) (p : Platform)
    : Reply → Platform → Type 0 where
  refused :
      (reply : Reply) (q : Platform)
      → is_accepted reply ≡ false
      → q.queue ≡ p.queue
      → (q ≡ p) ⊎ (find i q.db.runs ≡ find i (after_all parse meanwhile p.db).runs)
      → IsAnswered parse i run_id user_id skills decisions meanwhile message p reply q
  approved :
      (run : Run) (q : Platform) (r : RunRow)
      → check decisions (pending_action_count p.log) ≡ none
      → find i (after_all parse meanwhile p.db).runs ≡ some r
      → same_status r.status waiting_approval ≡ true
      → find i q.db.runs ≡ some (set_queued r)
      → q.queue
        ≡ publish message (resumed_task run_id run.thread_id user_id skills decisions) p.queue
      → IsAnswered parse i run_id user_id skills decisions meanwhile message p
          (accepted (record run { status = queued }))
          q

module _ (parse : Text → Option ℕ) (i : ℕ) (run_id : Text) (own : parse run_id ≡ some i) where
  module _ (hex : ℕ → Text) (user_id : Text) (skills : List ℕ) (decisions : List Decision)
      (meanwhile : List Call) (message : ℕ) (p : Platform) (table : IsTable p.db.runs) where
    abbrev Answered : Reply × Platform → Type 0
    Answered (reply, q) =
        IsAnswered parse i run_id user_id skills decisions meanwhile message p reply q
