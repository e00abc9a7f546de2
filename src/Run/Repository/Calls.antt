-- ===== src/Run/Repository/Calls.antt =====
-- The statements that write `runs`, sent by any process and in any order: a sequence of them is an
-- interleaving of the api, the workers and the sweeps, since each is one transaction. `start` sends
-- two, and each of them is a call of its own here.
use fin_agent_platform.Prelude.{
  ℕ, ◌+◌, Bool, false, ◌&&◌, Option, none, some, List, [], ◌∷◌, Text, ◌==◌, if◌then◌else◌,
}
use fin_agent_platform.Schema.{TokenUsage, queued, RunErrorCode, resumable_status, Db}
use fin_agent_platform.Run.Repository.{
  Outcome, returned, raised, MemoryJobPayload, set_running, transit_from, create, fail, cancel,
  wait_approval, resume, succeed,
}

pub data Call : Type 0 where
  creates : Text → Text → Text → Option Text → Option Text → Option Text → ℕ → Call
  starts_first starts_again : Text → Call
  succeeds : Text → TokenUsage → Option MemoryJobPayload → ℕ → ℕ → Call
  fails : Text → RunErrorCode → Text → ℕ → Call
  cancels : Text → Option TokenUsage → ℕ → Call
  waits : Text → TokenUsage → Call
  resumes : Text → Call

abbrev pub answer_true : Outcome Bool → Bool
answer_true (returned b) = b
answer_true (raised e) = false

abbrev pub targets : ℕ → Option ℕ → Bool
targets i none = false
targets i (some j) = j == i

module _ (parse : Text → Option ℕ) where
  -- The database after a call.
  unfoldable pub after : Call → Db → Db
  unfolding create transit_from succeed fail cancel wait_approval resume
  after (creates run thread user content config context now) db =
      (create parse run thread user content config context now db).1
  after (starts_first run) db = (transit_from parse run (queued ∷ []) set_running db).1
  after (starts_again run) db = (transit_from parse run resumable_status set_running db).1
  after (succeeds run tokens payload job now) db = (succeed parse run tokens payload job now db).1
  after (fails run code message now) db = (fail parse run code message now db).1
  after (cancels run tokens now) db = (cancel parse run tokens now db).1
  after (waits run tokens) db = (wait_approval parse run tokens db).1
  after (resumes run) db = (resume parse run db).1

  -- Whether this call answers that it wrote the final state of run `i`: who gets `True` pushes the
  -- final event.
  unfoldable pub finalizes : ℕ → Call → Db → Bool
  unfolding succeed fail cancel
  finalizes i (succeeds run tokens payload job now) db =
      targets i (parse run) && answer_true (succeed parse run tokens payload job now db).0
  finalizes i (fails run code message now) db =
      targets i (parse run) && (fail parse run code message now db).0
  finalizes i (cancels run tokens now) db =
      targets i (parse run) && (cancel parse run tokens now db).0
  finalizes i _ db = false

  unfoldable pub after_all : List Call → Db → Db
  after_all [] db = db
  after_all (c ∷ cs) db = after_all cs (after c db)

  -- How many calls of the sequence answer that they ended run `i`.
  unfoldable pub finals : ℕ → List Call → Db → ℕ
  finals i [] db = 0
  finals i (c ∷ cs) db = (if finalizes i c db then 1 else 0) + finals i cs (after c db)
