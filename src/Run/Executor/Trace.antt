-- ===== src/Run/Executor/Trace.antt =====
-- What the effects of a leg amount to, read one after the other.
-- Code: src/app/run/executor.py, and those who push a final event elsewhere.
use fin_agent_platform.Prelude.{ℕ, ◌+◌, Bool, Option, List, [], ◌∷◌, Text, if◌then◌else◌}
use fin_agent_platform.Schema.{Db}
use fin_agent_platform.Event.{EventData, type_of, is_terminal}
use fin_agent_platform.Run.Repository.Calls.{after, after_all, finals}
use fin_agent_platform.Run.Executor.{Effect, sends, meanwhile, pushes}

-- Whether an event ends its run.
unfoldable pub ends_run : EventData → Bool
unfolding type_of is_terminal
ends_run d = is_terminal (type_of d)

-- How many final events the leg pushes.
unfoldable pub told : List Effect → ℕ
unfolding ends_run
told [] = 0
told (pushes e ∷ es) = (if ends_run e.data_ then 1 else 0) + told es
told (_ ∷ es) = told es

module _ (parse : Text → Option ℕ) where
  -- The database after the effects, the latest of which is the first.
  unfoldable pub db_after : List Effect → Db → Db
  unfolding after after_all
  db_after [] db = db
  db_after (sends c ∷ es) db = after parse c (db_after es db)
  db_after (meanwhile cs ∷ es) db = after_all parse cs (db_after es db)
  db_after (_ ∷ es) db = db_after es db

  -- How many calls of the other processes answer that they ended run `i`, each of which then pushes
  -- its own final event.
  unfoldable pub told_by_others : ℕ → List Effect → Db → ℕ
  unfolding db_after finals
  told_by_others i [] db = 0
  told_by_others i (meanwhile cs ∷ es) db =
      finals parse i cs (db_after es db) + told_by_others i es db
  told_by_others i (_ ∷ es) db = told_by_others i es db
