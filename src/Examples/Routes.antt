-- ===== src/Examples/Routes.antt =====
-- The theorems on the endpoints: the waiting run 8 is approved, and the queued run 7 is cancelled
-- while a worker drives it.
use fin_agent_platform.Prelude.{◌≡◌, refl, some, none, [], ◌∷◌}
use fin_agent_platform.Event.{Event, interrupt_data}
use fin_agent_platform.Run.Decision.{Decision, approve}
use fin_agent_platform.Run.Repository.{set_cancelled}
use fin_agent_platform.Run.Repository.Table.{find}
use fin_agent_platform.Run.Executor.{stop}
use fin_agent_platform.Run.Route.{Platform, cancel_found}
use fin_agent_platform.Run.Route.Unbooked.{stop-unbooked}
use fin_agent_platform.Task.Queue.{empty_queue}
use fin_agent_platform.Examples.{decode, encode, usage, sample_db, queued_run}
use fin_agent_platform.Examples.Legs.{show, leg, task}

abbrev approval : Decision
approval = record { index = 0; type = approve; message = none; edited_action = none }

abbrev interrupt : Event
interrupt = record {
  ts = 1;
  run_id = 8 ∷ [];
  path = [];
  data_ =
      interrupt_data (record { index = 0; tool_name = []; args = []; allowed_decisions = [] } ∷ []);
}

abbrev platform : Platform
platform = record { db = sample_db; log = interrupt ∷ []; queue = empty_queue; flags = [] }

stop-unbooked_example :
    let q = (cancel_found decode encode (7 ∷ []) (9 ∷ []) [] [] 3000 3000 platform).1 in
    find 7 (stop decode show leg task usage (record { db = q.db; tick = 5; effects = [] })).db.runs
    ≡ some (set_cancelled none 3000 queued_run)
unfolding find
stop-unbooked_example =
    stop-unbooked decode 7 show leg task encode (9 ∷ []) [] 3000 3000 platform queued_run usage 5
      refl refl refl
