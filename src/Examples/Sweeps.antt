-- ===== src/Examples/Sweeps.antt =====
-- The theorems on the sweeps, at the sample database.
use fin_agent_platform.Prelude.{ℕ, ◌*◌, ◌≡◌, refl, true, none, some, List, [], ◌∷◌, Text, arith}
use fin_agent_platform.Schema.{orphaned_run}
use fin_agent_platform.Run.Repository.{set_failed, set_queued, resume}
use fin_agent_platform.Run.Repository.Calls.{Call, cancels}
use fin_agent_platform.Run.Repository.Table.{find}
use fin_agent_platform.Run.Sweep.{World, hour, reap, sweep_approvals}
use fin_agent_platform.Run.Sweep.Exact.{alone}
use fin_agent_platform.Run.Sweep.Race.{approval_reaped}
use fin_agent_platform.Examples.{
  decode, encode, decode-encode, sample_db, sample_db-IsTable, waiting_run,
}

abbrev at : Text → ℕ
at t = 5

abbrev world : World
world = record { db = sample_db; log = [] }

abbrev late : ℕ
late = 100 * hour

-- Before the sweep ends run 7, another process has cancelled it.
abbrev others : Text → List Call
others run_id = cancels run_id none 6 ∷ []

abbrev reaped : ℕ × World
reaped = reap decode encode at at [] late 10 [] others world

abbrev cancelled_late : ℕ × World
cancelled_late = sweep_approvals decode encode at at late 24 (λ run_id. []) world

find-waiting : find 8 sample_db.runs ≡ some waiting_run
unfolding find
find-waiting = refl

approval_reaped_example :
    let (resumed, db') = resume decode (encode 8) sample_db in
    let w = reap decode encode at at [] late 10 [] alone (record { db = db'; log = [] }) in
    (resumed ≡ true)
    × (find 8 w.1.db.runs
        ≡ some (set_failed orphaned_run [] (at (encode 8)) (set_queued waiting_run)))
approval_reaped_example =
    approval_reaped decode encode decode-encode at at 8 waiting_run sample_db sample_db-IsTable
      find-waiting refl [] late 10 [] [] (omega arith) refl
