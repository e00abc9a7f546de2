-- ===== src/Task/Spared.antt =====
-- The queue and the sweep of orphans together.
-- Code: src/app/task/queue.py and `sweep` of src/app/run/reaper.py.
use fin_agent_platform.Prelude.{
  ℕ, ◌≡◌, ◌≤◌, ◌∙◌, true, Option, some, inl, inr, List, Text, length, Option-cases, arith,
}
use fin_agent_platform.Run.Repository.Table.{find, IsTable, id-find}
use fin_agent_platform.Run.Sweep.{World, reap}
use fin_agent_platform.Run.Sweep.Exact.{alone, reap_exact}
use fin_agent_platform.Task.Queue.{Queue, Limits, in_flight}
use fin_agent_platform.Task.Queue.Kept.{IsKept}
use fin_agent_platform.Task.Queue.Flight.{any_message, is_outstanding, in_flight_exact}

module _ (parse : Text → Option ℕ) (hex : ℕ → Text) (parse-hex : (i : ℕ) → parse (hex i) ≡ some i)
    (clock ts : Text → ℕ) where
  -- The sweep of orphans, asking the queue as it is, leaves a run alone as long as some message of
  -- the stream for it is not acknowledged, whether it waits, is being worked on, or was in the hands
  -- of a worker that crashed; while the queue fits the limit of its queries.
  pub reap-outstanding :
      (l : Limits) (acked : List ℕ) (q : Queue) (message : Text) (now grace : ℕ) (w : World) (j : ℕ)
      → q.has_group ≡ true
      → IsKept acked q
      → length q.unacked ≤ l.max_length
      → length q.stream ≤ l.max_length
      → IsTable w.db.runs
      → any_message (is_outstanding acked (hex j)) q.stream ≡ true
      → find j (reap parse hex clock ts message now grace (in_flight l q) alone w).1.db.runs
        ≡ find j w.db.runs
  reap-outstanding l acked q message now grace w j there kept few short table waits =
      let swept =
        (reap_exact parse hex parse-hex clock ts message now grace (in_flight l q) w table).0 j in
      let inside = in_flight_exact l acked q (hex j) there kept few short ∙ waits in
      swept ∙ (elim (Option-cases (find j w.db.runs)) [
        | inl e ↦ rw e
        | inr (r, e) ↦
            let same : r.id ≡ j = id-find j w.db.runs r e in rw e (rw same (ground (arith, inside)))
      ])
