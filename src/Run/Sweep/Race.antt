-- ===== src/Run/Sweep/Race.antt =====
-- An approval and the sweep of orphans: `approve_run` of src/app/api/route/run.py resumes the run in
-- the table and publishes its task afterwards. Code: src/app/run/reaper.py.
use fin_agent_platform.Prelude.{
  ℕ, ◌-◌, ◌*◌, ◌<◌, ◌≡◌, refl, ◌∙◌, true, false, Option, some, List, [], ◌∷◌, Text, arith, lt→ltb,
}
use fin_agent_platform.Schema.{RunRow, Db, orphaned_run, waiting_approval}
use fin_agent_platform.Event.{Event}
use fin_agent_platform.Run.Repository.{resume, transit_at, set_queued, set_failed}
use fin_agent_platform.Run.Repository.Table.{
  find, IsTable, transit_at-find, transit_at-changed, transit_at-IsTable, id-find,
}
use fin_agent_platform.Run.Sweep.{reap, is_among, minute}
use fin_agent_platform.Run.Sweep.Exact.{reap_exact, is_orphan, alone}

module _ (parse : Text → Option ℕ) (hex : ℕ → Text) (parse-hex : (i : ℕ) → parse (hex i) ≡ some i)
    (clock ts : Text → ℕ) (i : ℕ) (r : RunRow) (db : Db) (t : IsTable db.runs)
    (found : find i db.runs ≡ some r) (waits : r.status ≡ waiting_approval) where
  resume-at : resume parse (hex i) db ≡ transit_at i (waiting_approval ∷ []) set_queued db
  unfolding resume
  resume-at = rw (parse-hex i, resume)

  resumed-find : find i (resume parse (hex i) db).1.runs ≡ some (set_queued r)
  resumed-find =
      rw (resume-at, transit_at-find i (waiting_approval ∷ []) set_queued db i (λ r. refl), found)
        (ground (arith, id-find i db.runs r))

  -- An approval is lost if the sweep of orphans runs between its two steps: a run that waits for
  -- approval, was submitted before the grace period and is not in the queue is resumed, then failed
  -- as an orphan while its task is about to be published.
  pub approval_reaped :
      (message : Text) (now grace : ℕ) (in_flight : List Text) (log : List Event)
      → r.started_at < now - grace * minute
      → is_among (hex i) in_flight ≡ false
      → let (resumed, db') = resume parse (hex i) db in
        let w =
          reap parse hex clock ts message now grace in_flight alone
            (record { db = db'; log = log }) in
        (resumed ≡ true)
        × (find i w.1.db.runs
            ≡ some (set_failed orphaned_run message (clock (hex i)) (set_queued r)))
  approval_reaped message now grace in_flight log old absent =
      let same : r.id ≡ i = id-find i db.runs r found in
      let table : IsTable (resume parse (hex i) db).1.runs =
        rw resume-at (transit_at-IsTable i (waiting_approval ∷ []) set_queued db (λ r. refl) t) in
      let gone : is_orphan hex now grace in_flight (set_queued r) ≡ true =
        rw (same, absent) (ground (arith, lt→ltb r.started_at (now - grace * minute) old)) in
      (
        rw (resume-at, transit_at-changed i (waiting_approval ∷ []) set_queued db t, found)
            (rw waits),
        (reap_exact parse hex parse-hex clock ts message now grace in_flight
                (record { db = (resume parse (hex i) db).1; log = log }) table).0
              i
            ∙ (rw resumed-find (rw gone)),
      )
