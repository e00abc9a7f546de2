-- ===== src/Run/Sweep/Exact.antt =====
-- What the two sweeps do, row by row and event by event: src/app/run/reaper.py and
-- src/app/run/approval.py.
use mathlib.Core.Option
use fin_agent_platform.Prelude.{
  ℕ, ◌-◌, ◌*◌, ◌≡◌, refl, ap, ◌∙◌, inl, inr, Bool, not, ◌&&◌, Option, none, some, List, [], ◌∷◌,
  ◌++◌, map, Text, arith, ◌==◌, ltb, if◌then◌else◌, contains, filter, Bool-cases, Option-cases,
  length,
}
use fin_agent_platform.Schema.{RunRow, Db, orphaned_run, waiting_approval, same_status}
use fin_agent_platform.Run.Repository.{fail, cancel, set_failed, set_cancelled}
use fin_agent_platform.Run.Repository.Calls.{Call, after_all}
use fin_agent_platform.Run.Repository.Table.{find, ids, IsTable, holds_at, id-find}
use fin_agent_platform.Run.Query.{unfinished, is_unfinished}
use fin_agent_platform.Run.Query.Members.{
  contains-filter, filter-IsTable, contains-unfinished, unfinished-IsTable,
}
use fin_agent_platform.Run.Sweep.{
  World, run_ids, orphaned, expired, reap, sweep_approvals, is_among, minute, hour, orphan_event,
  timeout_event,
}
use fin_agent_platform.Run.Sweep.Loop.{sweep_exact}

pub run_ids-ids : (hex : ℕ → Text) (t : List RunRow) → run_ids hex t ≡ map hex (ids t)
unfolding ids
run_ids-ids hex [] = refl
run_ids-ids hex (r ∷ t) = ap (λ l. hex r.id ∷ l) (run_ids-ids hex t)

filter-map :
    (hex : ℕ → Text) (p : Text → Bool) (t : List RunRow)
    → filter p (run_ids hex t) ≡ map hex (ids (filter (λ r. p (hex r.id)) t))
unfolding ids filter
filter-map hex p [] = refl
filter-map hex p (r ∷ t) = ground (arith, filter-map hex p t)

contains-filter_id :
    (j : ℕ) (p : ℕ → Bool) (t : List RunRow)
    → contains j (ids (filter (λ r. p r.id) t)) ≡ (p j && contains j (ids t))
unfolding contains ids filter
contains-filter_id j p [] = ground arith
contains-filter_id j p (r ∷ t) = elim (Bool-cases (r.id == j)) [
  | inl e ↦
      let same : r.id ≡ j = ground arith in
      ground (arith, contains-filter_id j p t, same, ap p same)
  | inr e ↦ ground (arith, contains-filter_id j p t, e)
]

-- No process sends anything during the sweep.
abbrev pub alone : Text → List Call
alone run_id = []

-- Unfinished for longer than the grace period, and not in the queue.
abbrev pub is_orphan : (ℕ → Text) → ℕ → ℕ → List Text → RunRow → Bool
is_orphan hex now grace_minute in_flight r =
    is_unfinished (some (now - grace_minute * minute)) r && not (is_among (hex r.id) in_flight)

abbrev pub is_expired : ℕ → ℕ → RunRow → Bool
is_expired now timeout_hour r =
    same_status r.status waiting_approval && ltb r.started_at (now - timeout_hour * hour)

module _ (parse : Text → Option ℕ) (hex : ℕ → Text) (parse-hex : (i : ℕ) → parse (hex i) ≡ some i)
    (clock ts : Text → ℕ) where
  abbrev pub orphan_ids : ℕ → ℕ → List Text → Db → List ℕ
  orphan_ids now grace in_flight db = ids (
      filter (λ r. not (is_among (hex r.id) in_flight))
        (unfinished (some (now - grace * minute)) db))

  pub orphaned-ids :
      (now grace : ℕ) (in_flight : List Text) (db : Db)
      → orphaned hex now grace db in_flight ≡ map hex (orphan_ids now grace in_flight db)
  unfolding orphaned
  orphaned-ids now grace in_flight db =
      filter-map hex (λ id. not (is_among id in_flight))
        (unfinished (some (now - grace * minute)) db)

  pub contains-orphan_ids :
      (now grace j : ℕ) (in_flight : List Text) (db : Db)
      → IsTable db.runs
      → contains j (orphan_ids now grace in_flight db)
        ≡ holds_at (is_orphan hex now grace in_flight) (find j db.runs)
  contains-orphan_ids now grace j in_flight db t =
      let cutoff : Option ℕ = some (now - grace * minute) in
      contains-filter_id j (λ n. not (is_among (hex n) in_flight)) (unfinished cutoff db)
      ∙ ap (λ b. not (is_among (hex j) in_flight) && b) (contains-unfinished j cutoff db t)
      ∙ settle
    where
      settle :
          (not (is_among (hex j) in_flight)
            && holds_at (is_unfinished (some (now - grace * minute))) (find j db.runs))
          ≡ holds_at (is_orphan hex now grace in_flight) (find j db.runs)
      settle = elim (Option-cases (find j db.runs)) [
        | inl e ↦ rw e (ground arith)
        | inr (r, e) ↦ let same : r.id ≡ j = id-find j db.runs r e in rw (e, same) (ground (arith))
      ]

  -- With nothing sent by others in between, the sweep of orphans fails exactly the runs that are queued or running, started before the grace
  -- period and are not in the queue; it leaves every other run as it was, answers the number of
  -- runs it failed, and pushes one `run.failed` for each of them and nothing else.
  pub reap_exact :
      (message : Text) (now grace : ℕ) (in_flight : List Text) (w : World)
      → IsTable w.db.runs
      → let (count, w') = reap parse hex clock ts message now grace in_flight alone w in
        let gone = orphaned hex now grace w.db in_flight in
        ((j : ℕ)
          → find j w'.db.runs
            ≡ Option.map
                (λ r.
                  if is_orphan hex now grace in_flight r
                  then set_failed orphaned_run message (clock (hex j)) r
                  else r)
                (find j w.db.runs))
        × (count ≡ length gone)
        × (w'.log ≡ w.log ++ map (orphan_event message ts) gone)
  unfolding reap fail after_all
  reap_exact message now grace in_flight w t = rw (orphaned-ids now grace in_flight w.db) (
      sweep_exact parse hex parse-hex (λ run_id. set_failed orphaned_run message (clock run_id))
        (orphan_event message ts) (λ _ r. refl) (λ _ r. refl) (is_orphan hex now grace in_flight)
        (orphan_ids now grace in_flight w.db) w t
        (filter-IsTable (λ r. not (is_among (hex r.id) in_flight))
          (unfinished (some (now - grace * minute)) w.db)
          (unfinished-IsTable (some (now - grace * minute)) w.db t))
        (λ j. contains-orphan_ids now grace j in_flight w.db t) (λ r h. ground arith))

  -- With nothing sent by others in between, the sweep of approvals cancels exactly the runs that wait for approval and were submitted before
  -- the timeout; it leaves every other run as it was, answers the number of runs it cancelled, and
  -- pushes one `run.cancelled` for each of them and nothing else.
  pub sweep_approvals_exact :
      (now timeout : ℕ) (w : World)
      → IsTable w.db.runs
      → let (count, w') = sweep_approvals parse hex clock ts now timeout alone w in
        let gone = expired parse hex clock ts now timeout w.db in
        ((j : ℕ)
          → find j w'.db.runs
            ≡ Option.map
                (λ r. if is_expired now timeout r then set_cancelled none (clock (hex j)) r else r)
                (find j w.db.runs))
        × (count ≡ length gone)
        × (w'.log ≡ w.log ++ map (timeout_event ts) gone)
  unfolding sweep_approvals expired cancel after_all
  sweep_approvals_exact now timeout w t =
      rw (run_ids-ids hex (filter (is_expired now timeout) w.db.runs)) (
        sweep_exact parse hex parse-hex (λ run_id. set_cancelled none (clock run_id))
          (timeout_event ts) (λ _ r. refl) (λ _ r. refl) (is_expired now timeout)
          (ids (filter (is_expired now timeout) w.db.runs)) w t
          (filter-IsTable (is_expired now timeout) w.db.runs t)
          (λ j. contains-filter j (is_expired now timeout) w.db.runs t) (λ r h. ground arith))
