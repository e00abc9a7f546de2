-- ===== src/Run/Route/Unbooked.antt =====
-- A cancellation that reaches the database before the worker sees the flag.
-- Code: `cancel_run` of src/app/api/route/run.py and `_stop` of src/app/run/executor.py.
use mathlib.Core.Option
use fin_agent_platform.Prelude.{
  ℕ, ◌≡◌, refl, ap, ◌∙◌, Bool, true, false, Option, none, some, List, [], ◌∷◌, Text, arith,
  if◌then◌else◌,
}
use fin_agent_platform.Schema.{TokenUsage, cancellable_status, RunRow, Db}
use fin_agent_platform.Event.{EventData, run_cancelled}
use fin_agent_platform.Run.Repository.{
  Failure, cancel, transit, transit_from, transit_at, at_status, set_cancelled,
}
use fin_agent_platform.Run.Repository.Table.{find, transit_at-find, id-find}
use fin_agent_platform.Run.Repository.Calls.{Call, cancels, after, after_all}
use fin_agent_platform.Run.Repository.Finality.{is_live}
use fin_agent_platform.Run.Repository.History.{final_row_frozen}
use fin_agent_platform.Run.Executor.{RunTask, Leg, Stage, interfere, sent, emit_if, emit, stop}
use fin_agent_platform.Run.Route.{Platform, cancel_found}

module _ (parse : Text → Option ℕ) (i : ℕ) where
  cancel_at :
      (run_id : Text) (tokens : Option TokenUsage) (now : ℕ) (db : Db)
      → parse run_id ≡ some i
      → cancel parse run_id tokens now db
        ≡ transit_at i cancellable_status (set_cancelled tokens now) db
  unfolding cancel transit transit_from
  cancel_at run_id tokens now db own = rw (own, transit_from)

  -- The row of a live run after its cancellation without tokens.
  find-cancel :
      (run_id : Text) (now : ℕ) (db : Db) (r : RunRow)
      → parse run_id ≡ some i
      → find i db.runs ≡ some r
      → is_live r ≡ true
      → find i (cancel parse run_id none now db).1.runs ≡ some (set_cancelled none now r)
  find-cancel run_id now db r own e live =
      let same = id-find i db.runs r e in
      let here : at_status i cancellable_status r ≡ true = ground arith in
      let row = transit_at-find i cancellable_status (set_cancelled none now) db i (λ r. refl) in
      let taken : (if at_status i cancellable_status r then set_cancelled none now r else r)
          ≡ set_cancelled none now r =
        ap (λ b. if b then set_cancelled none now r else r) here in
      ap (λ m. find i m.1.runs) (cancel_at run_id none now db own)
      ∙ row
      ∙ ap
          (λ o.
            Option.map
              (λ r. if at_status i cancellable_status r then set_cancelled none now r else r) o)
          e
      ∙ ap some taken

  module _ (show : Failure → Text) (leg : Leg) (task : RunTask) where
    emit_if-db :
        (changed : Bool) (d : EventData) (w : Stage)
        → (emit_if parse show leg task changed d w).db ≡ w.db
    unfolding emit
    emit_if-db true d w = refl
    emit_if-db false d w = refl

    -- Once a live run is cancelled by the endpoint, the worker that stops at the flag books nothing:
    -- whatever the others send, the row keeps the token columns that it had before, so what this leg
    -- has spent is on nobody's account.
    pub stop-unbooked :
        (hex : ℕ → Text) (user_id : Text) (later : List Call) (now ts : ℕ) (p : Platform)
        (r : RunRow) (tokens : TokenUsage) (tick : ℕ)
        → parse task.run_id ≡ some i
        → find i p.db.runs ≡ some r
        → is_live r ≡ true
        → let q = (cancel_found parse hex task.run_id user_id [] later now ts p).1 in
          find i
            (stop parse show leg task tokens
              (record { db = q.db; tick = tick; effects = [] })).db.runs
          ≡ some (set_cancelled none now r)
    unfolding cancel_found stop interfere after_all after
    stop-unbooked hex user_id later now ts p r tokens tick own e live =
        let cancelled_row : RunRow = set_cancelled none now r in
        let done = (cancel parse task.run_id none now p.db).1 in
        let first = find-cancel task.run_id now p.db r own e live in
        let read = final_row_frozen parse i cancelled_row later done first refl in
        let seen : Stage = record { db = after_all parse later done; tick = tick; effects = [] } in
        let v = interfere parse show leg task seen in
        let turn = final_row_frozen parse i cancelled_row (leg.others tick) seen.db read refl in
        let call : Call = cancels task.run_id (some tokens) (leg.utc_now v.tick) in
        let last = final_row_frozen parse i cancelled_row (call ∷ []) v.db turn refl in
        ap (λ (d : Db). find i d.runs)
          (emit_if-db (cancel parse task.run_id (some tokens) (leg.utc_now v.tick) v.db).0
            (run_cancelled tokens) (sent call (after parse call v.db) v))
        ∙ last
