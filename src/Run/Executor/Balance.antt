-- ===== src/Run/Executor/Balance.antt =====
-- Who tells the end of a run while a leg goes on.
-- Code: `_drive`, `_stop`, `_fail`, `_acquire`, `_suspend` and `_consume` of src/app/run/executor.py.
use fin_agent_platform.Prelude.{
  ℕ, ◌+◌, ◌≡◌, refl, sym, ap, Bool, true, false, not, Option, some, List, ◌∷◌, Text, arith,
}
use fin_agent_platform.Schema.{TokenUsage, RunErrorCode, Db}
use fin_agent_platform.Event.{Event, EventData, type_of, is_terminal, run_failed, run_cancelled}
use fin_agent_platform.Run.Repository.{Failure}
use fin_agent_platform.Run.Repository.Table.{IsTable}
use fin_agent_platform.Run.Repository.Calls.{
  Call, fails, cancels, after, after_all, finalizes, finals, targets,
}
use fin_agent_platform.Run.Repository.Finality.{open_at, finalizes-open}
use fin_agent_platform.Run.Repository.History.{after-IsTable, after_all-IsTable, finals-balance}
use fin_agent_platform.Run.Executor.{
  RunTask, Leg, Effect, sends, meanwhile, pushes, acquires, releases, aligns, streams, resumes,
  Stage, perform, interfere, emit, sent, emit_if, stop, fail_run, or_value,
}
use fin_agent_platform.Run.Executor.Trace.{ends_run, told, db_after, told_by_others}

-- The database is what the effects make of the first one, and the final events of the leg, those of
-- the others and the state of the run make up what there was.
pub record IsBalanced (parse : Text → Option ℕ) (i : ℕ) (db₀ : Db) (w : Stage) : Type 0 where
  pub database : w.db ≡ db_after parse w.effects db₀
  pub table : IsTable w.db.runs
  pub balance :
      told w.effects + told_by_others parse i w.effects db₀ + open_at i w.db ≡ open_at i db₀

-- An effect that touches no database and tells no end.
unfoldable pub is_plain : Effect → Bool
unfolding ends_run
is_plain (sends c) = false
is_plain (meanwhile cs) = false
is_plain (pushes e) = not (ends_run e.data_)
is_plain _ = true

module _ (parse : Text → Option ℕ) (i : ℕ) (db₀ : Db) where
  plain_effects :
      (e : Effect) (es : List Effect)
      → is_plain e ≡ true
      → (told (e ∷ es) ≡ told es)
        × (db_after parse (e ∷ es) db₀ ≡ db_after parse es db₀)
        × (told_by_others parse i (e ∷ es) db₀ ≡ told_by_others parse i es db₀)
  unfolding is_plain told db_after told_by_others
  plain_effects (sends c) es h = ground arith
  plain_effects (meanwhile cs) es h = ground arith
  plain_effects (pushes e) es h = (ground arith, refl, refl)
  plain_effects acquires es h = (refl, refl, refl)
  plain_effects releases es h = (refl, refl, refl)
  plain_effects (aligns l) es h = (refl, refl, refl)
  plain_effects (streams s) es h = (refl, refl, refl)
  plain_effects (resumes l) es h = (refl, refl, refl)

  pub perform-IsBalanced :
      (e : Effect) (w : Stage)
      → is_plain e ≡ true
      → IsBalanced parse i db₀ w
      → IsBalanced parse i db₀ (perform e w)
  perform-IsBalanced e w plain h =
      let (a, b, c) = plain_effects e w.effects plain in
      record { database = rw b h.database; table = h.table; balance = rw (a, c) h.balance }

  -- A statement of the executor that ends nothing.
  pub sent-IsBalanced :
      (c : Call) (w : Stage)
      → finalizes parse i c w.db ≡ false
      → IsBalanced parse i db₀ w
      → IsBalanced parse i db₀ (sent c (after parse c w.db) w)
  unfolding told db_after told_by_others
  sent-IsBalanced c w quiet h =
      let closes = finalizes-open parse i c w.db h.table in
      let same : 0 + open_at i (after parse c w.db) ≡ open_at i w.db = rw quiet at closes in
      record {
        database = ap (after parse c) h.database;
        table = after-IsTable parse c w.db h.table;
        balance = omega (arith, h.balance, same);
      }

  -- A statement that ends the run, with its event.
  told-IsBalanced :
      (c : Call) (e : Event) (w : Stage)
      → finalizes parse i c w.db ≡ true
      → ends_run e.data_ ≡ true
      → IsBalanced parse i db₀ w
      → IsBalanced parse i db₀ (perform (pushes e) (sent c (after parse c w.db) w))
  unfolding told db_after told_by_others
  told-IsBalanced c e w closed final h =
      let closes = finalizes-open parse i c w.db h.table in
      let down : 1 + open_at i (after parse c w.db) ≡ open_at i w.db = rw closed at closes in
      record {
        database = ap (after parse c) h.database;
        table = after-IsTable parse c w.db h.table;
        balance = rw final (omega (arith, h.balance, down));
      }

  module _ (leg : Leg) (task : RunTask) (show : Failure → Text) where
    pub interfere-IsBalanced :
        (w : Stage)
        → IsBalanced parse i db₀ w
        → IsBalanced parse i db₀ (interfere parse show leg task w)
    unfolding interfere told db_after told_by_others
    interfere-IsBalanced w h =
        let cs = leg.others w.tick in
        let meant = finals-balance parse i cs w.db h.table in
        let here : finals parse i cs (db_after parse w.effects db₀) ≡ finals parse i cs w.db =
          ap (finals parse i cs) (sym h.database) in
        record {
          database = ap (after_all parse cs) h.database;
          table = after_all-IsTable parse cs w.db h.table;
          balance = omega (arith, h.balance, meant, here);
        }

    pub emit-IsBalanced :
        (path : List Text) (d : EventData) (w : Stage)
        → ends_run d ≡ false
        → IsBalanced parse i db₀ w
        → IsBalanced parse i db₀ (emit parse show leg task path d w)
    unfolding emit is_plain
    emit-IsBalanced path d w quiet h = perform-IsBalanced _ w (rw quiet) h

    -- The statement and its event, where the answer says that it ended the run.
    pub emit_if-IsBalanced :
        (c : Call) (changed : Bool) (d : EventData) (w : Stage)
        → finalizes parse i c w.db ≡ changed
        → ends_run d ≡ true
        → IsBalanced parse i db₀ w
        → IsBalanced parse i db₀
            (emit_if parse show leg task changed d (sent c (after parse c w.db) w))
    unfolding emit
    emit_if-IsBalanced c true d w closed final h = told-IsBalanced c _ w closed final h
    emit_if-IsBalanced c false d w quiet final h = sent-IsBalanced c w quiet h

    module _ (own : targets i (parse task.run_id) ≡ true) where
      pub stop-IsBalanced :
          (tokens : TokenUsage) (w : Stage)
          → IsBalanced parse i db₀ w
          → IsBalanced parse i db₀ (stop parse show leg task tokens w)
      unfolding stop after finalizes ends_run type_of is_terminal
      stop-IsBalanced tokens w h =
          let v = interfere parse show leg task w in
          emit_if-IsBalanced (cancels task.run_id (some tokens) (leg.utc_now v.tick)) _
            (run_cancelled tokens) v (rw own) refl (interfere-IsBalanced w h)

      pub fail_run-IsBalanced :
          (code : RunErrorCode) (message : Text) (retryable : Bool) (w : Stage)
          → IsBalanced parse i db₀ w
          → IsBalanced parse i db₀ (fail_run parse show leg task code message retryable w)
      unfolding fail_run after finalizes ends_run type_of is_terminal
      fail_run-IsBalanced code message retryable w h =
          let v = interfere parse show leg task w in
          emit_if-IsBalanced (fails task.run_id code (or_value message code) (leg.utc_now v.tick)) _
            (run_failed code (or_value message code) retryable) v (rw own) refl
            (interfere-IsBalanced w h)
