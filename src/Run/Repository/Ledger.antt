-- ===== src/Run/Repository/Ledger.antt =====
-- The token columns over a history of calls. Code: src/app/run/repository.py.
use fin_agent_platform.Prelude.{
  ℕ, ◌≡◌, refl, ap, sym, ◌∙◌, inl, inr, ◌&&◌, Option, none, some, List, [], ◌∷◌, Option-cases,
  if◌then◌else◌, Text,
}
use fin_agent_platform.Schema.{
  TokenUsage, no_tokens, queued, cancellable_status, resumable_status, Db, run_tokens, add_tokens,
}
use fin_agent_platform.Run.Repository.{
  MemoryJobPayload, set_succeeded, set_failed, set_cancelled, set_waiting, set_running, transit_at,
  transit, succeed,
}
use fin_agent_platform.Run.Repository.Table.{IsTable}
use fin_agent_platform.Run.Repository.Calls.{
  Call, creates, starts_first, starts_again, succeeds, fails, cancels, waits, resumes, after,
  after_all, targets, answer_true,
}
use fin_agent_platform.Run.Repository.Tokens.{
  tokens_at, charged, ledger, add_tokens_assoc, add_tokens_zero, transit_at-tokens,
  transit_from-tokens, transit_from-no_tokens, resume-tokens, create_parsed-tokens,
  store_job-tokens,
}
use fin_agent_platform.Run.Repository.History.{after-IsTable}

module _ (parse : Text → Option ℕ) where
  succeed-tokens :
      (run : Text) (tokens : TokenUsage) (payload : Option MemoryJobPayload) (job now j : ℕ)
      (db : Db)
      → IsTable db.runs
      → let (answer, db') = succeed parse run tokens payload job now db in
        tokens_at j db'
        ≡ add_tokens
            (tokens_at j db)
            (if targets j (parse run) && answer_true answer then tokens else no_tokens)
  unfolding succeed
  succeed-tokens run tokens payload job now j db t = elim (Option-cases (parse run)) [
    | inl e ↦ rw (e, succeed) (sym (add_tokens_zero (tokens_at j db)))
    | inr (i, e) ↦
        rw (e, succeed)
          (let m = transit_at i cancellable_status (set_succeeded tokens now) db in
            store_job-tokens parse i job payload now j tokens db m.0 m.1 (
              transit_at-tokens i j cancellable_status (set_succeeded tokens now) tokens db t
                (λ r. refl) (λ r. refl)))
  ]

  charged-tokens :
      (j : ℕ) (call : Call) (db : Db)
      → IsTable db.runs
      → tokens_at j (after parse call db) ≡ add_tokens (tokens_at j db) (charged parse j call db)
  unfolding after charged transit
  charged-tokens j (creates run thread user content config context now) db t =
      create_parsed-tokens parse (parse run) (parse thread) (parse user) content config context now
        j db
  charged-tokens j (starts_first run) db t =
      transit_from-no_tokens parse run j (queued ∷ []) set_running db t (λ r. refl) (λ r. refl)
  charged-tokens j (starts_again run) db t =
      transit_from-no_tokens parse run j resumable_status set_running db t (λ r. refl) (λ r. refl)
  charged-tokens j (succeeds run tokens payload job now) db t =
      succeed-tokens run tokens payload job now j db t
  charged-tokens j (fails run code message now) db t =
      transit_from-no_tokens parse run j cancellable_status (set_failed code message now) db t
        (λ r. refl) (λ r. refl)
  charged-tokens j (cancels run none now) db t =
      transit_from-tokens parse run j cancellable_status (set_cancelled none now) no_tokens db t
        (λ r. refl) (λ r. sym (add_tokens_zero (run_tokens r)))
  charged-tokens j (cancels run (some tokens) now) db t =
      transit_from-tokens parse run j cancellable_status (set_cancelled (some tokens) now) tokens db
        t (λ r. refl) (λ r. refl)
  charged-tokens j (waits run tokens) db t =
      transit_from-tokens parse run j cancellable_status (set_waiting tokens) tokens db t
        (λ r. refl) (λ r. refl)
  charged-tokens j (resumes run) db t = resume-tokens parse run j db t

  -- On a table with its primary key, the token columns of a run are what they were plus, counter by counter, the usage that the
  -- calls on it reported and that were the ones to change its row: no usage of theirs is lost,
  -- counted twice or booked on another run.
  pub ledger-balance :
      (i : ℕ) (calls : List Call) (db : Db)
      → IsTable db.runs
      → tokens_at i (after_all parse calls db)
        ≡ add_tokens (tokens_at i db) (ledger parse i calls db)
  unfolding after_all ledger
  ledger-balance i [] db t = sym (add_tokens_zero (tokens_at i db))
  ledger-balance i (c ∷ cs) db t =
      ledger-balance i cs (after parse c db) (after-IsTable parse c db t)
      ∙ ap (λ u. add_tokens u (ledger parse i cs (after parse c db))) (charged-tokens i c db t)
      ∙ add_tokens_assoc (tokens_at i db) (charged parse i c db)
          (ledger parse i cs (after parse c db))
