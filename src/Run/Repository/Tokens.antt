-- ===== src/Run/Repository/Tokens.antt =====
-- The token columns of a run against the usage that its calls report.
-- Code: `succeed`, `cancel` and `wait_approval` of src/app/run/repository.py.
use fin_agent_platform.Prelude.{
  ℕ, ◌≡◌, refl, sym, ◌∙◌, inl, inr, Bool, true, false, ◌&&◌, Option, none, some, List, [], ◌∷◌,
  arith, ◌==◌, Bool-cases, Option-cases, if◌then◌else◌, Text,
}
use fin_agent_platform.Schema.{
  TokenUsage, no_tokens, RunStatus, waiting_approval, RunRow, Db, run_tokens, add_tokens,
}
use fin_agent_platform.Run.Repository.{
  MemoryJobPayload, has_run, has_job, insert_run, create_parsed, set_queued, transit_at,
  transit_from, cancel, wait_approval, resume, succeed, store_job, add_job, new_run,
}
use fin_agent_platform.Run.Repository.Table.{
  find, IsTable, KeepsId, transit_at-find, transit_at-changed, has_run-ids, find_of_fresh, id-find,
}
use fin_agent_platform.Run.Repository.Calls.{
  Call, succeeds, cancels, waits, after, targets, answer_true,
}

pub add_tokens_assoc :
    (a b c : TokenUsage) → add_tokens (add_tokens a b) c ≡ add_tokens a (add_tokens b c)
add_tokens_assoc a b c = ground arith

pub add_tokens_zero : (a : TokenUsage) → add_tokens a no_tokens ≡ a
add_tokens_zero a = ground arith

abbrev pub tokens_of : Option RunRow → TokenUsage
tokens_of none = no_tokens
tokens_of (some r) = run_tokens r

abbrev pub tokens_at : ℕ → Db → TokenUsage
tokens_at i db = tokens_of (find i db.runs)

abbrev pub given : Option TokenUsage → TokenUsage
given none = no_tokens
given (some t) = t

module _ (parse : Text → Option ℕ) where
  -- The usage that a call adds to run `i`: what it reports, if it is the one that changes the row.
  unfoldable pub charged : ℕ → Call → Db → TokenUsage
  unfolding succeed cancel wait_approval
  charged i (succeeds run tokens payload job now) db =
      if targets i (parse run) && answer_true (succeed parse run tokens payload job now db).0
      then tokens
      else no_tokens
  charged i (cancels run tokens now) db =
      if targets i (parse run) && (cancel parse run tokens now db).0
      then given tokens
      else no_tokens
  charged i (waits run tokens) db =
      if targets i (parse run) && (wait_approval parse run tokens db).0 then tokens else no_tokens
  charged i _ db = no_tokens

  unfoldable pub ledger : ℕ → List Call → Db → TokenUsage
  ledger i [] db = no_tokens
  ledger i (c ∷ cs) db = add_tokens (charged i c db) (ledger i cs (after parse c db))

pub transit_at-tokens :
    (i j : ℕ) (allowed : List RunStatus) (change : RunRow → RunRow) (tokens : TokenUsage) (db : Db)
    → IsTable db.runs
    → KeepsId change
    → ((r : RunRow) → run_tokens (change r) ≡ add_tokens (run_tokens r) tokens)
    → tokens_at j (transit_at i allowed change db).1
      ≡ add_tokens
          (tokens_at j db)
          (if i == j && (transit_at i allowed change db).0 then tokens else no_tokens)
transit_at-tokens i j allowed change tokens db t k adds =
    rw (transit_at-changed i allowed change db t, transit_at-find i allowed change db j k)
      (elim (Option-cases (find j db.runs)) [
        | inl e ↦ rw e (ground (arith, e))
        | inr (r, e) ↦ rw e (ground (arith, e, adds r, id-find j db.runs r))
      ])

module _ (parse : Text → Option ℕ) where
  pub transit_from-tokens :
      (run : Text) (j : ℕ) (allowed : List RunStatus) (change : RunRow → RunRow)
      (tokens : TokenUsage) (db : Db)
      → IsTable db.runs
      → KeepsId change
      → ((r : RunRow) → run_tokens (change r) ≡ add_tokens (run_tokens r) tokens)
      → tokens_at j (transit_from parse run allowed change db).1
        ≡ add_tokens (tokens_at j db) (
            if targets j (parse run) && (transit_from parse run allowed change db).0
            then tokens
            else no_tokens)
  unfolding transit_from
  transit_from-tokens run j allowed change tokens db t k adds = elim (Option-cases (parse run)) [
    | inl e ↦ rw (e, transit_from) (sym (add_tokens_zero (tokens_at j db)))
    | inr (i, e) ↦ rw (e, transit_from) (transit_at-tokens i j allowed change tokens db t k adds)
  ]

  -- An update that leaves the token columns alone.
  pub transit_from-no_tokens :
      (run : Text) (j : ℕ) (allowed : List RunStatus) (change : RunRow → RunRow) (db : Db)
      → IsTable db.runs
      → KeepsId change
      → ((r : RunRow) → run_tokens (change r) ≡ run_tokens r)
      → tokens_at j (transit_from parse run allowed change db).1
        ≡ add_tokens (tokens_at j db) no_tokens
  transit_from-no_tokens run j allowed change db t k same =
      let adds =
        transit_from-tokens run j allowed change no_tokens db t k
          (λ r. same r ∙ sym (add_tokens_zero (run_tokens r))) in
      ground (arith, adds)

  pub resume-tokens :
      (run : Text) (j : ℕ) (db : Db)
      → IsTable db.runs
      → tokens_at j (resume parse run db).1 ≡ add_tokens (tokens_at j db) no_tokens
  unfolding resume
  resume-tokens run j db t = elim (Option-cases (parse run)) [
    | inl e ↦ rw (e, resume) (sym (add_tokens_zero (tokens_at j db)))
    | inr (i, e) ↦
        rw (e, resume)
          (ground (
            arith,
            transit_at-tokens i j (waiting_approval ∷ []) set_queued no_tokens db t (λ r. refl)
                (λ r. sym (add_tokens_zero (run_tokens r))),
          ))
  ]

  insert_run-tokens :
      (row : RunRow) (j : ℕ) (db : Db)
      → run_tokens row ≡ no_tokens
      → tokens_at j (insert_run row db).1 ≡ add_tokens (tokens_at j db) no_tokens
  unfolding find
  insert_run-tokens row j db q = elim (Bool-cases (has_run row.id db.runs)) [
    | inl e ↦ rw e (sym (add_tokens_zero (tokens_at j db)))
    | inr e ↦ elim (Bool-cases (row.id == j)) [
      | inl same ↦
          (let absent : find j db.runs ≡ none =
              find_of_fresh j db.runs (ground (arith, has_run-ids row.id db.runs)) in
            rw (e, same) (rw (absent, q)))
      | inr other ↦ rw (e, other) (sym (add_tokens_zero (tokens_at j db)))
    ]
  ]

  pub create_parsed-tokens :
      (run thread user : Option ℕ) (content config context : Option Text) (now j : ℕ) (db : Db)
      → tokens_at j (create_parsed run thread user content config context now db).1
        ≡ add_tokens (tokens_at j db) no_tokens
  create_parsed-tokens (some run) (some thread) (some user) content config context now j db =
      insert_run-tokens (new_run run thread user content config context now) j db refl
  create_parsed-tokens (some run) (some thread) none content config context now j db =
      sym (add_tokens_zero (tokens_at j db))
  create_parsed-tokens (some run) none user content config context now j db =
      sym (add_tokens_zero (tokens_at j db))
  create_parsed-tokens none thread user content config context now j db =
      sym (add_tokens_zero (tokens_at j db))

  add_job-tokens :
      (thread user : Option ℕ) (i job : ℕ) (messages : List Text) (now j : ℕ) (tokens : TokenUsage)
      (before done : Db)
      → tokens_at j done ≡ add_tokens (tokens_at j before) (if i == j then tokens else no_tokens)
      → let (answer, db) = add_job thread user job i messages now before done in
        tokens_at j db
        ≡ add_tokens
            (tokens_at j before)
            (if i == j && answer_true answer then tokens else no_tokens)
  add_job-tokens (some thread) (some user) i job messages now j tokens before done h =
      elim (Bool-cases (has_job i done.memory_jobs)) [
        | inl e ↦ rw e (ground arith)
        | inr e ↦ rw e (ground arith)
      ]
  add_job-tokens (some thread) none i job messages now j tokens before done h = ground arith
  add_job-tokens none user i job messages now j tokens before done h = ground arith

  pub store_job-tokens :
      (i job : ℕ) (payload : Option MemoryJobPayload) (now j : ℕ) (tokens : TokenUsage)
      (before : Db) (changed : Bool) (done : Db)
      → tokens_at j done
        ≡ add_tokens (tokens_at j before) (if i == j && changed then tokens else no_tokens)
      → let (answer, db) = store_job parse i job payload now before (changed, done) in
        tokens_at j db
        ≡ add_tokens
            (tokens_at j before)
            (if i == j && answer_true answer then tokens else no_tokens)
  unfolding store_job
  store_job-tokens i job none now j tokens before changed done h = h
  store_job-tokens i job (some payload) now j tokens before false done h = h
  store_job-tokens i job (some payload) now j tokens before true done h =
      add_job-tokens (parse payload.thread_id) (parse payload.user_id) i job payload.messages now j
        tokens before done (ground arith)
