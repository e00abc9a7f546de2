-- ===== src/Quota/Booking.antt =====
-- A run that succeeds is booked on its user's day. Code: `succeed` of src/app/run/repository.py and
-- `token_today` of src/app/quota/usage.py.
use fin_agent_platform.Prelude.{
  ℕ, ◌+◌, ◌*◌, ◌≡◌, refl, sym, ap, ◌∙◌, inl, inr, Bool, true, false, Option, none, some, List, [],
  ◌∷◌, Text, arith, ◌==◌, leb, Bool-cases, Option-cases, contains,
}
use fin_agent_platform.Prelude.Sql.{update_where}
use fin_agent_platform.Schema.{TokenUsage, RunRow, Db, RunStatus, is_in, cancellable_status}
use fin_agent_platform.Run.Repository.{
  MemoryJobPayload, at_status, set_succeeded, transit_at, succeed, store_job, add_job, has_job,
  returned,
}
use fin_agent_platform.Run.Repository.Table.{
  find, ids, IsTable, holds_at, transit_at-find, transit_at-changed,
}
use fin_agent_platform.Run.Query.{is_owner}
use fin_agent_platform.Memory.Usage.{UsageRow}
use fin_agent_platform.Quota.{total, run_equivalent, memory_equivalent, owns, token_today}

-- Rows that the update does not touch add what they added.
fresh_total :
    (g : RunRow → ℕ) (i : ℕ) (allowed : List RunStatus) (change : RunRow → RunRow) (t : List RunRow)
    → contains i (ids t) ≡ false
    → total g (update_where (at_status i allowed) change t) ≡ total g t
unfolding total update_where contains ids
fresh_total g i allowed change [] h = refl
fresh_total g i allowed change (r ∷ t) h = ground (arith, fresh_total g i allowed change t)

-- The sum moves by what the one changed row adds.
total-update_where :
    (g : RunRow → ℕ) (i : ℕ) (allowed : List RunStatus) (change : RunRow → RunRow) (t : List RunRow)
    (r : RunRow)
    → IsTable t
    → find i t ≡ some r
    → is_in r.status allowed ≡ true
    → total g (update_where (at_status i allowed) change t) + g r ≡ total g t + g (change r)
unfolding total update_where find ids
total-update_where g i allowed change [] r d f l = cc
total-update_where g i allowed change (x ∷ t) r d f l = elim (Bool-cases (x.id == i)) [
  | inl e ↦
      let same : x ≡ r = ground arith in
      let rest : total g (update_where (at_status i allowed) change t) ≡ total g t =
        fresh_total g i allowed change t (ground arith) in
      ground (arith, rest, same, ap g same, ap (λ y. g (change y)) same)
  | inr e ↦ ground (arith, total-update_where g i allowed change t r d.1 (ground arith) l)
]

total_ext : {A : Type 0} (g h : A → ℕ) (t : List A) → ((a : A) → g a ≡ h a) → total g t ≡ total h t
unfolding total
total_ext g h [] e = refl
total_ext g h (a ∷ t) e = rw (e a, total_ext g h t e)

-- Who owns a run is not changed by its success.
owns-transit_at :
    (owner i j now : ℕ) (tokens : TokenUsage) (db : Db)
    → owns owner (find j (transit_at i cancellable_status (set_succeeded tokens now) db).1.runs)
      ≡ owns owner (find j db.runs)
owns-transit_at owner i j now tokens db =
    rw (transit_at-find i cancellable_status (set_succeeded tokens now) db j (λ r. refl))
      (elim (Option-cases (find j db.runs)) [ inl e ↦ rw e | inr (r, e) ↦ rw e (ground arith) ])

is_owner_refl : (owner : ℕ) (u : Option ℕ) → u ≡ some owner → is_owner owner u ≡ true
is_owner_refl owner none h = cc
is_owner_refl owner (some n) h = ground arith

add_job-True :
    (thread user : Option ℕ) (job run : ℕ) (messages : List Text) (now : ℕ) (before done : Db)
    → (add_job thread user job run messages now before done).0 ≡ returned true
    → (add_job thread user job run messages now before done).1.runs ≡ done.runs
add_job-True (some thread) (some user) job run messages now before done h =
    elim (Bool-cases (has_job run done.memory_jobs)) [ inl e ↦ ground (arith, e) | inr e ↦ rw e ]
add_job-True (some thread) none job run messages now before done h = cc
add_job-True none user job run messages now before done h = cc

-- Where `succeed` answers `True`, its update changed the row and was committed.
store_job-True :
    (parse : Text → Option ℕ) (i job : ℕ) (payload : Option MemoryJobPayload) (now : ℕ)
    (before : Db) (changed : Bool) (done : Db)
    → (store_job parse i job payload now before (changed, done)).0 ≡ returned true
    → (changed ≡ true)
      × ((store_job parse i job payload now before (changed, done)).1.runs ≡ done.runs)
unfolding store_job
store_job-True parse i job none now before changed done h = (cc, refl)
store_job-True parse i job (some payload) now before false done h = cc
store_job-True parse i job (some payload) now before true done h = (
  refl,
  add_job-True (parse payload.thread_id) (parse payload.user_id) job i payload.messages now before
      done h,
)

module _ (parse : Text → Option ℕ) (weight owner since : ℕ) (run user : Text) (i : ℕ) (r : RunRow)
    (db : Db) (t : IsTable db.runs) (p : parse run ≡ some i) (q : parse user ≡ some owner)
    (found : find i db.runs ≡ some r) (mine : r.user_id ≡ some owner)
    (today : leb since r.started_at ≡ true) where
  token_today-runs :
      (tokens : TokenUsage) (now : ℕ) (usages : List UsageRow) (after : Db)
      → is_in r.status cancellable_status ≡ true
      → after.runs ≡ (transit_at i cancellable_status (set_succeeded tokens now) db).1.runs
      → token_today parse weight user since after usages
        ≡ token_today parse weight user since db usages
          + (tokens.input_uncached + tokens.output * weight)
  unfolding token_today transit_at
  token_today-runs tokens now usages after live e =
      let g = run_equivalent weight owner since in
      let owned = is_owner_refl owner r.user_id mine in
      let moved : total g (transit_at i cancellable_status (set_succeeded tokens now) db).1.runs
            + g r
          ≡ total g db.runs + g (set_succeeded tokens now r) =
        total-update_where g i cancellable_status (set_succeeded tokens now) db.runs r t found
          live in
      let more : g (set_succeeded tokens now r)
          ≡ g r + (tokens.input_uncached + tokens.output * weight) =
        rw (owned, today) (omega arith) in
      let kept : total
            (memory_equivalent weight owner since
              (transit_at i cancellable_status (set_succeeded tokens now) db).1.runs)
            usages
          ≡ total (memory_equivalent weight owner since db.runs) usages =
        total_ext _ _ usages (λ u. rw (owns-transit_at owner i u.run_id now tokens db) refl) in
      rw (q, token_today) (rw e (omega (arith, moved, more, kept)))

  -- A run of this user that was submitted today and that `succeed` ends, whatever the memory job,
  -- adds its uncached and its weighted output tokens to the user's day, and nothing for those that
  -- were read from the cache.
  pub token_today-succeed :
      (tokens : TokenUsage) (payload : Option MemoryJobPayload) (job now : ℕ)
      (usages : List UsageRow)
      → (succeed parse run tokens payload job now db).0 ≡ returned true
      → token_today parse weight user since (succeed parse run tokens payload job now db).1 usages
        ≡ token_today parse weight user since db usages
          + (tokens.input_uncached + tokens.output * weight)
  unfolding succeed
  token_today-succeed tokens payload job now usages h =
      let m = transit_at i cancellable_status (set_succeeded tokens now) db in
      let h' : (store_job parse i job payload now db m).0 ≡ returned true = rw (p, succeed) at h in
      let (changed, runs) = store_job-True parse i job payload now db m.0 m.1 h' in
      let live : is_in r.status cancellable_status ≡ true =
        ap (holds_at (λ r. is_in r.status cancellable_status)) (sym found)
        ∙ sym (transit_at-changed i cancellable_status (set_succeeded tokens now) db t)
        ∙ changed in
      token_today-runs tokens now usages _ live (rw (p, succeed) runs)
