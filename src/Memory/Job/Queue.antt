-- ===== src/Memory/Job/Queue.antt =====
-- The outbox as a queue: who is claimed, by whom, and what never changes again.
-- Code: `claim` of src/app/memory/job.py.
use mathlib.Core.Path.{subst}
use fin_agent_platform.Prelude.{
  ℕ, ◌+◌, ◌≤◌, ◌<◌, ltb, ◌≡◌, refl, ◌⊎◌, inl, inr, Bool, true, false, none, some, [], ◌∷◌, Text,
  ◌==◌, All, All-map, Has, here, there, Bool-cases, Option-cases, arith,
}
use fin_agent_platform.Prelude.Sql.{update_where}
use fin_agent_platform.Schema.{MemoryJobRow, job_queued, job_running}
use fin_agent_platform.Memory.Job.{Jobs, goes_before, is_free, first_queued, write_row, claim}

goes_before_refl : (a : MemoryJobRow) → goes_before a a ≡ true
goes_before_refl a = ground arith

goes_before_trans :
    (a b c : MemoryJobRow)
    → goes_before a b ≡ true
    → goes_before b c ≡ true
    → goes_before a c ≡ true
goes_before_trans a b c h k = ground arith

goes_before_total : (a b : MemoryJobRow) → goes_before a b ≡ false → goes_before b a ≡ true
goes_before_total a b h = ground arith

-- Free, and no free row goes before it.
pub record IsFirst (locked : ℕ → Bool) (j : MemoryJobRow) (t : Jobs) : Type 0 where
  pub member : Has j t
  pub free : is_free locked j ≡ true
  pub first : All (λ k. is_free locked k ≡ true → goes_before j k ≡ true) t

-- The query finds nothing exactly where no row is free.
pub first_queued-none :
    (locked : ℕ → Bool) (t : Jobs)
    → first_queued locked t ≡ none
    → All (λ k. is_free locked k ≡ false) t
unfolding first_queued
first_queued-none locked [] h = tt
first_queued-none locked (k ∷ t) h = (ground arith, first_queued-none locked t (ground arith))

only_free :
    (locked : ℕ → Bool) (k : MemoryJobRow) (t : Jobs)
    → is_free locked k ≡ true
    → All (λ x. is_free locked x ≡ false) t
    → IsFirst locked k (k ∷ t)
only_free locked k t free h = record {
  member = here refl;
  free = free;
  first = (λ _. goes_before_refl k, All-map _ _ t (λ x f e. cc) h);
}

new-IsFirst :
    (locked : ℕ → Bool) (k b : MemoryJobRow) (t : Jobs)
    → is_free locked k ≡ true
    → goes_before k b ≡ true
    → IsFirst locked b t
    → IsFirst locked k (k ∷ t)
new-IsFirst locked k b t free before h = record {
  member = here refl;
  free = free;
  first = (
    λ _. goes_before_refl k,
    All-map _ _ t (λ x f e. goes_before_trans k b x before (f e)) h.first,
  );
}

old-IsFirst :
    (locked : ℕ → Bool) (k b : MemoryJobRow) (t : Jobs)
    → (is_free locked k ≡ true → goes_before b k ≡ true)
    → IsFirst locked b t
    → IsFirst locked b (k ∷ t)
old-IsFirst locked k b t after h = record {
  member = there h.member;
  free = h.free;
  first = (after, h.first);
}

pub first_queued-IsFirst :
    (locked : ℕ → Bool) (t : Jobs) (j : MemoryJobRow)
    → first_queued locked t ≡ some j
    → IsFirst locked j t
unfolding first_queued
first_queued-IsFirst locked [] j h = cc
first_queued-IsFirst locked (k ∷ t) j h = elim (Bool-cases (is_free locked k)) [
  | inl free ↦ elim (Option-cases (first_queued locked t)) [
    | inl e ↦
        let p : k ≡ j = ground arith in
        subst (λ x. IsFirst locked x (k ∷ t)) p
          (only_free locked k t free (first_queued-none locked t e))
    | inr (b, e) ↦ elim (Bool-cases (goes_before k b)) [
      | inl before ↦
          let p : k ≡ j = ground arith in
          subst (λ x. IsFirst locked x (k ∷ t)) p
            (new-IsFirst locked k b t free before (first_queued-IsFirst locked t b e))
      | inr after ↦
          let p : b ≡ j = ground arith in
          subst (λ x. IsFirst locked x (k ∷ t)) p
            (old-IsFirst locked k b t (λ _. goes_before_total k b after)
              (first_queued-IsFirst locked t b e))
    ]
  ]
  | inr taken ↦ old-IsFirst locked k j t (λ e. cc) (first_queued-IsFirst locked t j (ground arith))
]

-- Which row `claim` is to take: queued, not locked, and no such row was created before it, or at the
-- same time with a smaller identifier.
pub record IsOldest (locked : ℕ → Bool) (j : MemoryJobRow) (t : Jobs) : Type 0 where
  pub member : Has j t
  pub waits : j.status ≡ job_queued
  pub unlocked : locked j.id ≡ false
  pub oldest :
      All
        (λ (k : MemoryJobRow).
          k.status ≡ job_queued
          → locked k.id ≡ false
          → (j.created_at < k.created_at) ⊎ ((j.created_at ≡ k.created_at) × (j.id ≤ k.id)))
        t

queued_free :
    (locked : ℕ → Bool) (k : MemoryJobRow)
    → k.status ≡ job_queued
    → locked k.id ≡ false
    → is_free locked k ≡ true
queued_free locked k q l = rw (q, l)

free_queued :
    (locked : ℕ → Bool) (k : MemoryJobRow)
    → is_free locked k ≡ true
    → (k.status ≡ job_queued) × (locked k.id ≡ false)
free_queued locked k f = ground arith

order :
    (j k : MemoryJobRow)
    → goes_before j k ≡ true
    → (j.created_at < k.created_at) ⊎ ((j.created_at ≡ k.created_at) × (j.id ≤ k.id))
order j k h = elim (Bool-cases (ltb j.created_at k.created_at)) [
  | inl less ↦ inl (ground arith)
  | inr more ↦ inr (ground arith, ground arith)
]

IsFirst-IsOldest :
    (locked : ℕ → Bool) (j : MemoryJobRow) (t : Jobs) → IsFirst locked j t → IsOldest locked j t
IsFirst-IsOldest locked j t f = record {
  member = f.member;
  waits = (free_queued locked j f.free).0;
  unlocked = (free_queued locked j f.free).1;
  oldest = All-map _ _ t (λ k before q l. order j k (before (queued_free locked k q l))) f.first;
}

-- `claim` hands out the oldest job that is queued and not locked, of those created at one time the
-- one with the smallest identifier, and writes `running`, one more attempt, the start and no error
-- into that row alone; where every row is locked or not queued it hands out and writes nothing.
pub claim_lem :
    (hex : ℕ → Text) (locked : ℕ → Bool) (now : ℕ) (t : Jobs)
    → ((claim hex locked now t ≡ (none, t))
        × All (λ (k : MemoryJobRow). k.status ≡ job_queued → locked k.id ≡ true) t)
      ⊎ ((j : MemoryJobRow) × IsOldest locked j t
          × (claim hex locked now t ≡ (
            some (record {
              id = hex j.id;
              run_id = hex j.run_id;
              thread_id = hex j.thread_id;
              user_id = hex j.user_id;
              messages = j.snapshot;
              attempts = j.attempts + 1;
            }),
            update_where
                (λ k. k.id == j.id)
                (λ _. record j {
                  status = job_running;
                  attempts = j.attempts + 1;
                  started_at = some now;
                  last_error = none;
                })
                t,
          )))
unfolding claim write_row
claim_lem hex locked now t = elim (Option-cases (first_queued locked t)) [
  | inl e ↦ inl (rw e, All-map _ _ t (λ k f q. ground (arith, q, f)) (first_queued-none locked t e))
  | inr (j, e) ↦ inr (j, IsFirst-IsOldest locked j t (first_queued-IsFirst locked t j e), rw e)
]
