-- ===== src/Examples/Jobs.antt =====
-- The theorems on the outbox, at two jobs of which the older one has the larger identifier.
use fin_agent_platform.Prelude.{
  ℕ, ◌+◌, ◌≤◌, ◌≡◌, refl, ◌⊎◌, Bool, true, false, none, some, List, [], ◌∷◌, ◌==◌, All, arith,
}
use fin_agent_platform.Prelude.Sql.{update_where}
use fin_agent_platform.Schema.{MemoryJobRow, job_queued}
use fin_agent_platform.Memory.Job.{
  Consumers, to_job, set_claimed, claim, is_held, begin_claim, find_held, unlock, first_queued,
  finish,
}
use fin_agent_platform.Memory.Job.Queue.{IsOldest, claim_lem}
use fin_agent_platform.Memory.Job.Exclusive.{
  Step, begins, commits, completes, IsHolding, all_distinct, handed, claim_exclusive,
}
use fin_agent_platform.Examples.{decode, encode, older_job, newer_job, sample_jobs}

abbrev unlocked : ℕ → Bool
unlocked n = false

encode-injective : (a b : ℕ) → encode a ≡ encode b → a ≡ b
encode-injective a b h = cc

claim_lem_example :
    ((claim encode unlocked 900 sample_jobs ≡ (none, sample_jobs))
      × All (λ (k : MemoryJobRow). k.status ≡ job_queued → unlocked k.id ≡ true) sample_jobs)
    ⊎ ((j : MemoryJobRow) × IsOldest unlocked j sample_jobs
        × (claim encode unlocked 900 sample_jobs ≡ (
          some (to_job encode (set_claimed 900 j)),
          update_where (λ k. k.id == j.id) (λ _. set_claimed 900 j) sample_jobs,
        )))
claim_lem_example = claim_lem encode unlocked 900 sample_jobs

-- Two consumers begin before either commits.
abbrev overlapping : List Step
overlapping =
    begins
    ∷ begins
    ∷ commits newer_job.id 900
    ∷ commits older_job.id 901
    ∷ completes (encode newer_job.id) 1 [] 950
    ∷ begins
    ∷ []

abbrev at_rest : Consumers
at_rest = record { jobs = sample_jobs; held = [] }

at_rest-IsHolding : IsHolding at_rest
unfolding is_held all_distinct
at_rest-IsHolding = record { distinct = refl; queued = λ i m. ground arith }

both_handed :
    handed decode encode (encode older_job.id) overlapping at_rest
      + handed decode encode (encode newer_job.id) overlapping at_rest
    ≡ 2
unfolding handed begin_claim find_held unlock is_held finish first_queued
both_handed = refl

claim_exclusive_example : handed decode encode (encode older_job.id) overlapping at_rest ≤ 1
claim_exclusive_example =
    claim_exclusive decode encode encode-injective older_job.id overlapping at_rest
      at_rest-IsHolding
