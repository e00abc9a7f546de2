-- ===== src/Examples/Pools.antt =====
-- The theorems on the sandbox pool, at a pool for two containers that two threads use while two
-- calls for a third thread and one for a fourth wait.
use fin_agent_platform.Prelude.{ℕ, refl, true, List, [], ◌∷◌, contains, arith}
use fin_agent_platform.Sandbox.Pool.{
  Waiter, Config, cancels, abandons, Pool, Op, acquires, releases, resumes, sweeps, empty_pool,
  after_op, after_ops, start_granted, find_waiter, find_slot,
}
use fin_agent_platform.Sandbox.Pool.Places.{Fits, empty_pool-Fits}
use fin_agent_platform.Sandbox.Pool.Bounds.{after_ops-Fits}
use fin_agent_platform.Sandbox.Pool.Holders.{Holds}
use fin_agent_platform.Sandbox.Pool.Busy.{may_end, after_op-Holds}
use fin_agent_platform.Sandbox.Pool.Settled.{pumps, IsPumped, after_op-IsPumped}
use fin_agent_platform.Sandbox.Pool.Leak.{IsLeak, start_granted-IsLeak}

abbrev config : Config
config = record {
  max_container = 2;
  idle_timeout = 1800;
  lease_timeout = 1800;
  meanwhile = λ container. cancels 9 ∷ abandons 9 ∷ [];
}

abbrev waiter : ℕ → ℕ → ℕ → Waiter
waiter k t h = record { ticket = k; thread = t; holder = h }

-- While a container stops, the wait of the last call times out.
abbrev full_history : List Op
full_history =
    acquires (waiter 0 0 10) 100 true true
    ∷ acquires (waiter 1 1 11) 200 true true
    ∷ acquires (waiter 2 2 12) 300 true true
    ∷ acquires (waiter 3 2 13) 400 true true
    ∷ acquires (waiter 9 4 14) 450 true true
    ∷ []

abbrev full_pool : Pool
full_pool = after_ops config full_history empty_pool

abbrev later_history : List Op
later_history = releases 0 10 500 ∷ releases 1 11 600 ∷ resumes 2 700 true ∷ []

abbrev later_pool : Pool
later_pool = after_ops config later_history full_pool

after_ops-Fits_example : Fits 2 (after_ops config later_history full_pool)
after_ops-Fits_example =
    after_ops-Fits config 2 (omega arith) later_history full_pool
      (after_ops-Fits config 2 (omega arith) full_history empty_pool (empty_pool-Fits 2))

-- Thread 0 still uses container 0 when the two wait.
full_pool-Holds : Holds 0 10 0 full_pool.slots
unfolding find_slot after_ops after_op contains
full_pool-Holds = record {
  slot = record { thread = 0; container = 0; holder = 10 ∷ []; last_used = 100 };
  found = refl;
  container = refl;
  holder = refl;
}

after_op-Holds_example : Holds 0 10 0 (after_op config (sweeps 1500) full_pool).slots
unfolding may_end after_ops after_op
after_op-Holds_example =
    after_op-Holds config 0 10 0 (sweeps 1500) full_pool refl (refl, (refl, tt)) full_pool-Holds

after_op-IsPumped_example : IsPumped config (after_op config (releases 0 10 500) full_pool)
unfolding pumps after_ops after_op
after_op-IsPumped_example =
    after_op-IsPumped config (releases 0 10 500) full_pool refl (refl, (refl, tt))

start_granted-IsLeak_example : IsLeak 2 12 later_pool (start_granted 3 800 true later_pool).1
unfolding after_ops after_op find_slot find_waiter contains
start_granted-IsLeak_example =
    start_granted-IsLeak 2 12 3 800
      (record { thread = 2; container = 2; holder = 12 ∷ []; last_used = 700 }) (waiter 3 2 13)
      later_pool refl refl refl refl (λ e. ground arith)
