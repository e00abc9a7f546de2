-- ===== src/Quota.antt =====
-- The daily quota: src/app/quota/usage.py and `QuotaPolicy` of src/app/quota/policy.py.
-- `day_start` goes through a time zone of the zoneinfo package, so the start of the day is an
-- argument. The two sums of `token_today` are over `runs` and over `memory_usage`.
pub mod Booking
pub mod Rate
use fin_agent_platform.Prelude.{
  ℕ, ◌+◌, ◌*◌, Bool, true, false, not, ◌&&◌, Option, none, some, List, [], ◌∷◌, Text, ◌==◌, leb,
  if◌then◌else◌,
}
use fin_agent_platform.Schema.{RunRow, Db}
use fin_agent_platform.Run.Repository.Table.{find}
use fin_agent_platform.Run.Query.{is_owner}
use fin_agent_platform.Memory.Usage.{UsageRow}

-- `UserRole`
pub data UserRole : Type 0 where
  admin reviewer teacher student : UserRole

-- `Allowance`: no `token_daily` is no limit.
pub record Allowance : Type 0 where
  pub token_daily : Option ℕ
  pub concurrent_run : ℕ

abbrev pub default_token_daily : UserRole → Option ℕ
default_token_daily admin = none
default_token_daily reviewer = some 1000000
default_token_daily teacher = some 1000000
default_token_daily student = some 400000

abbrev pub default_concurrent_run : UserRole → ℕ
default_concurrent_run student = 2
default_concurrent_run _ = 3

abbrev or_daily : Option ℕ → Option ℕ → Option ℕ
or_daily none role = role
or_daily (some n) role = some n

abbrev or_concurrent : Option ℕ → ℕ → ℕ
or_concurrent none role = role
or_concurrent (some n) role = n

-- `allow`, of a policy with the two tables of limits.
unfoldable pub allow :
    (UserRole → Option ℕ) → (UserRole → ℕ) → UserRole → Option ℕ → Option ℕ → Allowance
allow daily concurrent role token_daily concurrent_run = record {
  token_daily = or_daily token_daily (daily role);
  concurrent_run = or_concurrent concurrent_run (concurrent role);
}

-- `SUM(…)`, with `coalesce(…, 0)`
unfoldable pub total {ℓ} : {A : Type ℓ} → (A → ℕ) → List A → ℕ
total g [] = 0
total g (r ∷ t) = g r + total g t

-- What a row of `runs` adds to the first sum; tokens read from the cache are not counted.
abbrev pub run_equivalent : ℕ → ℕ → ℕ → RunRow → ℕ
run_equivalent weight owner since r =
    if is_owner owner r.user_id && leb since r.started_at
    then r.tokens_uncached + r.tokens_output * weight
    else 0

-- `JOIN runs ON runs.id = memory_usage.run_id WHERE runs.user_id = owner`
abbrev pub owns : ℕ → Option RunRow → Bool
owns owner none = false
owns owner (some r) = is_owner owner r.user_id

abbrev pub memory_equivalent : ℕ → ℕ → ℕ → List RunRow → UsageRow → ℕ
memory_equivalent weight owner since runs u =
    if owns owner (find u.run_id runs) && leb since u.created_at && not u.included_in_run
    then u.tokens_uncached + u.tokens_output * weight
    else 0

-- `token_today`; `since` is `day_start(now)`.
unfoldable pub token_today : (Text → Option ℕ) → ℕ → Text → ℕ → Db → List UsageRow → ℕ
unfolding total find
token_today parse weight user_id since db usages = elim (parse user_id) [
  | none ↦ 0
  | some owner ↦
      total (run_equivalent weight owner since) db.runs
      + total (memory_equivalent weight owner since db.runs) usages
]
