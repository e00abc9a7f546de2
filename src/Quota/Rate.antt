-- ===== src/Quota/Rate.antt =====
-- `RateLimiter` of src/app/quota/rate.py, for one key: the sorted set of the requests that it let
-- through, by their times. The members are fresh, so the set is a list; its expiry drops nothing that
-- the next count would not drop. A call is its two pipelines, and those of other calls may come between.
pub mod Window
use fin_agent_platform.Prelude.{
  ℕ, ◌+◌, Bool, true, false, List, [], ◌∷◌, leb, ltb, if◌then◌else◌, length, filter, contains, ◌==◌,
}

pub record Rate : Type 0 where
  pub limit : ℕ
  pub window : ℕ

-- Not older than the window: `now - window` is the last score removed.
abbrev pub is_recent : Rate → ℕ → ℕ → Bool
is_recent r now t = ltb now (t + r.window)

-- `counting`: `ZREMRANGEBYSCORE` and `ZCARD`.
unfoldable pub counting : Rate → ℕ → List ℕ → List ℕ
unfolding filter
counting r now times = filter (is_recent r now) times

-- The sorted set, and the requests that were counted and are still to be recorded.
pub record Limiter : Type 0 where
  pub times : List ℕ
  pub flying : List ℕ

-- `allow`, up to its answer: the first pipeline.
unfoldable pub begin_allow : Rate → ℕ → Limiter → Bool × Limiter
unfolding counting
begin_allow r now l =
    let left = counting r now l.times in
    if leb r.limit (length left)
    then (false, record l { times = left })
    else (true, record { times = left; flying = now ∷ l.flying })

unfoldable pub remove_one : ℕ → List ℕ → List ℕ
remove_one t [] = []
remove_one t (x ∷ xs) = let rest = remove_one t xs in if x == t then xs else x ∷ rest

-- `allow`, the second pipeline, of a request that was counted at that time.
unfoldable pub end_allow : ℕ → Limiter → Limiter
unfolding remove_one contains
end_allow t l =
    if contains t l.flying
    then record { times = t ∷ l.times; flying = remove_one t l.flying }
    else l
