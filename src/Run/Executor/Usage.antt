-- ===== src/Run/Executor/Usage.antt =====
-- What a chunk of the agent costs.
-- Code: `_token_usage`, `_split_usage` and `_as_int` of src/app/run/executor.py.
-- A count that is not an `int` is `none`; a node update or a list of messages of another shape is
-- `none` too. Counts are natural numbers.
use fin_agent_platform.Prelude.{ℕ, ◌-◌, Bool, true, false, Option, none, some, List, [], ◌∷◌}
use fin_agent_platform.Schema.{TokenUsage, no_tokens, add_tokens}
use fin_agent_platform.Event.{Event}

-- `usage_metadata`
pub record Metadata : Type 0 where
  pub input_tokens : Option ℕ
  pub cache_read : Option ℕ
  pub output_tokens : Option ℕ

-- A chunk: whether its mode is `updates`, its payload, what the selector reported before it, what
-- the flag answers, and the events that the mapper makes of it.
pub record Chunk : Type 0 where
  pub is_updates : Bool
  pub payload : List (Option (List (Option Metadata)))
  pub reported : TokenUsage
  pub flagged : Bool
  pub events : List Event

-- `_as_int`
abbrev pub as_int : Option ℕ → ℕ
as_int none = 0
as_int (some n) = n

-- `_split_usage`; `max(0, …)` is the subtraction of natural numbers.
unfoldable pub split_usage : Metadata → TokenUsage
split_usage u = record {
  input_cache_read = as_int u.cache_read;
  input_uncached = as_int u.input_tokens - as_int u.cache_read;
  output = as_int u.output_tokens;
}

unfoldable pub messages_usage : List (Option Metadata) → TokenUsage
unfolding split_usage
messages_usage [] = no_tokens
messages_usage (none ∷ l) = messages_usage l
messages_usage (some u ∷ l) = add_tokens (split_usage u) (messages_usage l)

unfoldable pub updates_usage : List (Option (List (Option Metadata))) → TokenUsage
unfolding messages_usage
updates_usage [] = no_tokens
updates_usage (none ∷ l) = updates_usage l
updates_usage (some ms ∷ l) = add_tokens (messages_usage ms) (updates_usage l)

-- `_token_usage`
unfoldable pub token_usage : Bool → List (Option (List (Option Metadata))) → TokenUsage
unfolding updates_usage
token_usage false payload = no_tokens
token_usage true payload = updates_usage payload
