-- ===== src/Run/Query.antt =====
-- The queries of `RunRepository`, src/app/run/repository.py. `hex` is `UUID.hex`, and `parse` is
-- `UUID(…)`. A configuration column that is NULL reads as the empty object; the validation of the
-- snapshots by pydantic is not modelled.
pub mod Members
use fin_agent_platform.Prelude.{
  ℕ, zero, suc, ◌+◌, ◌-◌, Bool, true, false, not, ◌&&◌, ◌||◌, Option, none, some, List, [], ◌∷◌,
  map, Text, text, ◌==◌, ltb, leb, if◌then◌else◌, contains, filter,
}
use fin_agent_platform.Prelude.Sql.{count_where}
use fin_agent_platform.Schema.{
  TokenUsage, RunStatus, is_in, same_status, unfinished_status, live_status, active_status,
  waiting_approval, RunRow, run_tokens, Db,
}
use fin_agent_platform.Run.Repository.Table.{find}

-- `Run`
pub record Run : Type 0 where
  pub id : Text
  pub thread_id : Text
  pub status : RunStatus
  pub tokens : TokenUsage
  pub agent_config : Text
  pub user_context : Option Text

abbrev pub or_empty_object : Option Text → Text
or_empty_object none = text "{}"
or_empty_object (some t) = t

-- `to_run`
abbrev pub to_run : (ℕ → Text) → RunRow → Run
to_run hex r = record {
  id = hex r.id;
  thread_id = hex r.thread_id;
  status = r.status;
  tokens = run_tokens r;
  agent_config = or_empty_object r.agent_config;
  user_context = r.user_context;
}

abbrev pub is_owner : ℕ → Option ℕ → Bool
is_owner owner none = false
is_owner owner (some u) = u == owner

-- `get`: another user's run and a missing one give the same answer.
abbrev pub owned_run : (ℕ → Text) → ℕ → Option RunRow → Option Run
owned_run hex owner none = none
owned_run hex owner (some r) = if is_owner owner r.user_id then some (to_run hex r) else none

abbrev pub get_parsed : (ℕ → Text) → Option ℕ → Option ℕ → Db → Option Run
get_parsed hex (some identifier) (some owner) db = owned_run hex owner (find identifier db.runs)
get_parsed hex _ _ db = none

unfoldable pub get : (ℕ → Text) → (Text → Option ℕ) → Text → Text → Db → Option Run
unfolding find
get hex parse run_id user_id db = get_parsed hex (parse run_id) (parse user_id) db

-- `ORDER BY started_at`
unfoldable pub insert_by_start : RunRow → List RunRow → List RunRow
insert_by_start r [] = r ∷ []
insert_by_start r (s ∷ t) =
    let rest = insert_by_start r t in if leb r.started_at s.started_at then r ∷ s ∷ t else s ∷ rest

unfoldable pub by_start : List RunRow → List RunRow
unfolding insert_by_start
by_start [] = []
by_start (r ∷ t) = insert_by_start r (by_start t)

abbrev pub is_older : Option ℕ → RunRow → Bool
is_older none r = true
is_older (some cutoff) r = ltb r.started_at cutoff

abbrev pub is_unfinished : Option ℕ → RunRow → Bool
is_unfinished cutoff r = is_in r.status unfinished_status && is_older cutoff r

-- `unfinished`, before `to_run`
unfoldable pub unfinished : Option ℕ → Db → List RunRow
unfolding by_start filter
unfinished started_before db = by_start (filter (is_unfinished started_before) db.runs)

-- `live_count`, as the count of one status; a status without runs has no entry.
unfoldable pub live_count : RunStatus → Db → Option ℕ
unfolding count_where
live_count s db =
    let n = count_where (λ r. is_in r.status live_status && same_status r.status s) db.runs in
    if n == 0 then none else some n

-- `pending_count` of src/app/run/approval.py: a user that does not parse has none.
unfoldable pub pending_count : (Text → Option ℕ) → Text → Db → ℕ
unfolding count_where
pending_count parse user_id db = elim (parse user_id) [
  | none ↦ 0
  | some owner ↦
      count_where (λ r. is_owner owner r.user_id && same_status r.status waiting_approval) db.runs
]

-- `active_run` of src/app/quota/usage.py
unfoldable pub active_run : (Text → Option ℕ) → Text → Db → ℕ
unfolding count_where
active_run parse user_id db = elim (parse user_id) [
  | none ↦ 0
  | some owner ↦ count_where (λ r. is_owner owner r.user_id && is_in r.status active_status) db.runs
]
