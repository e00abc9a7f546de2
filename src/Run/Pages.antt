-- ===== src/Run/Pages.antt =====
-- The history of a thread, page by page: `list_by_thread` of src/app/run/repository.py and `split` of
-- src/cursor.py. A cursor is the position that it encodes, so it is one that `decode` accepts; the
-- base64 text around it is not modelled. `hex` is `UUID.hex`, and `parse` is `UUID(…)`.
pub mod Sorted
pub mod Cuts
pub mod Complete
use fin_agent_platform.Prelude.{
  ℕ, zero, suc, ◌+◌, Bool, true, false, ◌&&◌, ◌||◌, Option, none, some, List, [], ◌∷◌, ◌++◌, map,
  Text, ◌==◌, ltb, if◌then◌else◌, length, take, filter,
}
use fin_agent_platform.Schema.{TokenUsage, RunStatus, RunErrorCode, RunRow, Db, run_tokens}
use fin_agent_platform.Run.Query.{is_owner, or_empty_object}

-- `RunDetail`
pub record RunDetail : Type 0 where
  pub id : Text
  pub thread_id : Text
  pub status : RunStatus
  pub content : Option Text
  pub tokens : TokenUsage
  pub error_code : Option RunErrorCode
  pub error_message : Option Text
  pub started_at : ℕ
  pub ended_at : Option ℕ
  pub agent_config : Text

-- `to_detail`
abbrev pub to_detail : (ℕ → Text) → RunRow → RunDetail
to_detail hex r = record {
  id = hex r.id;
  thread_id = hex r.thread_id;
  status = r.status;
  content = r.content;
  tokens = run_tokens r;
  error_code = r.error_code;
  error_message = r.error_message;
  started_at = r.started_at;
  ended_at = r.ended_at;
  agent_config = or_empty_object r.agent_config;
}

abbrev pub Position : Type 0
Position = ℕ × ℕ

abbrev pub position : RunRow → Position
position r = (r.started_at, r.id)

-- `<` on the tuple of the two columns
abbrev pub position_lt : Position → Position → Bool
position_lt p q = ltb p.0 q.0 || (p.0 == q.0 && ltb p.1 q.1)

-- `ORDER BY started_at DESC, id DESC`
abbrev pub is_newer : RunRow → RunRow → Bool
is_newer r s = position_lt (position s) (position r)

unfoldable pub insert_newest : RunRow → List RunRow → List RunRow
insert_newest r [] = r ∷ []
insert_newest r (s ∷ t) =
    let rest = insert_newest r t in if is_newer r s then r ∷ s ∷ t else s ∷ rest

unfoldable pub newest_first : List RunRow → List RunRow
unfolding insert_newest
newest_first [] = []
newest_first (r ∷ t) = insert_newest r (newest_first t)

-- `Page`
pub record Page : Type 0 where
  pub items : List RunDetail
  pub next_cursor : Option Position

-- `split`
abbrev pub split : List RunRow → ℕ → List RunRow × Bool
split found limit = (take limit found, ltb limit (length found))

-- `page[-1]`; `none` is its `IndexError`.
abbrev pub last_row : List RunRow → Option RunRow
last_row [] = none
last_row (r ∷ []) = some r
last_row (_ ∷ r ∷ t) = last_row (r ∷ t)

abbrev pub page_of : (ℕ → Text) → List RunRow → Bool → Option RunRow → Option Page
page_of hex page false _ = some (record { items = map (to_detail hex) page; next_cursor = none })
page_of hex page true none = none
page_of hex page true (some r) =
    some (record { items = map (to_detail hex) page; next_cursor = some (position r) })

abbrev pub in_thread : ℕ → ℕ → RunRow → Bool
in_thread thread owner r = r.thread_id == thread && is_owner owner r.user_id

abbrev pub is_beyond : Option Position → RunRow → Bool
is_beyond none r = true
is_beyond (some cursor) r = position_lt (position r) cursor

-- The rows that the query may return, before its `LIMIT`.
unfoldable pub rows_beyond : ℕ → ℕ → Option Position → List RunRow → List RunRow
unfolding newest_first filter
rows_beyond thread owner cursor t =
    newest_first (filter (λ r. in_thread thread owner r && is_beyond cursor r) t)

abbrev pub list_parsed :
    (ℕ → Text) → Option ℕ → Option ℕ → Option Position → ℕ → List RunRow → Option Page
list_parsed hex (some thread) (some owner) cursor limit t =
    let (page, has_more) = split (take (limit + 1) (rows_beyond thread owner cursor t)) limit in
    page_of hex page has_more (last_row page)
list_parsed hex _ _ cursor limit t = some (record { items = []; next_cursor = none })

-- `list_by_thread`
unfoldable pub list_by_thread :
    (ℕ → Text) → (Text → Option ℕ) → Text → Text → Option Position → ℕ → Db → Option Page
unfolding rows_beyond
list_by_thread hex parse thread_id user_id cursor limit db =
    list_parsed hex (parse thread_id) (parse user_id) cursor limit db.runs
