-- ===== src/Mcp.antt =====
-- `McpRepository` of src/app/preset/mcp.py: the catalogue of servers, the list of the rows of its
-- table. `parse` is `UUID(…)`, `is_user` the foreign keys of the users; a reviewer is a user.
pub mod Circuit
pub mod Reviewed
pub mod Tripped
use fin_agent_platform.Prelude.{
  ℕ, Bool, true, false, not, ◌&&◌, ◌||◌, Option, none, some, List, [], ◌∷◌, Text, text_eq, ◌==◌,
  if◌then◌else◌,
}
use fin_agent_platform.Prelude.Sql.{update_where, any_where}

pub data McpTransport : Type 0 where
  streamable_http sse : McpTransport

pub data McpStatus : Type 0 where
  pending enabled disabled rejected : McpStatus

abbrev pub is_pending : McpStatus → Bool
is_pending pending = true
is_pending _ = false

abbrev pub is_enabled : McpStatus → Bool
is_enabled enabled = true
is_enabled _ = false

-- `in_([McpStatus.ENABLED, McpStatus.DISABLED])`
abbrev pub is_decided : McpStatus → Bool
is_decided enabled = true
is_decided disabled = true
is_decided _ = false

-- `MCP_NAME_CONDITION`
abbrev pub holds_name : McpStatus → Bool
holds_name rejected = false
holds_name _ = true

-- `McpApplication`
pub record McpApplication : Type 0 where
  pub name : Text
  pub description : Text
  pub url : Text
  pub transport : McpTransport
  pub credential_key : Option Text
  pub tool_names : List Text
  pub latency_note : Text
  pub stores_user_data : Bool
  pub sends_data_out : Bool
  pub has_write_operation : Bool

-- `McpServerRecord`, its fields from the application together.
pub record McpServerRecord : Type 0 where
  pub id : ℕ
  pub application : McpApplication
  pub status : McpStatus
  pub disabled_reason : Option Text
  pub submitted_by : ℕ
  pub reviewed_by : Option ℕ
  pub created_at : ℕ
  pub updated_at : ℕ

-- What the insert clashes with: the primary key and the index `ux_mcp_servers_name`.
abbrev pub clashes : ℕ → Text → McpServerRecord → Bool
clashes id name r = r.id == id || (holds_name r.status && text_eq r.application.name name)

abbrev pub new_server : McpApplication → ℕ → ℕ → ℕ → McpServerRecord
new_server application submitter id now = record {
  id = id;
  application = application;
  status = pending;
  disabled_reason = none;
  submitted_by = submitter;
  reviewed_by = none;
  created_at = now;
  updated_at = now;
}

abbrev pub add_server :
    (ℕ → Bool)
    → McpApplication
    → Option ℕ
    → ℕ
    → ℕ
    → List McpServerRecord
    → Option McpServerRecord × List McpServerRecord
add_server is_user application none id now rows = (none, rows)
add_server is_user application (some submitter) id now rows =
    if not (is_user submitter) || any_where (clashes id application.name) rows
    then (none, rows)
    else let r = new_server application submitter id now in (some r, r ∷ rows)

-- `UPDATE … WHERE id = … AND status … RETURNING id`
unfoldable pub update_server :
    Option ℕ
    → (McpStatus → Bool)
    → (McpServerRecord → McpServerRecord)
    → List McpServerRecord
    → Bool × List McpServerRecord
unfolding update_where any_where
update_server none allowed change rows = (false, rows)
update_server (some id) allowed change rows = (
  any_where (λ r. r.id == id && allowed r.status) rows,
  update_where (λ r. r.id == id && allowed r.status) change rows,
)

abbrev pub decide_by :
    Option ℕ
    → Option ℕ
    → Bool
    → Option Text
    → ℕ
    → List McpServerRecord
    → Bool × List McpServerRecord
decide_by identifier none approved reason now rows = (false, rows)
decide_by identifier (some reviewer) approved reason now rows =
    update_server identifier is_pending
      (λ r. record r {
        status = (if approved then enabled else rejected);
        disabled_reason = (if approved then none else reason);
        reviewed_by = some reviewer;
        updated_at = now;
      })
      rows

module _ (parse : Text → Option ℕ) where
  -- `apply`; the record stands for what `_to_server` makes of it, `id` is `uuid4()`.
  unfoldable pub apply :
      (ℕ → Bool)
      → McpApplication
      → Text
      → ℕ
      → ℕ
      → List McpServerRecord
      → Option McpServerRecord × List McpServerRecord
  unfolding any_where
  apply is_user application submitted_by id now rows =
      add_server is_user application (parse submitted_by) id now rows

  -- `decide`
  unfoldable pub decide :
      Text → Text → Bool → Option Text → ℕ → List McpServerRecord → Bool × List McpServerRecord
  unfolding update_server
  decide server_id reviewer_id approved reason now rows =
      decide_by (parse server_id) (parse reviewer_id) approved reason now rows

  -- `set_enabled`
  unfoldable pub set_enabled :
      Text → Bool → Option Text → ℕ → List McpServerRecord → Bool × List McpServerRecord
  unfolding update_server
  set_enabled server_id on reason now rows =
      update_server (parse server_id) is_decided
        (λ r. record r {
          status = (if on then enabled else disabled);
          disabled_reason = (if on then none else reason);
          updated_at = now;
        })
        rows

  -- `disable_for_failure`
  unfoldable pub disable_for_failure :
      Text → Text → ℕ → List McpServerRecord → Bool × List McpServerRecord
  unfolding update_server
  disable_for_failure server_id reason now rows =
      update_server (parse server_id) is_enabled
        (λ r. record r { status = disabled; disabled_reason = some reason; updated_at = now }) rows
