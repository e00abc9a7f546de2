-- ===== src/Mcp/Reviewed.antt =====
-- No server is in use that nobody has reviewed.
-- Code: `McpRepository` of src/app/preset/mcp.py.
use fin_agent_platform.Prelude.{
  ℕ, ◌≡◌, refl, inl, inr, Bool, true, false, not, ◌&&◌, ◌||◌, Bool-cases, Option, none, some, List,
  [], ◌∷◌, Text, ◌==◌, if◌then◌else◌, arith,
}
use fin_agent_platform.Prelude.Sql.{update_where, any_where}
use fin_agent_platform.Mcp.{
  McpApplication, McpServerRecord, McpStatus, pending, enabled, disabled, rejected, is_pending,
  is_enabled, is_decided, apply, add_server, decide_by, clashes, update_server, decide, set_enabled,
  disable_for_failure,
}

abbrev pub is_some : Option ℕ → Bool
is_some none = false
is_some (some n) = true

abbrev pub is_reviewed : McpServerRecord → Bool
is_reviewed r = if is_pending r.status then true else is_some r.reviewed_by

-- Whatever is not pending has a reviewer.
unfoldable pub all_reviewed : List McpServerRecord → Bool
all_reviewed [] = true
all_reviewed (r ∷ rows) = is_reviewed r && all_reviewed rows

-- The operations, in the order in which they are done.
pub data Edit : Type 0 where
  applied : McpApplication → Text → ℕ → ℕ → Edit
  decided : Text → Text → Bool → Option Text → ℕ → Edit
  switched : Text → Bool → Option Text → ℕ → Edit
  failed : Text → Text → ℕ → Edit

module _ (parse : Text → Option ℕ) (is_user : ℕ → Bool) where
  unfoldable pub after_edit : Edit → List McpServerRecord → List McpServerRecord
  unfolding apply decide set_enabled disable_for_failure
  after_edit (applied a by id now) rows = (apply parse is_user a by id now rows).1
  after_edit (decided s by ok why now) rows = (decide parse s by ok why now rows).1
  after_edit (switched s on why now) rows = (set_enabled parse s on why now rows).1
  after_edit (failed s why now) rows = (disable_for_failure parse s why now rows).1

  unfoldable pub after_edits : List Edit → List McpServerRecord → List McpServerRecord
  unfolding after_edit
  after_edits [] rows = rows
  after_edits (o ∷ ops) rows = after_edits ops (after_edit o rows)

update_where-reviewed :
    (id : ℕ) (allowed : McpStatus → Bool) (change : McpServerRecord → McpServerRecord)
    (rows : List McpServerRecord)
    → ((r : McpServerRecord)
        → allowed r.status ≡ true
        → is_reviewed r ≡ true
        → is_reviewed (change r) ≡ true)
    → all_reviewed rows ≡ true
    → all_reviewed (update_where (λ r. r.id == id && allowed r.status) change rows) ≡ true
unfolding all_reviewed update_where
update_where-reviewed id allowed change [] kept h = refl
update_where-reviewed id allowed change (r ∷ rows) kept h =
    ground (arith, kept r, update_where-reviewed id allowed change rows kept, h)

update_server-reviewed :
    (id : Option ℕ) (allowed : McpStatus → Bool) (change : McpServerRecord → McpServerRecord)
    (rows : List McpServerRecord)
    → ((r : McpServerRecord)
        → allowed r.status ≡ true
        → is_reviewed r ≡ true
        → is_reviewed (change r) ≡ true)
    → all_reviewed rows ≡ true
    → all_reviewed (update_server id allowed change rows).1 ≡ true
unfolding update_server
update_server-reviewed none allowed change rows kept h = h
update_server-reviewed (some id) allowed change rows kept h =
    update_where-reviewed id allowed change rows kept h

add_server-reviewed :
    (is_user : ℕ → Bool) (a : McpApplication) (by : Option ℕ) (id now : ℕ)
    (rows : List McpServerRecord)
    → all_reviewed rows ≡ true
    → all_reviewed (add_server is_user a by id now rows).1 ≡ true
unfolding all_reviewed
add_server-reviewed is_user a none id now rows h = h
add_server-reviewed is_user a (some by) id now rows h =
    elim (Bool-cases (not (is_user by) || any_where (clashes id a.name) rows)) [
      | inl clash ↦ rw clash h
      | inr free ↦ rw free h
    ]

decide_by-reviewed :
    (id by : Option ℕ) (ok : Bool) (why : Option Text) (now : ℕ) (rows : List McpServerRecord)
    → all_reviewed rows ≡ true
    → all_reviewed (decide_by id by ok why now rows).1 ≡ true
decide_by-reviewed id none ok why now rows h = h
decide_by-reviewed id (some by) true why now rows h =
    update_server-reviewed id is_pending _ rows (λ r a k. refl) h
decide_by-reviewed id (some by) false why now rows h =
    update_server-reviewed id is_pending _ rows (λ r a k. refl) h

-- What is decided already has a reviewer.
decided_reviewed :
    (s : McpStatus) (by : Option ℕ)
    → is_decided s ≡ true
    → (if is_pending s then true else is_some by) ≡ true
    → is_some by ≡ true
decided_reviewed pending by d h = ground arith
decided_reviewed enabled by d h = h
decided_reviewed disabled by d h = h
decided_reviewed rejected by d h = ground arith

enabled_decided : (s : McpStatus) → is_enabled s ≡ true → is_decided s ≡ true
enabled_decided pending e = ground arith
enabled_decided enabled e = refl
enabled_decided disabled e = ground arith
enabled_decided rejected e = ground arith

after_edit-reviewed :
    (parse : Text → Option ℕ) (is_user : ℕ → Bool) (o : Edit) (rows : List McpServerRecord)
    → all_reviewed rows ≡ true
    → all_reviewed (after_edit parse is_user o rows) ≡ true
unfolding after_edit apply decide set_enabled disable_for_failure
after_edit-reviewed parse is_user (applied a by id now) rows h =
    add_server-reviewed is_user a (parse by) id now rows h
after_edit-reviewed parse is_user (decided s by ok why now) rows h =
    decide_by-reviewed (parse s) (parse by) ok why now rows h
after_edit-reviewed parse is_user (switched s true why now) rows h =
    update_server-reviewed (parse s) is_decided _ rows
      (λ r d k. decided_reviewed r.status r.reviewed_by d k) h
after_edit-reviewed parse is_user (switched s false why now) rows h =
    update_server-reviewed (parse s) is_decided _ rows
      (λ r d k. decided_reviewed r.status r.reviewed_by d k) h
after_edit-reviewed parse is_user (failed s why now) rows h =
    update_server-reviewed (parse s) is_enabled _ rows
      (λ r e k. decided_reviewed r.status r.reviewed_by (enabled_decided r.status e) k) h

-- From a table in which whatever is not pending has a reviewer, such a table comes of any sequence of
-- applications, decisions, switches and failures: no server is enabled or disabled unreviewed.
pub after_edits-reviewed :
    (parse : Text → Option ℕ) (is_user : ℕ → Bool) (ops : List Edit) (rows : List McpServerRecord)
    → all_reviewed rows ≡ true
    → all_reviewed (after_edits parse is_user ops rows) ≡ true
unfolding after_edits
after_edits-reviewed parse is_user [] rows h = h
after_edits-reviewed parse is_user (o ∷ ops) rows h =
    after_edits-reviewed parse is_user ops (after_edit parse is_user o rows)
      (after_edit-reviewed parse is_user o rows h)
