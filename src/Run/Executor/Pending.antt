-- ===== src/Run/Executor/Pending.antt =====
-- The subgraph that an interrupt belongs to.
-- Code: `_pending_action_path` of src/app/run/executor.py.
pub mod Assigned
use fin_agent_platform.Prelude.{
  ℕ, ◌≡◌, Bool, true, false, not, ◌&&◌, ◌||◌, Option, none, some, List, [], ◌∷◌, Text, text_eq,
  if◌then◌else◌, filter, arith,
}
use fin_agent_platform.Event.{
  Event, EventData, tool_call, tool_result, InterruptAction, LoggedEvent, same_path,
}

-- A `ToolCallEvent`: identifier, name and arguments, and its path.
pub record PendingCall : Type 0 where
  pub id : Text
  pub name : Text
  pub args : Text
  pub path : List Text

-- `x in …`, for identifiers.
unfoldable pub has_text : Text → List Text → Bool
has_text a [] = false
has_text a (x ∷ xs) = text_eq x a || has_text a xs

-- `completed`
abbrev pub result_of : EventData → Option Text
result_of (tool_result id name content status) = some id
result_of _ = none

abbrev pub call_of : List Text → EventData → Option PendingCall
call_of path (tool_call id name args) =
    some (record { id = id; name = name; args = args; path = path })
call_of path _ = none

abbrev pub cons_some {ℓ} : {A : Type ℓ} → Option A → List A → List A
cons_some none l = l
cons_some (some a) l = a ∷ l

unfoldable pub completed_calls : List LoggedEvent → List Text
completed_calls [] = []
completed_calls (l ∷ ls) = cons_some (result_of l.event.data_) (completed_calls ls)

unfoldable pub tool_calls : List LoggedEvent → List PendingCall
tool_calls [] = []
tool_calls (l ∷ ls) = cons_some (call_of l.event.path l.event.data_) (tool_calls ls)

-- `pending`
unfoldable pub pending_calls : List LoggedEvent → List PendingCall
unfolding completed_calls tool_calls has_text filter
pending_calls history =
    filter (λ (c : PendingCall). not (has_text c.id (completed_calls history))) (tool_calls history)

abbrev pub fits : List Text → InterruptAction → PendingCall → Bool
fits used action c =
    not (has_text c.id used) && (text_eq c.name action.tool_name && text_eq c.args action.args)

-- `next(… for event in reversed(pending) if …)`: the last one that fits.
unfoldable pub last_match : List Text → InterruptAction → List PendingCall → Option PendingCall
unfolding has_text
last_match used action [] = none
last_match used action (c ∷ cs) = elim (last_match used action cs) [
  | some found ↦ some found
  | none ↦ if fits used action c then some c else none
]

-- The loop over the actions; `none` is its early return.
unfoldable pub match_paths :
    List Text → List InterruptAction → List PendingCall → Option (List (List Text))
unfolding last_match
match_paths used [] cs = some []
match_paths used (a ∷ more) cs = elim (last_match used a cs) [
  | none ↦ none
  | some c ↦ elim (match_paths (c.id ∷ used) more cs) [
    | none ↦ none
    | some paths ↦ some (c.path ∷ paths)
  ]
]

unfoldable pub all_same : List Text → List (List Text) → Bool
all_same p [] = true
all_same p (q ∷ qs) = same_path q p && all_same p qs

abbrev pub common_path : Option (List (List Text)) → List Text
common_path none = []
common_path (some []) = []
common_path (some (p ∷ ps)) = if all_same p ps then p else []

-- `_pending_action_path`
unfoldable pub pending_action_path : List LoggedEvent → List InterruptAction → List Text
unfolding match_paths pending_calls all_same
pending_action_path history actions = common_path (match_paths [] actions (pending_calls history))
