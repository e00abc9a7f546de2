-- ===== src/Run/Decision.antt =====
-- The teacher's decisions on a suspended run: src/app/run/decision.py.
-- `DecisionError` keeps which rule is broken and the index it names, not the wording. The JSON
-- arguments of an edited action are their serialised text. `Field(ge=0)` on `index` is the type ℕ.
pub mod Order
pub mod Check
pub mod Resume
use fin_agent_platform.Prelude.{
  ℕ, zero, suc, ◌+◌, Bool, true, false, not, ◌&&◌, ◌||◌, Option, none, some, List, [], ◌∷◌, map,
  Text, ◌==◌, leb, if◌then◌else◌, length, contains,
}

-- `DecisionType`
pub data DecisionType : Type 0 where
  approve reject edit respond : DecisionType

-- `EditedAction`
pub record EditedAction : Type 0 where
  pub name : Text
  pub args : Text

-- `Decision`
pub record Decision : Type 0 where
  pub index : ℕ
  pub type : DecisionType
  pub message : Option Text
  pub edited_action : Option EditedAction

pub data DecisionError : Type 0 where
  nothing_pending duplicate_index not_covering : DecisionError
  edit_without_action respond_without_message : ℕ → DecisionError

-- `str.isspace` of one character
unfoldable pub is_space : ℕ → Bool
is_space c =
    (leb 9 c && leb c 13)
    || (leb 28 c && leb c 32)
    || c == 0x85
    || c == 0xa0
    || c == 0x1680
    || (leb 0x2000 c && leb c 0x200a)
    || c == 0x2028
    || c == 0x2029
    || c == 0x202f
    || c == 0x205f
    || c == 0x3000

-- `not text.strip()`
unfoldable pub is_blank : Text → Bool
unfolding is_space
is_blank [] = true
is_blank (c ∷ s) = is_space c && is_blank s

-- `(message or "")`
abbrev pub or_empty : Option Text → Text
or_empty none = []
or_empty (some t) = t

-- `set(xs)`, as the list of its members
unfoldable pub unique : List ℕ → List ℕ
unfolding contains
unique [] = []
unique (x ∷ xs) = let rest = unique xs in if contains x xs then rest else x ∷ rest

-- `set(xs) <= set(ys)`
unfoldable pub is_subset : List ℕ → List ℕ → Bool
unfolding contains
is_subset [] ys = true
is_subset (x ∷ xs) ys = contains x ys && is_subset xs ys

-- `range(start, start + n)`
unfoldable pub range_from : ℕ → ℕ → List ℕ
range_from start zero = []
range_from start (suc n) = start ∷ range_from (start + 1) n

abbrev pub indexes : List Decision → List ℕ
indexes [] = []
indexes (d ∷ ds) = d.index ∷ indexes ds

abbrev pub is_none : Option EditedAction → Bool
is_none none = true
is_none (some _) = false

-- The body of the loop of `check`, on one decision.
abbrev pub flaw_of : DecisionType → Decision → Option DecisionError
flaw_of edit d = if is_none d.edited_action then some (edit_without_action d.index) else none
flaw_of respond d =
    if is_blank (or_empty d.message) then some (respond_without_message d.index) else none
flaw_of _ d = none

-- The loop: the first flaw is raised.
unfoldable pub first_flaw : List Decision → Option DecisionError
unfolding is_blank
first_flaw [] = none
first_flaw (d ∷ ds) =
    let rest = first_flaw ds in elim (flaw_of d.type d) [ none ↦ rest | some e ↦ some e ]

-- `check`; `none` is a return without an exception.
unfoldable pub check : List Decision → ℕ → Option DecisionError
unfolding first_flaw unique is_subset range_from
check decisions expected =
    let seen = indexes decisions in
    let all = range_from 0 expected in
    if expected == 0
    then some nothing_pending
    else if not (length seen == length (unique seen))
    then some duplicate_index
    else if not (is_subset seen all && is_subset all seen)
    then some not_covering
    else first_flaw decisions

-- `sorted(decisions, key=lambda one: one.index)`, which is stable.
unfoldable pub insert : Decision → List Decision → List Decision
insert d [] = d ∷ []
insert d (e ∷ ds) = let rest = insert d ds in if leb d.index e.index then d ∷ e ∷ ds else e ∷ rest

unfoldable pub sort : List Decision → List Decision
unfolding insert
sort [] = []
sort (d ∷ ds) = insert d (sort ds)

-- The dictionary that DeepAgents takes for one decision.
pub record Payload : Type 0 where
  pub type : DecisionType
  pub edited_action : Option EditedAction
  pub message : Option Text

abbrev pub is_edit : DecisionType → Bool
is_edit edit = true
is_edit _ = false

-- `_one`
abbrev pub one : Decision → Payload
one d =
    if is_edit d.type && not (is_none d.edited_action)
    then record { type = d.type; edited_action = d.edited_action; message = none }
    else record { type = d.type; edited_action = none; message = d.message }

unfoldable pub to_resume : List Decision → List Payload
unfolding sort
to_resume decisions = map one (sort decisions)
