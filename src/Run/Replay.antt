-- ===== src/Run/Replay.antt =====
-- `collapse` of src/app/run/replay.py: neighbouring increments of one text become one event.
pub mod Faithful
use fin_agent_platform.Prelude.{
  ℕ, Bool, true, false, ◌&&◌, Option, none, some, List, [], ◌∷◌, ◌++◌, Text, if◌then◌else◌,
}
use fin_agent_platform.Event.{
  EventData, token_data, reasoning_data, LoggedEvent, EventType, token, reasoning, type_of,
  same_type, same_path,
}

-- `current.event.type in MERGEABLE_TYPE`
unfoldable pub is_mergeable_type : EventType → Bool
is_mergeable_type token = true
is_mergeable_type reasoning = true
is_mergeable_type _ = false

-- `_mergeable`
unfoldable pub mergeable : LoggedEvent → LoggedEvent → Bool
unfolding is_mergeable_type same_type
mergeable previous current =
    is_mergeable_type (type_of current.event.data_)
    && same_type (type_of previous.event.data_) (type_of current.event.data_)
    && same_path previous.event.path current.event.path

abbrev pub text_of : EventData → Option Text
text_of (token_data t) = some t
text_of (reasoning_data t) = some t
text_of _ = none

-- `head.model_copy(update={"text": …})`
abbrev pub with_text : EventData → Text → EventData
with_text (token_data _) t = token_data t
with_text (reasoning_data _) t = reasoning_data t
with_text d t = d

-- `_merge`; `none` is its `TypeError`.
unfoldable pub merge : LoggedEvent → LoggedEvent → Option LoggedEvent
merge previous current = elim (text_of previous.event.data_) [
  | none ↦ none
  | some head ↦ elim (text_of current.event.data_) [
    | none ↦ none
    | some tail ↦ some (record current {
      event = record current.event { data_ = with_text previous.event.data_ (head ++ tail) };
    })
  ]
]

abbrev pub prepend : LoggedEvent → Option (List LoggedEvent) → Option (List LoggedEvent)
prepend e none = none
prepend e (some es) = some (e ∷ es)

-- The loop, with `collapsed[-1]` held apart: it changes until an event comes that does not join it.
unfoldable pub collapse_after : LoggedEvent → List LoggedEvent → Option (List LoggedEvent)
collapse_after previous [] = some (previous ∷ [])
collapse_after previous (logged ∷ events) =
    let apart = prepend previous (collapse_after logged events) in
    let joined : Option (List LoggedEvent) = elim (merge previous logged) [
      | none ↦ none
      | some m ↦ collapse_after m events
    ] in
    if mergeable previous logged then joined else apart

unfoldable pub collapse : List LoggedEvent → Option (List LoggedEvent)
unfolding collapse_after
collapse [] = some []
collapse (logged ∷ events) = collapse_after logged events
