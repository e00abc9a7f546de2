-- ===== src/Event.antt =====
-- The events of a run: src/app/event/model.py, and `LoggedEvent` of src/app/run/log.py.
-- The type of an event is fixed by the class of its payload, so it is a function of the payload.
-- JSON arguments are their serialised text.
use fin_agent_platform.Prelude.{
  ℕ, Bool, true, false, ◌&&◌, Option, List, [], ◌∷◌, Text, ◌==◌, text_eq,
}
use fin_agent_platform.Schema.{TokenUsage, RunErrorCode}

-- `InterruptAction`
pub record InterruptAction : Type 0 where
  pub index : ℕ
  pub tool_name : Text
  pub args : Text
  pub allowed_decisions : List Text

-- The payload classes, `…Data`.
pub data EventData : Type 0 where
  run_started : Text → Bool → EventData
  run_finished : TokenUsage → EventData
  run_failed : RunErrorCode → Text → Bool → EventData
  run_cancelled : TokenUsage → EventData
  sandbox_queued : ℕ → EventData
  sandbox_ready : EventData
  error_data : RunErrorCode → Text → EventData
  token_data : Text → EventData
  reasoning_data : Text → EventData
  tool_call : Text → Text → Text → EventData
  tool_result : Text → Text → Text → Bool → EventData
  todo_updated : List (Text × Text) → EventData
  interrupt_data : List InterruptAction → EventData
  compaction : ℕ → Option Text → EventData

-- The envelope with its payload.
pub record Event : Type 0 where
  pub ts : ℕ
  pub run_id : Text
  pub path : List Text
  pub data_ : EventData

-- The identifier is milliseconds and a sequence number.
pub record LoggedEvent : Type 0 where
  pub id : ℕ × ℕ
  pub event : Event

-- `EventType`
pub data EventType : Type 0 where
  started finished failed_type cancelled_type queued_type ready error token reasoning call result
        todo interrupt compacted :
      EventType

unfoldable pub type_of : EventData → EventType
type_of (run_started _ _) = started
type_of (run_finished _) = finished
type_of (run_failed _ _ _) = failed_type
type_of (run_cancelled _) = cancelled_type
type_of (sandbox_queued _) = queued_type
type_of sandbox_ready = ready
type_of (error_data _ _) = error
type_of (token_data _) = token
type_of (reasoning_data _) = reasoning
type_of (tool_call _ _ _) = call
type_of (tool_result _ _ _ _) = result
type_of (todo_updated _) = todo
type_of (interrupt_data _) = interrupt
type_of (compaction _ _) = compacted

unfoldable pub type_code : EventType → ℕ
type_code started = 0
type_code finished = 1
type_code failed_type = 2
type_code cancelled_type = 3
type_code queued_type = 4
type_code ready = 5
type_code error = 6
type_code token = 7
type_code reasoning = 8
type_code call = 9
type_code result = 10
type_code todo = 11
type_code interrupt = 12
type_code compacted = 13

-- `==` on types, and on paths (tuples of strings).
unfoldable pub same_type : EventType → EventType → Bool
unfolding type_code
same_type a b = type_code a == type_code b

unfoldable pub same_path : List Text → List Text → Bool
same_path [] [] = true
same_path (a ∷ p) (b ∷ q) = text_eq a b && same_path p q
same_path _ _ = false

-- `TERMINAL_EVENT_TYPE`
unfoldable pub is_terminal : EventType → Bool
is_terminal finished = true
is_terminal failed_type = true
is_terminal cancelled_type = true
is_terminal _ = false
