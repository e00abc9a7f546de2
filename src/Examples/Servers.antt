-- ===== src/Examples/Servers.antt =====
-- The theorems on the catalogue of servers and its circuit, at sample values.
use fin_agent_platform.Prelude.{◌≡◌, refl, arith, true, false, none, some, List, [], ◌∷◌, text}
use fin_agent_platform.Prelude.Sql.{count_where}
use fin_agent_platform.Mcp.{McpApplication, McpServerRecord, sse, enabled, new_server}
use fin_agent_platform.Mcp.Circuit.{McpCircuit, mcp_failure_threshold}
use fin_agent_platform.Mcp.Reviewed.{
  Edit, applied, decided, switched, failed, after_edits, all_reviewed, after_edits-reviewed,
}
use fin_agent_platform.Mcp.Tripped.{enabled_at, after_failures, after_failures-enabled}
use fin_agent_platform.Examples.{decode, encode}

abbrev asked_for : McpApplication
asked_for = record {
  name = text "prices";
  description = [];
  url = text "http://p";
  transport = sse;
  credential_key = none;
  tool_names = [];
  latency_note = [];
  stores_user_data = false;
  sends_data_out = true;
  has_write_operation = false;
}

-- Switched on before it is let in, which does nothing; let in; disabled by failures; switched on.
abbrev edits : List Edit
edits =
    applied asked_for (encode 9) 4 100
    ∷ switched (encode 4) true none 101
    ∷ decided (encode 4) (encode 1) true none 102
    ∷ failed (encode 4) (text "timeout") 103
    ∷ switched (encode 4) true none 104
    ∷ []

after_edits-reviewed_example : all_reviewed (after_edits decode (λ n. true) edits []) ≡ true
unfolding all_reviewed
after_edits-reviewed_example = after_edits-reviewed decode (λ n. true) edits [] refl

abbrev let_in : McpServerRecord
let_in = record (new_server asked_for 9 4 100) { status = enabled; reviewed_by = some 1 }

-- Two failures are counted already: the next three reach the threshold.
abbrev failing : McpCircuit
failing = record { failures = 2; servers = let_in ∷ [] }

after_failures-enabled_example :
    count_where
      (enabled_at 4)
      (after_failures decode encode mcp_failure_threshold
        (encode 4)
        ((text "a", 200) ∷ (text "b", 201) ∷ (text "c", 202) ∷ [])
        failing).servers
    ≡ 0
unfolding count_where
after_failures-enabled_example =
    after_failures-enabled decode encode mcp_failure_threshold 4 (encode 4)
      ((text "a", 200) ∷ (text "b", 201) ∷ (text "c", 202) ∷ []) failing refl (omega arith)
