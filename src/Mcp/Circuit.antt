-- ===== src/Mcp/Circuit.antt =====
-- `McpCircuit` of src/app/agent/circuit.py, for the key of one server: the count of its failures, and
-- the catalogue that the circuit writes to. `digits` prints a number. The expiry of an idle key is
-- `reset`, at whatever time it comes.
use fin_agent_platform.Prelude.{ℕ, suc, Option, List, ◌++◌, Text, text, ltb, if◌then◌else◌}
use fin_agent_platform.Mcp.{McpServerRecord, disable_for_failure}

-- `MCP_FAILURE_THRESHOLD`
abbrev pub mcp_failure_threshold : ℕ
mcp_failure_threshold = 5

pub record McpCircuit : Type 0 where
  pub failures : ℕ
  pub servers : List McpServerRecord

-- The reason that is stored.
abbrev pub tripped_reason : (ℕ → Text) → ℕ → Text → Text
tripped_reason digits count reason = text "连续失败 " ++ digits count ++ text " 次，最后一次：" ++ reason

module _ (parse : Text → Option ℕ) (digits : ℕ → Text) (threshold : ℕ) (server_id : Text) where
  -- `record_failure`
  unfoldable pub record_failure : Text → ℕ → McpCircuit → McpCircuit
  unfolding disable_for_failure
  record_failure reason now c =
      let count = suc c.failures in
      if ltb count threshold then record c { failures = count } else record {
        failures = count;
        servers =
            (disable_for_failure parse server_id (tripped_reason digits count reason) now
              c.servers).1;
      }

-- `record_success`
unfoldable pub record_success : McpCircuit → McpCircuit
record_success c = record c { failures = 0 }

-- `reset`
unfoldable pub reset : McpCircuit → McpCircuit
reset c = record c { failures = 0 }
