-- ===== src/Mcp/Tripped.antt =====
-- The failures of a server one after another.
-- Code: `record_failure` of src/app/agent/circuit.py, over `disable_for_failure`.
use fin_agent_platform.Prelude.{
  ℕ, suc, ◌+◌, ◌≡◌, ◌<◌, refl, ap, inl, inr, Bool, true, false, ◌&&◌, Bool-cases, Option, some,
  List, [], ◌∷◌, Text, ◌==◌, ltb, if◌then◌else◌, length, arith,
}
use fin_agent_platform.Prelude.Sql.{update_where, count_where}
use fin_agent_platform.Mcp.{McpServerRecord, disabled, is_enabled, disable_for_failure}
use fin_agent_platform.Mcp.Circuit.{McpCircuit, record_failure, tripped_reason}

abbrev pub enabled_at : ℕ → McpServerRecord → Bool
enabled_at id r = r.id == id && is_enabled r.status

module _ (parse : Text → Option ℕ) (digits : ℕ → Text) (threshold : ℕ) (server_id : Text) where
  -- Failures without a success between them, each with its reason and time.
  unfoldable pub after_failures : List (Text × ℕ) → McpCircuit → McpCircuit
  unfolding record_failure
  after_failures [] c = c
  after_failures ((reason, now) ∷ later) c =
      after_failures later (record_failure parse digits threshold server_id reason now c)

-- The number of enabled rows of the server after the circuit has tripped.
none_enabled :
    (id : ℕ) (why : Text) (now : ℕ) (rows : List McpServerRecord)
    → count_where (enabled_at id) (
        update_where
          (enabled_at id)
          (λ r. record r { status = disabled; disabled_reason = some why; updated_at = now })
          rows)
      ≡ 0
unfolding count_where update_where
none_enabled id why now [] = refl
none_enabled id why now (r ∷ rows) = ground (arith, none_enabled id why now rows)

-- A failure that does not reach the threshold only counts.
record_failure-failures :
    (parse : Text → Option ℕ) (digits : ℕ → Text) (threshold : ℕ) (s why : Text) (now : ℕ)
    (c : McpCircuit)
    → (record_failure parse digits threshold s why now c).failures ≡ suc c.failures
unfolding record_failure
record_failure-failures parse digits threshold s why now c =
    elim (Bool-cases (ltb (suc c.failures) threshold)) [
      | inl below ↦ rw below refl
      | inr reached ↦ rw reached refl
    ]

record_failure-below :
    (parse : Text → Option ℕ) (digits : ℕ → Text) (threshold : ℕ) (s why : Text) (now : ℕ)
    (c : McpCircuit)
    → suc c.failures < threshold
    → (record_failure parse digits threshold s why now c).servers ≡ c.servers
unfolding record_failure
record_failure-below parse digits threshold s why now c less =
    let below : ltb (suc c.failures) threshold ≡ true = ground arith in rw below refl

record_failure-reached :
    (parse : Text → Option ℕ) (digits : ℕ → Text) (threshold id : ℕ) (s why : Text) (now : ℕ)
    (c : McpCircuit)
    → parse s ≡ some id
    → threshold < suc (suc c.failures)
    → count_where (enabled_at id) (record_failure parse digits threshold s why now c).servers ≡ 0
unfolding record_failure disable_for_failure
record_failure-reached parse digits threshold id s why now c parsed more =
    let reached : ltb (suc c.failures) threshold ≡ false = ground arith in
    rw (reached, parsed)
      (none_enabled id (tripped_reason digits (suc c.failures) why) now c.servers)

-- A circuit that has tripped stays so.
stays_tripped :
    (parse : Text → Option ℕ) (digits : ℕ → Text) (threshold id : ℕ) (s : Text)
    (fs : List (Text × ℕ)) (c : McpCircuit)
    → parse s ≡ some id
    → threshold < suc c.failures
    → count_where (enabled_at id) c.servers ≡ 0
    → count_where (enabled_at id) (after_failures parse digits threshold s fs c).servers ≡ 0
unfolding after_failures
stays_tripped parse digits threshold id s [] c parsed more h = h
stays_tripped parse digits threshold id s ((why, now) ∷ later) c parsed more h =
    let n = record_failure-failures parse digits threshold s why now c in
    stays_tripped parse digits threshold id s later _ parsed (omega (arith, n))
      (record_failure-reached parse digits threshold id s why now c parsed (omega arith))

-- A server whose count is below the threshold, after failures without a success between them: as many
-- rows of it are enabled as before while the count is below the threshold, and none from there on.
pub after_failures-enabled :
    (parse : Text → Option ℕ) (digits : ℕ → Text) (threshold id : ℕ) (s : Text)
    (fs : List (Text × ℕ)) (c : McpCircuit)
    → parse s ≡ some id
    → c.failures < threshold
    → count_where (enabled_at id) (after_failures parse digits threshold s fs c).servers ≡ (
        if ltb (c.failures + length fs) threshold then count_where (enabled_at id) c.servers else 0)
unfolding after_failures
after_failures-enabled parse digits threshold id s [] c parsed below = ground arith
after_failures-enabled parse digits threshold id s ((why, now) ∷ later) c parsed below =
    let n = record_failure-failures parse digits threshold s why now c in
    elim (Bool-cases (ltb (suc c.failures) threshold)) [
      | inl free ↦
          let kept = record_failure-below parse digits threshold s why now c (ground arith) in
          let rest =
            after_failures-enabled parse digits threshold id s later
              (record_failure parse digits threshold s why now c) parsed (ground (arith, n)) in
          ground (arith, rest, n, ap (count_where (enabled_at id)) kept)
      | inr reached ↦
          let tripped =
            record_failure-reached parse digits threshold id s why now c parsed (ground arith) in
          let rest =
            stays_tripped parse digits threshold id s later
              (record_failure parse digits threshold s why now c) parsed (ground (arith, n))
              tripped in
          ground (arith, rest)
    ]
