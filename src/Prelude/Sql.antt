-- ===== src/Prelude/Sql.antt =====
-- The SQL that the repositories send, on a table that is the list of its rows:
-- `UPDATE t SET … WHERE p` with its row count, `SELECT … WHERE p`, `COUNT(*)`.
use Prim.Native.Nat.{ℕ, ◌+◌}
use mathlib.Core.Bool.{Bool, not}
use mathlib.Core.List.{List, [], ◌∷◌}
use fin_agent_platform.Prelude.Tests.{if◌then◌else◌, ◌==◌}

module _ {ℓ} {A : Type ℓ} where
  unfoldable pub update_where : (A → Bool) → (A → A) → List A → List A
  update_where p f [] = []
  update_where p f (r ∷ t) = (if p r then f r else r) ∷ update_where p f t

  unfoldable pub count_where : (A → Bool) → List A → ℕ
  count_where p [] = 0
  count_where p (r ∷ t) = (if p r then 1 else 0) + count_where p t

  -- `bool(result.rowcount)`
  unfoldable pub any_where : (A → Bool) → List A → Bool
  any_where p t = not (count_where p t == 0)
