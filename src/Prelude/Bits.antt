-- ===== src/Prelude/Bits.antt =====
-- Shifts, and `|` of a shifted number with one that fits below it.
use Prim.Native.Nat.{
  ℕ, zero, suc, ◌+◌, ◌*◌, ◌/◌, ◌%◌, ◌≤◌, ◌<◌, max, digits, bit_or, bit_or-bitwise,
}
use mathlib.Core.Path.{◌≡◌, refl, ◌∙◌}
use native.Mathlib.Omega.{arith}

-- `m << k`
unfoldable pub shift_left : ℕ → ℕ → ℕ
shift_left m zero = m
shift_left m (suc k) = shift_left m k * 2

abbrev joined : ℕ → ℕ → ℕ → ℕ
joined n a b = digits (λ d. d) max n a b

joined-zero : (n b : ℕ) → joined n 0 b ≡ b
joined-zero zero b = refl
joined-zero (suc n) b = refl

joined_zero : (n a : ℕ) → a ≤ n → joined n a 0 ≡ a
joined_zero zero a h = omega arith
joined_zero (suc n) zero h = refl
joined_zero (suc n) (suc a) h = omega (arith, joined_zero n (suc a / 2) (omega arith))

joined_step : (n a b : ℕ) → joined (suc n) a b ≡ joined n (a / 2) (b / 2) * 2 + max (a % 2) (b % 2)
joined_step n zero b = omega (arith, joined-zero n (b / 2))
joined_step n (suc a) b = refl

halved : (q : ℕ) → q * 2 / 2 ≡ q
halved q = omega arith

joined_double : (n q b : ℕ) → joined (suc n) (q * 2) b ≡ joined n q (b / 2) * 2 + b % 2
joined_double n q b =
    let raw = joined_step n (q * 2) b in
    let step : joined (suc n) (q * 2) b ≡ joined n q (b / 2) * 2 + max (q * 2 % 2) (b % 2) =
      rw (halved q) at raw in
    omega (arith, step)

joined_shifted :
    (n m k s : ℕ)
    → shift_left m k ≤ n
    → s < shift_left 1 k
    → joined n (shift_left m k) s ≡ shift_left m k + s
unfolding shift_left
joined_shifted n m zero zero h l = omega (arith, joined_zero n m h)
joined_shifted n m zero (suc s) h l = absurd (omega arith)
joined_shifted zero m (suc k) s h l = omega arith
joined_shifted (suc n) m (suc k) s h l =
    joined_double n (shift_left m k) s
    ∙ omega (arith, joined_shifted n m k (s / 2) (omega arith) (omega arith))

-- The low bits are free, so `|` is `+`.
pub bit_or-shift_left :
    (m k s : ℕ) → s < shift_left 1 k → bit_or (shift_left m k) s ≡ shift_left m k + s
bit_or-shift_left m k s l = omega (
  arith,
  bit_or-bitwise (shift_left m k) s,
  joined_shifted (shift_left m k) m k s (omega arith) l,
)
