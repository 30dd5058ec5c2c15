-- ===== src/Common/Rounding.antt =====
-- Python's `Decimal` as the program uses it: an exact decimal number, and
-- `quantize(Decimal("0.01"), rounding=ROUND_HALF_UP)`, which rounds to whole cents, a tie going away
-- from zero. Products and quotients are taken as exact before they are rounded: the program's amounts
-- stay far inside the 28 digits of its decimal context.
use Prim.Native.Nat.{ℕ, suc, ◌+◌, ◌*◌, ◌/◌, ◌^◌, ◌≤◌, ◌<◌}
use mathlib.Core.Path.{◌≡◌}
use native.Mathlib.Omega.{arith}
use retail_credit_platform.Common.Int.{ℤ, pos, negsuc, sub_ℕ, ◌*ℤ◌}

-- coefficient / 10 ^ places
pub record Decimal : Type 0 where
  pub coefficient : ℤ
  pub places : ℕ

-- The whole number nearest to n / d, a tie going up.
unfoldable pub round_half_up : ℕ → ℕ → ℕ
round_half_up n d = (2 * n + d) / (2 * d)

-- z / d, rounded; a tie goes away from zero.
unfoldable pub round_ℤ : ℤ → ℕ → ℤ
round_ℤ (pos n) d = pos (round_half_up n d)
round_ℤ (negsuc n) d = sub_ℕ 0 (round_half_up (suc n) d)

-- The part k / d of an amount in cents, in whole cents.
unfoldable pub part_of : ℤ → (k d : ℕ) → ℤ
part_of (pos n) k d = pos (round_half_up (n * k) d)
part_of (negsuc n) k d = sub_ℕ 0 (round_half_up (suc n * k) d)

-- `_money(x)`: a decimal number in whole cents.
unfoldable pub money : Decimal → ℤ
unfolding round_ℤ
money x = round_ℤ (x.coefficient *ℤ pos 100) (10 ^ x.places)

-- `_money(amount * x)` for an amount in cents.
unfoldable pub money_times : ℤ → Decimal → ℤ
unfolding round_ℤ
money_times amount x = round_ℤ (amount *ℤ x.coefficient) (10 ^ x.places)

-- Rounding moves a quotient by half a unit at most.
pub round_half_up_near :
    (n d : ℕ)
    → 0 < d
    → (2 * (d * round_half_up n d) ≤ 2 * n + d) × (2 * n < 2 * (d * round_half_up n d) + d)
unfolding round_half_up
round_half_up_near n d h = grind arith

pub round_half_up_mono : (m n d : ℕ) → 0 < d → m ≤ n → round_half_up m d ≤ round_half_up n d
unfolding round_half_up
round_half_up_mono m n d h le = grind arith

pub round_half_up_exact : (k d : ℕ) → 0 < d → round_half_up (k * d) d ≡ k
unfolding round_half_up
round_half_up_exact k d h = grind arith
