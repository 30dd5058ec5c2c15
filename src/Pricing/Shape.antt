-- ===== src/Pricing/Shape.antt =====
-- The shape of the schedule of a principal and a profit that are not negative: every line has its
-- share of the principal and of the profit, up to a cent.
use native.Mathlib.Nat.{mul-le-mul, le_refl}
use retail_credit_platform.Common.{
  ℕ, zero, suc, ◌+◌, ◌-◌, ◌*◌, ◌/◌, ◌≤◌, ◌<◌, ◌≡◌, ap, ℤ, pos, pos_part, ◌+ℤ◌, ◌≤ℤ◌, List, [], ◌∷◌,
  arith, All,
}
use retail_credit_platform.Common.Rounding.{round_half_up, round_half_up_near, round_half_up_mono}
use retail_credit_platform.Pricing.{InstallmentLine, build_schedule}
use retail_credit_platform.Pricing.Rounded.{
  rounded_lines, build_schedule-eq-rounded, total_weight_pos,
}

lt_of_mul-lt : (k x y : ℕ) → k * x < k * y → x < y
lt_of_mul-lt k x y lt = grind arith

mul-sub : (n a b : ℕ) → a ≤ b → n * (b - a) + n * a ≡ n * b
mul-sub n a b h =
    let split : b ≡ (b - a) + a = omega arith in omega (arith, ap (λ (k : ℕ). n * k) split)

-- A concave sequence, rounded, grows by at most one more than before.
round_half_up_concave :
    (a b c w : ℕ)
    → 1 ≤ w
    → a + c ≤ 2 * b
    → round_half_up c w + round_half_up a w ≤ 2 * round_half_up b w + 1
round_half_up_concave a b c w h le = omega (
  arith,
  lt_of_mul-lt w (round_half_up c w + round_half_up a w) (2 * round_half_up b w + 2) (
      omega (
        arith,
        (round_half_up_near c w h).0,
        (round_half_up_near a w h).0,
        (round_half_up_near b w h).1,
      )),
)

-- The total weight of `n` months, n + (n - 1) + ... + 1.
abbrev pub weights : ℕ → ℕ
weights n = n * (n + 1) / 2

-- A line of a principal `p` and a profit `t` over `n` months: its principal is within less than a cent
-- of p / n, its profit within less than a cent of the share of its month by the weights n, n - 1, ...,
-- 1, and neither of them is below zero.
pub record IsFairShare (n p t : ℕ) (l : InstallmentLine) : Type 0 where
  pub principal_nonneg : pos 0 ≤ℤ l.principal_component
  pub profit_nonneg : pos 0 ≤ℤ l.profit_component
  pub principal_at_most : n * pos_part l.principal_component < p + n
  pub principal_at_least : p < n * pos_part l.principal_component + n
  pub profit_at_most :
      weights n * pos_part l.profit_component < t * (n - l.sequence_number + 1) + weights n
  pub profit_at_least :
      t * (n - l.sequence_number + 1) < weights n * pos_part l.profit_component + weights n

-- Along the lines the profit never rises by more than one cent.
abbrev pub HardlyRisesFrom : ℤ → List InstallmentLine → Type 0
HardlyRisesFrom previous [] = Unit
HardlyRisesFrom previous (l ∷ ls) =
    (l.profit_component ≤ℤ previous +ℤ pos 1) × HardlyRisesFrom l.profit_component ls

abbrev pub HardlyRises : List InstallmentLine → Type 0
HardlyRises [] = Unit
HardlyRises (l ∷ ls) = HardlyRisesFrom l.profit_component ls

-- The difference of two rounded running shares is within less than one of the share between them.
fair_share :
    (w t a d : ℕ)
    → 1 ≤ w
    → let k = round_half_up (t * (a + d)) w - round_half_up (t * a) w in
      (w * k < t * d + w) × (t * d < w * k + w)
fair_share w t a d h = omega (
  arith,
  round_half_up_near (t * (a + d)) w h,
  round_half_up_near (t * a) w h,
  mul-sub w _ _ (round_half_up_mono (t * a) (t * (a + d)) w h (omega arith)),
)

rise_le_one : (a b c : ℕ) → a ≤ b → b ≤ c → c + a ≤ 2 * b + 1 → pos (c - b) ≤ℤ pos (b - a) +ℤ pos 1
unfolding ◌+ℤ◌
rise_le_one a b c h k le = ground arith

-- The weight of a line is never more than the weight of the line before.
slower :
    (n t last j : ℕ)
    → let cw = last + (n - j + 1) in t * last + t * (cw + (n - (j + 1) + 1)) ≤ 2 * (t * cw)
slower n t last j = omega (arith, mul-le-mul (le_refl t) (weight_falls n j))
  where
    weight_falls : (n j : ℕ) → n - (j + 1) + 1 ≤ n - j + 1
    weight_falls n j = omega arith

module _ (n p t : ℕ) (h : 1 ≤ n) where
  rounded_lines-IsFairShare :
      (j cw left : ℕ) → All (IsFairShare n p t) (rounded_lines n (weights n) p t j cw left)
  rounded_lines-IsFairShare j cw zero = tt
  rounded_lines-IsFairShare j cw (suc left) =
      let principal = fair_share n p j 1 h in
      let profit = fair_share (weights n) t cw (n - (j + 1) + 1) (total_weight_pos n h) in
      (
        record {
          principal_nonneg = omega arith;
          profit_nonneg = omega arith;
          principal_at_most = omega (arith, principal.0);
          principal_at_least = omega (arith, principal.1);
          profit_at_most = profit.0;
          profit_at_least = profit.1;
        },
        rounded_lines-IsFairShare (j + 1) (cw + (n - (j + 1) + 1)) left,
      )

module _ (n w p t : ℕ) where
  -- `last` is the weight before the line that precedes these.
  rounded_lines-HardlyRisesFrom :
      (last j left : ℕ)
      → 1 ≤ w
      → let cw = last + (n - j + 1) in
        HardlyRisesFrom
          (pos (round_half_up (t * cw) w - round_half_up (t * last) w))
          (rounded_lines n w p t j cw left)
  rounded_lines-HardlyRisesFrom last j zero h = tt
  rounded_lines-HardlyRisesFrom last j (suc left) h =
      let cw = last + (n - j + 1) in
      let weight = cw + (n - (j + 1) + 1) in
      (
        rise_le_one _ _ _ (round_half_up_mono (t * last) (t * cw) w h (omega arith))
            (round_half_up_mono (t * cw) (t * weight) w h (omega arith))
            (round_half_up_concave (t * last) (t * cw) (t * weight) w h (slower n t last j)),
        rounded_lines-HardlyRisesFrom cw (j + 1) left h,
      )

rounded_lines-HardlyRises :
    (n p t : ℕ) → 1 ≤ n → HardlyRises (rounded_lines n (n * (n + 1) / 2) p t 0 0 n)
rounded_lines-HardlyRises zero p t h = elim h [ ]
rounded_lines-HardlyRises (suc m) p t h =
    let n : ℕ = suc m in
    rounded_lines-HardlyRisesFrom n (n * (n + 1) / 2) p t 0 1 m (total_weight_pos n h)

-- For a principal and a profit that are not negative, over one month or more: no component is
-- negative; every line's principal is less than a cent away from an equal share, and its profit less
-- than a cent away from its share by the weights n, n - 1, ..., 1; and from one month to the next the
-- profit never rises by more than a cent.
pub build_schedule_shape :
    (n p t : ℕ)
    → 1 ≤ n
    → let ls = build_schedule n (pos p) (pos t) in All (IsFairShare n p t) ls × HardlyRises ls
build_schedule_shape n p t h =
    rw (build_schedule-eq-rounded n p t h)
      (rounded_lines-IsFairShare n p t h 0 0 n, rounded_lines-HardlyRises n p t h)
