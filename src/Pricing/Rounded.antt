-- ===== src/Pricing/Rounded.antt =====
-- The schedule of a principal and a profit that are not negative, by a closed formula: no running
-- state, so rounding cannot drift.
use retail_credit_platform.Common.{
  ℕ, zero, suc, ◌+◌, ◌-◌, ◌*◌, ◌/◌, ◌≤◌, ◌<◌, ◌≡◌, refl, pos, ◌-ℤ◌, List, [], ◌∷◌, arith,
}
use retail_credit_platform.Common.Rounding.{
  part_of, round_half_up, round_half_up_mono, round_half_up_exact,
}
use retail_credit_platform.Pricing.{
  InstallmentLine, principal_cum, profit_cum, build_lines, build_schedule,
}

round_half_up_all : (k i n : ℕ) → 1 ≤ n → i ≡ n → round_half_up (k * i) n ≡ k
round_half_up_all k i n h e = rw e (round_half_up_exact k n h)

round_half_up_none : (k n : ℕ) → 1 ≤ n → round_half_up (k * 0) n ≡ 0
unfolding round_half_up
round_half_up_none k n h = grind arith

principal_cum_pos :
    (n p i : ℕ) → 1 ≤ n → i ≤ n → principal_cum n (pos p) i ≡ pos (round_half_up (p * i) n)
unfolding principal_cum part_of
principal_cum_pos n p i h le = ground (arith, round_half_up_all p i n h)

profit_cum_pos :
    (n w t i cw : ℕ)
    → 1 ≤ w
    → (n ≤ i → cw ≡ w)
    → profit_cum n w (pos t) i cw ≡ pos (round_half_up (t * cw) w)
unfolding profit_cum part_of
profit_cum_pos n w t i cw h full = ground (arith, round_half_up_all t cw w h)

sub_pos : (a b : ℕ) → a ≤ b → pos b -ℤ pos a ≡ pos (b - a)
unfolding ◌-ℤ◌
sub_pos a b h = ground arith

-- The weight of the first `j` of `n` installments, n + (n - 1) + ... (j terms), doubled.
abbrev pub IsWeight : (n j cw : ℕ) → Type 0
IsWeight n j cw = 2 * cw + j * j ≡ 2 * (j * n) + j

next-IsWeight : (n j cw : ℕ) → j < n → IsWeight n j cw → IsWeight n (j + 1) (cw + (n - (j + 1) + 1))
next-IsWeight n j cw h b = omega arith

full_weight_at : (w j cw : ℕ) → 2 * w ≡ (j + 1) * (j + 1 + 1) → IsWeight (j + 1) j cw → cw + 1 ≡ w
full_weight_at w j cw e b = omega arith

full_weight :
    (n w j cw : ℕ)
    → j < n
    → 2 * w ≡ n * (n + 1)
    → IsWeight n j cw
    → n ≤ j + 1
    → cw + (n - (j + 1) + 1) ≡ w
full_weight n w j cw lt e b le =
    let same : n ≡ j + 1 = omega arith in
    let full : cw + 1 ≡ w = full_weight_at w j cw (rw same at e) (rw same at b) in omega arith

module _ (n w p t : ℕ) where
  -- The lines after the first `j`, which reached the weight `cw`, by a closed formula.
  abbrev pub rounded_lines : (j cw left : ℕ) → List InstallmentLine
  rounded_lines j cw zero = []
  rounded_lines j cw (suc left) =
      let weight = cw + (n - (j + 1) + 1) in
      record {
        sequence_number = j + 1;
        principal_component = pos (round_half_up (p * (j + 1)) n - round_half_up (p * j) n);
        profit_component = pos (round_half_up (t * weight) w - round_half_up (t * cw) w);
      }
      ∷ rounded_lines (j + 1) weight left

  pub build_lines-eq-rounded :
      (j cw left : ℕ)
      → 1 ≤ w
      → 2 * w ≡ n * (n + 1)
      → j + left ≡ n
      → IsWeight n j cw
      → build_lines n w
          (pos p)
          (pos t)
          (j + 1)
          cw
          (pos (round_half_up (p * j) n))
          (pos (round_half_up (t * cw) w))
          left
        ≡ rounded_lines j cw left
  unfolding build_lines
  build_lines-eq-rounded j cw zero hw e s b = refl
  build_lines-eq-rounded j cw (suc left) hw e s b =
      let weight = cw + (n - (j + 1) + 1) in
      rw (
        principal_cum_pos n p (j + 1) (omega arith) (omega arith),
        profit_cum_pos n w t (j + 1) weight hw (full_weight n w j cw (omega arith) e b),
        sub_pos _ _ (round_half_up_mono (p * j) (p * (j + 1)) n (omega arith) (omega arith)),
        sub_pos _ _ (round_half_up_mono (t * cw) (t * weight) w hw (omega arith)),
        build_lines-eq-rounded (j + 1) weight left hw e (omega arith)
            (next-IsWeight n j cw (omega arith) b),
      )

-- Twice the triangle number is the product that Python halves.
double-triangle : (n : ℕ) → (k : ℕ) × (n * (n + 1) ≡ 2 * k)
double-triangle zero = (0, omega arith)
double-triangle (suc n) = let (k, e) = double-triangle n in (k + n + 1, omega arith)

pub total_weight_double : (n : ℕ) → 2 * (n * (n + 1) / 2) ≡ n * (n + 1)
total_weight_double n = let (k, e) = double-triangle n in rw e (omega arith)

pub total_weight_pos : (n : ℕ) → 1 ≤ n → 1 ≤ n * (n + 1) / 2
total_weight_pos n h = grind (arith, total_weight_double n)

-- Every line of the schedule is the difference of two running shares, each rounded once: of the
-- principal, share j of n, and of the profit, the share of the weight of the first j lines. The
-- exception that the loop makes for the final line is no exception.
pub build_schedule-eq-rounded :
    (n p t : ℕ)
    → 1 ≤ n
    → build_schedule n (pos p) (pos t) ≡ rounded_lines n (n * (n + 1) / 2) p t 0 0 n
unfolding build_schedule
build_schedule-eq-rounded n p t h =
    let w = n * (n + 1) / 2 in
    let hw = total_weight_pos n h in
    let loop =
      build_lines-eq-rounded n w p t 0 0 n hw (total_weight_double n) (omega arith) (omega arith) in
    rw (round_half_up_none p n h, round_half_up_none t w hw) at loop
