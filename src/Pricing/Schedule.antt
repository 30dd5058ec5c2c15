-- ===== src/Pricing/Schedule.antt =====
-- The schedule adds up: numbers, sums and running totals, whatever the signs of the amounts.
use retail_credit_platform.Common.{
  ℕ, zero, suc, ◌+◌, ◌-◌, ◌*◌, ◌/◌, ◌≤◌, ◌≡◌, refl, ℤ, pos, ◌+ℤ◌, ◌-ℤ◌, List, [], ◌∷◌, arith,
  int_laws, -ℤ_zero, +ℤ_zero, ◌∙◌, length,
}
use retail_credit_platform.Pricing.{
  InstallmentLine, principal_cum, profit_cum, build_lines, build_schedule,
}

principal_cum-last : (n : ℕ) (p : ℤ) (i : ℕ) → n ≤ i → principal_cum n p i ≡ p
unfolding principal_cum
principal_cum-last n p i h = ground arith

profit_cum-last : (n w : ℕ) (t : ℤ) (i cw : ℕ) → n ≤ i → profit_cum n w t i cw ≡ t
unfolding profit_cum
profit_cum-last n w t i cw h = ground arith

abbrev pub principal_sum : List InstallmentLine → ℤ
principal_sum [] = pos 0
principal_sum (l ∷ ls) = l.principal_component +ℤ principal_sum ls

abbrev pub profit_sum : List InstallmentLine → ℤ
profit_sum [] = pos 0
profit_sum (l ∷ ls) = l.profit_component +ℤ profit_sum ls

-- The lines are numbered from `i` on.
abbrev pub NumberedFrom : ℕ → List InstallmentLine → Type 0
NumberedFrom i [] = Unit
NumberedFrom i (l ∷ ls) = (l.sequence_number ≡ i) × NumberedFrom (i + 1) ls

module _ (n w : ℕ) (p t : ℤ) where
  length-build_lines :
      (i cw : ℕ) (pp pt : ℤ) (left : ℕ) → length (build_lines n w p t i cw pp pt left) ≡ left
  unfolding build_lines
  length-build_lines i cw pp pt zero = refl
  length-build_lines i cw pp pt (suc left) = omega (arith, length-build_lines (i + 1) _ _ _ left)

  build_lines-NumberedFrom :
      (i cw : ℕ) (pp pt : ℤ) (left : ℕ) → NumberedFrom i (build_lines n w p t i cw pp pt left)
  unfolding build_lines
  build_lines-NumberedFrom i cw pp pt zero = tt
  build_lines-NumberedFrom i cw pp pt (suc left) =
      (refl, build_lines-NumberedFrom (i + 1) _ _ _ left)

  -- The components telescope: from number `i` on they add up to what is still missing.
  sums-build_lines :
      (i cw : ℕ) (pp pt : ℤ) (left : ℕ)
      → i + left ≡ n
      → let ls = build_lines n w p t i cw pp pt (suc left) in
        (principal_sum ls ≡ p -ℤ pp) × (profit_sum ls ≡ t -ℤ pt)
  unfolding build_lines
  sums-build_lines i cw pp pt zero h =
      rw
        (
          principal_cum-last n p i (omega arith),
          profit_cum-last n w t i (cw + (n - i + 1)) (omega arith),
        )
        (+ℤ_zero _, +ℤ_zero _)
  sums-build_lines i cw pp pt (suc left) h =
      let weight = cw + (n - i + 1) in
      let rest =
        sums-build_lines (i + 1) weight (principal_cum n p i) (profit_cum n w t i weight) left
          (omega arith) in
      rw (rest.0, rest.1) (omega int_laws, omega int_laws)

-- The schedule has one line for each month, numbered from 1, and its principal and profit columns
-- add up to the principal financed and the total profit exactly.
pub build_schedule_sums :
    (n : ℕ) (p t : ℤ)
    → 1 ≤ n
    → let ls = build_schedule n p t in
      (length ls ≡ n) × NumberedFrom 1 ls × (principal_sum ls ≡ p) × (profit_sum ls ≡ t)
unfolding build_schedule
build_schedule_sums zero p t h = elim h [ ]
build_schedule_sums (suc m) p t h =
    let n : ℕ = suc m in
    let w = n * (n + 1) / 2 in
    let (principal, profit) = sums-build_lines n w p t 1 0 (pos 0) (pos 0) m (omega arith) in
    (
      length-build_lines n w p t 1 0 (pos 0) (pos 0) n,
      build_lines-NumberedFrom n w p t 1 0 (pos 0) (pos 0) n,
      principal ∙ -ℤ_zero p,
      profit ∙ -ℤ_zero t,
    )
