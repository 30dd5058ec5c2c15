-- ===== src/Pricing/Plan.antt =====
-- What `build_plan` promises: when it refuses, and that the amounts of a plan fit together.
use retail_credit_platform.Common.{
  ℕ, ◌≤◌, ◌≡◌, refl, sym, subst, ℤ, pos, negsuc, pos_part, ◌+ℤ◌, ◌-ℤ◌, ◌≤ℤ◌, ◌<ℤ◌, leb_ℤ, ltb_ℤ,
  All, length, arith, int_laws, inl, inr, Bool-cases, ◌*ℤ◌,
}
use retail_credit_platform.Common.Rounding.{Decimal, money, money_times, round_ℤ}
use retail_credit_platform.Pricing.{
  PricingResult, tenor_too_short, negative_down_payment, down_payment_too_large, Priced, priced,
  refused, build_schedule, build_plan,
}
use retail_credit_platform.Pricing.Schedule.{
  principal_sum, profit_sum, NumberedFrom, build_schedule_sums,
}
use retail_credit_platform.Pricing.Shape.{IsFairShare, HardlyRises, build_schedule_shape}

-- The amounts of a plan fit together, and its schedule adds up to them.
pub record IsConsistent (r : PricingResult) : Type 0 where
  pub down_nonneg : pos 0 ≤ℤ r.down_payment
  pub financed_pos : pos 0 <ℤ r.principal_financed
  pub cash : r.principal_financed +ℤ r.down_payment ≡ r.cash_price
  pub sale_price : r.installment_sale_price ≡ r.cash_price +ℤ r.total_profit
  pub financed : r.amount_financed +ℤ r.down_payment ≡ r.installment_sale_price
  pub lines : length r.schedule ≡ r.tenor_months
  pub numbered : NumberedFrom 1 r.schedule
  pub principal : principal_sum r.schedule ≡ r.principal_financed
  pub profit : profit_sum r.schedule ≡ r.total_profit

-- What a plan is refused for, and that it is refused for nothing else.
abbrev pub Fits : (cash down tenor : ℤ) → Type 0
Fits cash down tenor = (pos 1 ≤ℤ tenor) × (pos 0 ≤ℤ down) × (down <ℤ cash)

abbrev pub Outcome : (cash down tenor : ℤ) → Decimal → Priced → Type 0
Outcome cash down tenor rate (priced r) =
    Fits cash down tenor
    × IsConsistent r
    × (r.cash_price ≡ cash)
    × (r.down_payment ≡ down)
    × (pos r.tenor_months ≡ tenor)
    × (r.total_profit ≡ money_times (cash -ℤ down) rate)
Outcome cash down tenor rate (refused tenor_too_short) = tenor <ℤ pos 1
Outcome cash down tenor rate (refused negative_down_payment) = (pos 1 ≤ℤ tenor) × (down <ℤ pos 0)
Outcome cash down tenor rate (refused down_payment_too_large) =
    (pos 1 ≤ℤ tenor) × (pos 0 ≤ℤ down) × (cash ≤ℤ down)

nonneg-pos_part : (z : ℤ) → pos 0 ≤ℤ z → pos (pos_part z) ≡ z
nonneg-pos_part (pos n) h = refl
nonneg-pos_part (negsuc n) h = absurd (omega arith)

abbrev plan : (cash down tenor : ℤ) → Decimal → PricingResult
plan cash down tenor rate =
    let n = pos_part tenor in
    let principal = cash -ℤ down in
    let profit = money_times principal rate in
    record {
      cash_price = cash;
      down_payment = down;
      tenor_months = n;
      profit_rate = rate;
      principal_financed = principal;
      total_profit = profit;
      installment_sale_price = cash +ℤ profit;
      amount_financed = principal +ℤ profit;
      schedule = build_schedule n principal profit;
    }

plan-IsConsistent :
    (cash down tenor : ℤ) (rate : Decimal)
    → Fits cash down tenor
    → IsConsistent (plan cash down tenor rate)
plan-IsConsistent cash down tenor rate (month, nonneg, below) =
    let principal = cash -ℤ down in
    let profit = money_times principal rate in
    let (lines, numbered, principals, profits) =
      build_schedule_sums (pos_part tenor) principal profit (omega arith) in
    record {
      down_nonneg = nonneg;
      financed_pos = omega int_laws;
      cash = omega int_laws;
      sale_price = refl;
      financed = omega int_laws;
      lines = lines;
      numbered = numbered;
      principal = principals;
      profit = profits;
    }

-- A plan is made exactly when the tenor is at least a month and the rounded down payment is not
-- negative and below the rounded cash price; each refusal names the first of these that fails. The
-- amounts of a plan that is made fit together, and its schedule adds up to them to the cent.
pub build_plan-Outcome :
    (cash_price down_payment : Decimal) (tenor : ℤ) (rate : Decimal)
    → Outcome
        (money cash_price)
        (money down_payment)
        tenor
        rate
        (build_plan cash_price down_payment tenor rate)
unfolding build_plan
build_plan-Outcome cash_price down_payment tenor rate =
    let cash = money cash_price in
    let down = money down_payment in
    elim (Bool-cases (ltb_ℤ tenor (pos 1))) [
      | inl short ↦ rw short (ground arith)
      | inr long ↦ rw long (elim (Bool-cases (ltb_ℤ down (pos 0))) [
        | inl negative ↦ rw negative (ground arith)
        | inr nonneg ↦ rw nonneg (elim (Bool-cases (leb_ℤ cash down)) [
          | inl large ↦ rw large (ground arith)
          | inr small ↦ rw small (
              let fits : Fits cash down tenor = ground arith in
              (
                fits,
                plan-IsConsistent cash down tenor rate fits,
                refl,
                refl,
                nonneg-pos_part tenor (omega arith),
                refl,
              ))
        ])
      ])
    ]

build_plan-schedule :
    (cash_price down_payment : Decimal) (tenor : ℤ) (rate : Decimal) (r : PricingResult)
    → build_plan cash_price down_payment tenor rate ≡ priced r
    → r.schedule ≡ build_schedule r.tenor_months r.principal_financed r.total_profit
unfolding build_plan
build_plan-schedule cash_price down_payment tenor rate r e = ground arith

round_ℤ-nonneg : (z : ℤ) (d : ℕ) → pos 0 ≤ℤ z → pos 0 ≤ℤ round_ℤ z d
unfolding round_ℤ
round_ℤ-nonneg (pos n) d h = omega arith
round_ℤ-nonneg (negsuc n) d h = absurd (omega arith)

*ℤ-nonneg : (a b : ℤ) → pos 0 ≤ℤ a → pos 0 ≤ℤ b → pos 0 ≤ℤ a *ℤ b
unfolding ◌*ℤ◌
*ℤ-nonneg (pos a) (pos b) h k = ground arith
*ℤ-nonneg (pos a) (negsuc b) h k = absurd (omega arith)
*ℤ-nonneg (negsuc a) b h k = absurd (omega arith)

money_times-nonneg :
    (a : ℤ) (x : Decimal) → pos 0 ≤ℤ a → pos 0 ≤ℤ x.coefficient → pos 0 ≤ℤ money_times a x
unfolding money_times
money_times-nonneg a x h k = round_ℤ-nonneg _ _ (*ℤ-nonneg a x.coefficient h k)

at_least_one : {n : ℕ} {z : ℤ} → pos n ≡ z → pos 1 ≤ℤ z → 1 ≤ n
at_least_one {n} e h = let le : pos 1 ≤ℤ pos n = subst (λ k. pos 1 ≤ℤ k) (sym e) h in omega arith

shape_of :
    (n : ℕ) (p t : ℤ)
    → 1 ≤ n
    → pos 0 ≤ℤ p
    → pos 0 ≤ℤ t
    → let ls = build_schedule n p t in
      All (IsFairShare n (pos_part p) (pos_part t)) ls × HardlyRises ls
shape_of n (pos p) (pos t) h hp ht = build_schedule_shape n p t h
shape_of n (pos p) (negsuc t) h hp ht = absurd (omega arith)
shape_of n (negsuc p) t h hp ht = absurd (omega arith)

-- In the schedule of a plan that was made at a rate that is not negative, no component is below zero,
-- every line's principal is less than a cent away from an equal share, its profit less than a cent away
-- from its share by the weights n, n - 1, ..., 1, and the profit never rises by more than a cent.
pub build_plan_shape :
    (cash_price down_payment : Decimal) (tenor : ℤ) (rate : Decimal) {r : PricingResult}
    → pos 0 ≤ℤ rate.coefficient
    → build_plan cash_price down_payment tenor rate ≡ priced r
    → All
        (IsFairShare r.tenor_months (pos_part r.principal_financed) (pos_part r.total_profit))
        r.schedule
      × HardlyRises r.schedule
build_plan_shape cash_price down_payment tenor rate {r} h e =
    let (fits, fit, _, _, months, profit) =
      rw e at (build_plan-Outcome cash_price down_payment tenor rate) in
    rw (build_plan-schedule cash_price down_payment tenor rate r e) (
      shape_of r.tenor_months r.principal_financed r.total_profit (at_least_one months fits.0)
        (omega (arith, fit.financed_pos))
        (rw profit (money_times-nonneg _ rate (omega (int_laws, fits.2)) h)))
