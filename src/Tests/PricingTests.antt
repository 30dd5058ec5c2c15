-- ===== src/Tests/PricingTests.antt =====
-- app/services/pricing.py on small offers.
use retail_credit_platform.Common.{
  ◌≡◌, refl, pos, negsuc, [], ◌∷◌, All, length, ◌+ℤ◌, ◌-ℤ◌, ◌*ℤ◌, map, arith,
}
use retail_credit_platform.Common.Rounding.{Decimal, money, money_times, part_of, round_half_up}
use retail_credit_platform.Pricing.{
  PricingResult, priced, build_plan, build_schedule, principal_cum, profit_cum,
}
use retail_credit_platform.Pricing.Schedule.{
  principal_sum, profit_sum, NumberedFrom, build_schedule_sums,
}
use retail_credit_platform.Pricing.Rounded.{rounded_lines, build_schedule-eq-rounded}
use retail_credit_platform.Pricing.Shape.{IsFairShare, HardlyRises, build_schedule_shape}
use retail_credit_platform.Pricing.Plan.{Outcome, build_plan-Outcome, build_plan_shape}

-- 1200.00 with 200.00 down over three months at 12 %.
abbrev cash : Decimal
cash = record { coefficient = pos 120_000; places = 2 }

abbrev down : Decimal
down = record { coefficient = pos 200; places = 0 }

abbrev rate : Decimal
rate = record { coefficient = pos 12; places = 2 }

abbrev offer : PricingResult
offer = record {
  cash_price = pos 120_000;
  down_payment = pos 20_000;
  tenor_months = 3;
  profit_rate = rate;
  principal_financed = pos 100_000;
  total_profit = pos 12_000;
  installment_sale_price = pos 132_000;
  amount_financed = pos 112_000;
  schedule =
      record { sequence_number = 1; principal_component = pos 33_333; profit_component = pos 6000 }
      ∷ record {
        sequence_number = 2;
        principal_component = pos 33_334;
        profit_component = pos 4000;
      }
      ∷ record {
        sequence_number = 3;
        principal_component = pos 33_333;
        profit_component = pos 2000;
      }
      ∷ [];
}

three_months : build_plan cash down (pos 3) rate ≡ priced offer
unfolding build_plan build_schedule principal_cum profit_cum part_of money money_times round_half_up
    ◌+ℤ◌ ◌-ℤ◌ ◌*ℤ◌
three_months = refl

-- The profit column may rise again: two cents over four months come as 1, 0, 1, 0.
profit_rises :
    map (λ l. l.profit_component) (build_schedule 4 (pos 100) (pos 2))
    ≡ pos 1 ∷ pos 0 ∷ pos 1 ∷ pos 0 ∷ []
unfolding build_schedule principal_cum profit_cum part_of round_half_up ◌-ℤ◌
profit_rises = refl

build_schedule_sums_example :
    let ls = build_schedule 4 (pos 100) (negsuc 6) in
    (length ls ≡ 4) × NumberedFrom 1 ls × (principal_sum ls ≡ pos 100) × (profit_sum ls ≡ negsuc 6)
build_schedule_sums_example = build_schedule_sums 4 (pos 100) (negsuc 6) (omega arith)

build_schedule-eq-rounded_example :
    build_schedule 3 (pos 100_000) (pos 12_000) ≡ rounded_lines 3 6 100_000 12_000 0 0 3
build_schedule-eq-rounded_example = build_schedule-eq-rounded 3 100_000 12_000 (omega arith)

build_schedule_shape_example :
    let ls = build_schedule 4 (pos 100) (pos 2) in All (IsFairShare 4 100 2) ls × HardlyRises ls
build_schedule_shape_example = build_schedule_shape 4 100 2 (omega arith)

build_plan-Outcome_example :
    Outcome (money cash) (money down) (pos 3) rate (build_plan cash down (pos 3) rate)
build_plan-Outcome_example = build_plan-Outcome cash down (pos 3) rate

build_plan_shape_example :
    All (IsFairShare 3 100_000 12_000) offer.schedule × HardlyRises offer.schedule
build_plan_shape_example = build_plan_shape cash down (pos 3) rate (omega arith) three_months
