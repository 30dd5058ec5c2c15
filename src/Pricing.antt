-- ===== src/Pricing.antt =====
-- app/services/pricing.py: the installment pricing engine. Amounts are whole cents; the profit rate
-- is the configured decimal number. A monthly schedule is built by cumulative rounding.
pub mod Schedule
pub mod Rounded
pub mod Shape
pub mod Plan
use retail_credit_platform.Common.{
  ℕ, zero, suc, ◌+◌, ◌-◌, ◌*◌, ◌/◌, ℤ, pos, pos_part, ◌+ℤ◌, ◌-ℤ◌, ltb, ltb_ℤ, leb_ℤ, Bool, List, [],
  ◌∷◌, if◌then◌else◌,
}
use retail_credit_platform.Common.Rounding.{Decimal, money, money_times, part_of}

pub record InstallmentLine : Type 0 where
  pub sequence_number : ℕ
  pub principal_component : ℤ
  pub profit_component : ℤ

-- `InstallmentLine.total`
unfoldable pub total : InstallmentLine → ℤ
total line = line.principal_component +ℤ line.profit_component

pub record PricingResult : Type 0 where
  pub cash_price : ℤ
  pub down_payment : ℤ
  pub tenor_months : ℕ
  pub profit_rate : Decimal
  pub principal_financed : ℤ
  pub total_profit : ℤ
  pub installment_sale_price : ℤ
  pub amount_financed : ℤ
  pub schedule : List InstallmentLine

-- The messages of `PricingError`.
pub data PricingError : Type 0 where
  tenor_too_short negative_down_payment down_payment_too_large : PricingError

pub data Priced : Type 0 where
  priced : PricingResult → Priced
  refused : PricingError → Priced

-- The cumulative amounts that the loop rounds: number `i` of `n`, with the weight reached so far. The
-- final installment absorbs all remaining rounding.
unfoldable pub principal_cum : (n : ℕ) → ℤ → (i : ℕ) → ℤ
principal_cum n principal_financed i =
    if ltb i n then part_of principal_financed i n else principal_financed

unfoldable pub profit_cum : (n total_weight : ℕ) → ℤ → (i cumulative_weight : ℕ) → ℤ
profit_cum n total_weight total_profit i cumulative_weight =
    if ltb i n then part_of total_profit cumulative_weight total_weight else total_profit

-- The loop `for i in range(1, n + 1)`: `left` installments are to come, the first of them has
-- number `i`, and the other arguments are the loop's variables.
module _ (n total_weight : ℕ) (principal_financed total_profit : ℤ) where
  unfoldable pub build_lines :
      (i cumulative_weight : ℕ) (prev_principal_cum prev_profit_cum : ℤ) (left : ℕ)
      → List InstallmentLine
  build_lines i cumulative_weight prev_principal_cum prev_profit_cum zero = []
  build_lines i cumulative_weight prev_principal_cum prev_profit_cum (suc left) =
      let weight = cumulative_weight + (n - i + 1) in
      let principal = principal_cum n principal_financed i in
      let profit = profit_cum n total_weight total_profit i weight in
      record {
        sequence_number = i;
        principal_component = principal -ℤ prev_principal_cum;
        profit_component = profit -ℤ prev_profit_cum;
      }
      ∷ build_lines (i + 1) weight principal profit left

-- The declining-balance schedule of `n` installments.
unfoldable pub build_schedule : ℕ → (principal_financed total_profit : ℤ) → List InstallmentLine
unfolding build_lines
build_schedule n principal_financed total_profit =
    build_lines n (n * (n + 1) / 2) principal_financed total_profit 1 0 (pos 0) (pos 0) n

unfoldable pub build_plan : (cash_price down_payment : Decimal) → ℤ → Decimal → Priced
build_plan cash_price down_payment tenor_months profit_rate =
    let cash = money cash_price in
    let down = money down_payment in
    let n = pos_part tenor_months in
    let principal = cash -ℤ down in
    let profit = money_times principal profit_rate in
    if ltb_ℤ tenor_months (pos 1)
    then refused tenor_too_short
    else if ltb_ℤ down (pos 0)
    then refused negative_down_payment
    else if leb_ℤ cash down
    then refused down_payment_too_large
    else priced (record {
      cash_price = cash;
      down_payment = down;
      tenor_months = n;
      profit_rate = profit_rate;
      principal_financed = principal;
      total_profit = profit;
      installment_sale_price = cash +ℤ profit;
      amount_financed = principal +ℤ profit;
      schedule = build_schedule n principal profit;
    })
