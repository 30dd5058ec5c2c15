-- ===== src/Closure/Quote.antt =====
-- app/services/closure.py: the settlement quote. Times are counted in seconds here.
use retail_credit_platform.Common.{
  ℕ, ◌+◌, ◌*◌, ◌^◌, ℤ, pos, ◌+ℤ◌, ◌-ℤ◌, ltb_ℤ, eqb_ℤ, Bool, true, false, not, ◌&&◌, ◌||◌, Option,
  none, some, if◌then◌else◌, sum_by,
}
use retail_credit_platform.Common.Rounding.{Decimal, money, money_times}
use retail_credit_platform.Common.Result.{Result, ok, err}
use retail_credit_platform.Contract.{
  InstallmentContract, is_active, is_closed, principal_outstanding, sum_outstanding, charges_of,
}

-- The configured numbers that the endings of a contract depend on.
pub record ClosureConfig : Type 0 where
  pub early_settlement_profit_rebate_pct : Decimal
  pub settlement_quote_validity_days : ℕ
  pub down_payment_refund_pct_cancellation : Decimal
  pub down_payment_refund_pct_return : Decimal
  pub ownership_transfers_on_delivery : Bool

pub data ClosureError : Type 0 where
  already_closed not_active both_rebates pct_out_of_range rebate_out_of_range amount_mismatch
        already_delivered not_delivered reference_taken :
      ClosureError

-- `requested_rebate_pct` and `requested_rebate_amount`
pub record RebateRequest : Type 0 where
  pub pct : Option Decimal
  pub amount : Option Decimal

-- A rebate's share of the unearned profit: as it was given, or as a quotient.
pub data RebatePct : Type 0 where
  given : Decimal → RebatePct
  quotient : (rebate unearned : ℤ) → RebatePct
  no_rebate : RebatePct

pub record Rebate : Type 0 where
  pub pct : RebatePct
  pub amount : ℤ

pub record SettlementQuote : Type 0 where
  pub contract_id : ℕ
  pub outstanding_principal : ℤ
  pub outstanding_late_fees : ℤ
  pub unearned_profit_total : ℤ
  pub profit_rebate_pct : RebatePct
  pub profit_rebate_amount : ℤ
  pub profit_still_charged : ℤ
  pub final_payoff_amount : ℤ
  pub quote_expiry : ℕ
  pub is_deviation : Bool

-- `x < 0 or x > 1`
unfoldable pub outside_unit : Decimal → Bool
outside_unit x = ltb_ℤ x.coefficient (pos 0) || ltb_ℤ (pos (10 ^ x.places)) x.coefficient

-- `_guard_not_closed`, before what follows it.
abbrev pub unless_closed {ℓ} :
    {A : Type ℓ} → InstallmentContract → Result ClosureError A → Result ClosureError A
unless_closed contract next = if is_closed contract.status then err already_closed else next

-- The rebate that is granted: as requested, or as configured.
unfoldable pub resolve_rebate :
    Decimal → (unearned : ℤ) → RebateRequest → Result ClosureError Rebate
unfolding outside_unit
resolve_rebate default_pct unearned request = elim request.pct [
  | some pct ↦
      if outside_unit pct
      then err pct_out_of_range
      else ok (record { pct = given pct; amount = money_times unearned pct })
  | none ↦ elim request.amount [
    | some requested ↦
        let amount = money requested in
        if ltb_ℤ amount (pos 0) || ltb_ℤ unearned amount
        then err rebate_out_of_range
        else ok (record {
          pct = if ltb_ℤ (pos 0) unearned then quotient amount unearned else no_rebate;
          amount = amount;
        })
    | none ↦ ok (record { pct = given default_pct; amount = money_times unearned default_pct })
  ]
]

abbrev pub is_given : Option Decimal → Bool
is_given none = false
is_given (some _) = true

-- The quote, once the rebate is known.
unfoldable pub quote_of : ClosureConfig → (now : ℕ) → InstallmentContract → Rebate → SettlementQuote
quote_of config now contract rebate =
    let principal = sum_by principal_outstanding contract.installments in
    let late_fees = sum_outstanding (charges_of contract.installments) in
    let unearned = contract.unearned_profit_balance in
    let charged = unearned -ℤ rebate.amount in
    record {
      contract_id = contract.id;
      outstanding_principal = principal;
      outstanding_late_fees = late_fees;
      unearned_profit_total = unearned;
      profit_rebate_pct = rebate.pct;
      profit_rebate_amount = rebate.amount;
      profit_still_charged = charged;
      final_payoff_amount = principal +ℤ late_fees +ℤ charged;
      quote_expiry = now + config.settlement_quote_validity_days * 86_400;
      is_deviation =
          not
            (eqb_ℤ rebate.amount (money_times unearned config.early_settlement_profit_rebate_pct));
    }

unfoldable pub build_settlement_quote :
    ClosureConfig
    → (now : ℕ) → InstallmentContract
    → RebateRequest
    → Result ClosureError SettlementQuote
unfolding resolve_rebate quote_of
build_settlement_quote config now contract request = unless_closed contract (
    if not (is_active contract.status)
    then err not_active
    else if is_given request.pct && is_given request.amount
    then err both_rebates
    else elim (resolve_rebate config.early_settlement_profit_rebate_pct
        contract.unearned_profit_balance request) [
          | err e ↦ err e
          | ok rebate ↦ ok (quote_of config now contract rebate)
        ])
