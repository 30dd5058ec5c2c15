-- ===== src/Closure/Quoted.antt =====
-- What a settlement quote comes to, and when it is refused.
use retail_credit_platform.Common.{
  ℕ, suc, zero, ◌*◌, ◌^◌, ◌≤◌, ◌<◌, ◌≡◌, refl, subst, ◌⊎◌, inl, inr, ℤ, pos, negsuc, ◌+ℤ◌, ◌-ℤ◌,
  ◌≤ℤ◌, ◌<ℤ◌, ltb_ℤ, ltb_ℤ→lt, ltb_ℤ→ge, true, false, ◌&&◌, ◌||◌, Option, none, some, arith,
  product_pos, int_laws, Bool-cases, sum_by,
}
use retail_credit_platform.Common.Rounding.{
  Decimal, money, money_times, round_half_up, round_half_up_mono, round_half_up_exact,
}
use retail_credit_platform.Common.Result.{Result, ok, err}
use retail_credit_platform.Contract.{
  InstallmentContract, is_active, is_closed, principal_outstanding, sum_outstanding, charges_of,
}
use retail_credit_platform.Closure.Quote.{
  ClosureConfig, ClosureError, RebateRequest, Rebate, SettlementQuote, outside_unit, resolve_rebate,
  quote_of, build_settlement_quote, is_given,
}

ten_pow_pos : (p : ℕ) → 0 < 10 ^ p
ten_pow_pos zero = omega arith
ten_pow_pos (suc p) = omega (arith, ten_pow_pos p)

abbrev pub Between : (low z high : ℤ) → Type 0
Between low z high = (low ≤ℤ z) × (z ≤ℤ high)

share : (n k d : ℕ) → 0 < d → k ≤ d → round_half_up (n * k) d ≤ n
share n k d h le =
    subst (λ m. round_half_up (n * k) d ≤ m) (round_half_up_exact n d h)
      (round_half_up_mono (n * k) (n * d) d h (grind arith))

-- A share between none and all of an amount that is not negative lies between zero and the amount.
money_times-Between :
    (amount : ℤ) (c : ℤ) (p : ℕ)
    → pos 0 ≤ℤ amount
    → outside_unit (record { coefficient = c; places = p }) ≡ false
    → Between (pos 0) (money_times amount (record { coefficient = c; places = p })) amount
unfolding money_times outside_unit
money_times-Between (negsuc n) c p h e = absurd (omega arith)
money_times-Between (pos n) (negsuc k) p h e = ground arith
money_times-Between (pos n) (pos k) p h e =
    rw (product_pos n k)
      (omega arith, omega (arith, share n k (10 ^ p) (ten_pow_pos p) (within k (10 ^ p) e)))
  where
    within : (k d : ℕ) → ltb_ℤ (pos k) (pos 0) || ltb_ℤ (pos d) (pos k) ≡ false → k ≤ d
    within k d e = ground arith

-- How a rebate is refused or granted.
abbrev pub Grants : Decimal → (unearned : ℤ) → RebateRequest → Result ClosureError Rebate → Type 0
Grants default_pct unearned request (ok rebate) = Between (pos 0) rebate.amount unearned
Grants default_pct unearned request (err ClosureError.pct_out_of_range) =
    (x : Decimal) × (request.pct ≡ some x) × (outside_unit x ≡ true)
Grants default_pct unearned request (err ClosureError.rebate_out_of_range) =
    (x : Decimal) × (request.amount ≡ some x) × ((money x <ℤ pos 0) ⊎ (unearned <ℤ money x))
Grants default_pct unearned request (err _) = ⊥

resolve_rebate-Grants :
    (default_pct : Decimal) (unearned : ℤ) (pct amount : Option Decimal)
    → outside_unit default_pct ≡ false
    → pos 0 ≤ℤ unearned
    → let request : RebateRequest = record { pct = pct; amount = amount } in
      Grants default_pct unearned request (resolve_rebate default_pct unearned request)
unfolding resolve_rebate
resolve_rebate-Grants default_pct unearned (some x) amount h nonneg =
    elim (Bool-cases (outside_unit x)) [
      | inl out ↦ rw out (x, refl, out)
      | inr within ↦ rw within (money_times-Between unearned x.coefficient x.places nonneg within)
    ]
resolve_rebate-Grants default_pct unearned none none h nonneg =
    money_times-Between unearned default_pct.coefficient default_pct.places nonneg h
resolve_rebate-Grants default_pct unearned none (some x) h nonneg =
    elim (Bool-cases (ltb_ℤ (money x) (pos 0))) [
      | inl low ↦ rw low (x, refl, inl (ltb_ℤ→lt (money x) (pos 0) low))
      | inr not_low ↦ rw not_low (elim (Bool-cases (ltb_ℤ unearned (money x))) [
        | inl high ↦ rw high (x, refl, inr (ltb_ℤ→lt unearned (money x) high))
        | inr not_high ↦
            rw not_high (ltb_ℤ→ge (money x) (pos 0) not_low, ltb_ℤ→ge unearned (money x) not_high)
      ])
    ]

-- A quote that adds up, for an active contract.
pub record AddsUp (c : InstallmentContract) (q : SettlementQuote) : Type 0 where
  pub active : is_active c.status ≡ true
  pub rebate : Between (pos 0) q.profit_rebate_amount c.unearned_profit_balance
  pub charged : Between (pos 0) q.profit_still_charged c.unearned_profit_balance
  pub profit : q.profit_still_charged +ℤ q.profit_rebate_amount ≡ c.unearned_profit_balance
  pub principal : q.outstanding_principal ≡ sum_by principal_outstanding c.installments
  pub late_fees : q.outstanding_late_fees ≡ sum_outstanding (charges_of c.installments)
  pub payoff :
      q.final_payoff_amount
      ≡ q.outstanding_principal +ℤ q.outstanding_late_fees +ℤ q.profit_still_charged

-- The answers of `build_settlement_quote`, each under its condition.
abbrev pub Quotes :
    Decimal → InstallmentContract → RebateRequest → Result ClosureError SettlementQuote → Type 0
Quotes default_pct c request (ok q) = AddsUp c q
Quotes default_pct c request (err ClosureError.already_closed) = is_closed c.status ≡ true
Quotes default_pct c request (err ClosureError.not_active) =
    (is_closed c.status ≡ false) × (is_active c.status ≡ false)
Quotes default_pct c request (err ClosureError.both_rebates) =
    (is_active c.status ≡ true) × (is_given request.pct && is_given request.amount ≡ true)
Quotes default_pct c request (err ClosureError.pct_out_of_range) =
    (is_active c.status ≡ true)
    × Grants default_pct c.unearned_profit_balance request (err ClosureError.pct_out_of_range)
Quotes default_pct c request (err ClosureError.rebate_out_of_range) =
    (is_active c.status ≡ true)
    × Grants default_pct c.unearned_profit_balance request (err ClosureError.rebate_out_of_range)
Quotes default_pct c request (err _) = ⊥

charged_within : (u r : ℤ) → Between (pos 0) r u → Between (pos 0) (u -ℤ r) u
charged_within u r (low, high) = (omega (int_laws, low, high), omega (int_laws, low, high))

quote_of-AddsUp :
    (config : ClosureConfig) (now : ℕ) (c : InstallmentContract) (rebate : Rebate)
    → is_active c.status ≡ true
    → Between (pos 0) rebate.amount c.unearned_profit_balance
    → AddsUp c (quote_of config now c rebate)
unfolding quote_of
quote_of-AddsUp config now c rebate active within = record {
  active = active;
  rebate = within;
  charged = charged_within c.unearned_profit_balance rebate.amount within;
  profit = omega int_laws;
  principal = refl;
  late_fees = refl;
  payoff = refl;
}

by_grant :
    (config : ClosureConfig) (now : ℕ) (c : InstallmentContract) (request : RebateRequest)
    (r : Result ClosureError Rebate)
    → is_active c.status ≡ true
    → Grants config.early_settlement_profit_rebate_pct c.unearned_profit_balance request r
    → Quotes config.early_settlement_profit_rebate_pct c request
        (elim r [ err e ↦ err e | ok rebate ↦ ok (quote_of config now c rebate) ])
by_grant config now c request (ok rebate) active h = quote_of-AddsUp config now c rebate active h
by_grant config now c request (err ClosureError.pct_out_of_range) active h = (active, h)
by_grant config now c request (err ClosureError.rebate_out_of_range) active h = (active, h)
by_grant config now c request (err ClosureError.already_closed) active h = absurd h
by_grant config now c request (err ClosureError.not_active) active h = absurd h
by_grant config now c request (err ClosureError.both_rebates) active h = absurd h
by_grant config now c request (err ClosureError.amount_mismatch) active h = absurd h
by_grant config now c request (err ClosureError.already_delivered) active h = absurd h
by_grant config now c request (err ClosureError.not_delivered) active h = absurd h
by_grant config now c request (err ClosureError.reference_taken) active h = absurd h

-- Where the configured rebate is between none and all of the profit, and the unearned profit is not
-- negative: every quote is for an active contract, its rebate and the profit still charged lie between
-- zero and the unearned profit and add up to it, and the payoff is the outstanding principal, the
-- outstanding late fees and the profit still charged; a quote is refused only for a closed contract, one that is not
-- active, a rebate that is asked for in both ways, a share outside 0 to 1, or an amount below zero or
-- above the unearned profit.
pub build_settlement_quote-Quotes :
    (config : ClosureConfig) (now : ℕ) (c : InstallmentContract) (request : RebateRequest)
    → outside_unit config.early_settlement_profit_rebate_pct ≡ false
    → pos 0 ≤ℤ c.unearned_profit_balance
    → Quotes config.early_settlement_profit_rebate_pct c request
        (build_settlement_quote config now c request)
unfolding build_settlement_quote
build_settlement_quote-Quotes config now c request h nonneg =
    elim (Bool-cases (is_closed c.status)) [
      | inl closed ↦ rw closed closed
      | inr not_closed ↦ rw not_closed (elim (Bool-cases (is_active c.status)) [
        | inr inactive ↦ rw inactive (not_closed, inactive)
        | inl active ↦
            rw active (elim (Bool-cases (is_given request.pct && is_given request.amount)) [
              | inl both ↦ rw both (active, both)
              | inr one ↦ rw one (
                  by_grant config now c request _ active (
                    resolve_rebate-Grants config.early_settlement_profit_rebate_pct
                      c.unearned_profit_balance request.pct request.amount h nonneg))
            ])
      ])
    ]
