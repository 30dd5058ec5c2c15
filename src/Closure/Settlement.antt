-- ===== src/Closure/Settlement.antt =====
-- Early settlement as a whole, on every branch.
use retail_credit_platform.Common.{
  ◌≡◌, refl, sym, subst, ◌∙◌, ap, ℤ, pos, ◌+ℤ◌, ◌-ℤ◌, ◌≤ℤ◌, eqb_ℤ, eqb_ℤ→eq, true, false, some,
  List, [], ◌∷◌, All, arith, int_laws, Bool-cases, Option-cases, inl, inr, sum_by,
}
use retail_credit_platform.Common.Rounding.{money}
use retail_credit_platform.Common.Result.{Result, ok, err, Result-cases}
use retail_credit_platform.Common.Text.{strip}
use retail_credit_platform.Contract.{
  Installment, InstallmentContract, ContractClosure, is_closed, principal_outstanding,
  late_fee_outstanding,
}
use retail_credit_platform.Ledger.{LedgerRelatedAction}
use retail_credit_platform.Accounting.{Accounting}
use retail_credit_platform.Payments.Record.{
  Collections, Store, Payment, total_outstanding, find_payment,
}
use retail_credit_platform.Payments.Owed.{sum_outstanding-charges_of, total_outstanding-eq-sums}
use retail_credit_platform.Payments.Entries.{posted}
use retail_credit_platform.Closure.Quote.{
  ClosureConfig, ClosureError, SettlementQuote, build_settlement_quote, outside_unit,
}
use retail_credit_platform.Closure.Quoted.{AddsUp, Quotes, build_settlement_quote-Quotes}
use retail_credit_platform.Closure.Endings.{
  ended, settlement_parts, close_out_schedule, SettleRequest, settlement_closure, settle_for,
  settle_contract,
}
use retail_credit_platform.Closure.Settled.{
  written_off, close_out_schedule-outstanding, NonnegPart, parts_total, record_parts-posted,
}

sum_nonneg :
    (f : Installment → ℤ) (is : List Installment)
    → All (λ i. pos 0 ≤ℤ f i) is
    → pos 0 ≤ℤ sum_by f is
unfolding sum_by
sum_nonneg f [] h = omega arith
sum_nonneg f (i ∷ is) (h, hs) = omega (int_laws, h, sum_nonneg f is hs)

-- Neither the principal nor the late fees of an installment are below zero.
pub record IsOwed (i : Installment) : Type 0 where
  pub principal_nonneg : pos 0 ≤ℤ principal_outstanding i
  pub late_fee_nonneg : pos 0 ≤ℤ late_fee_outstanding i

owed_principal :
    (is : List Installment) → All IsOwed is → All (λ i. pos 0 ≤ℤ principal_outstanding i) is
owed_principal [] h = tt
owed_principal (i ∷ is) (h, hs) = (h.principal_nonneg, owed_principal is hs)

owed_late_fee :
    (is : List Installment) → All IsOwed is → All (λ i. pos 0 ≤ℤ late_fee_outstanding i) is
owed_late_fee [] h = tt
owed_late_fee (i ∷ is) (h, hs) = (h.late_fee_nonneg, owed_late_fee is hs)

parts_sum :
    (q : SettlementQuote) (paid : ℤ)
    → paid ≡ q.outstanding_principal +ℤ q.outstanding_late_fees +ℤ q.profit_still_charged
    → parts_total (settlement_parts q) ≡ paid +ℤ q.profit_rebate_amount
unfolding sum_by
parts_sum q paid e = rw e (omega int_laws)

module _ (acc : Accounting) (col : Collections) (config : ClosureConfig) where
  -- What a settlement leaves: a closed contract with its closure, nothing outstanding but what was
  -- written off, below zero, no unearned profit, and ledger entries for the payoff and the rebate.
  pub record IsSettled (s s' : Store acc col) (r : SettleRequest) (q : SettlementQuote)
      (closure : ContractClosure) : Type 0 where
    pub closed : is_closed s'.contract.status ≡ true
    pub has : s'.contract.closure ≡ some closure
    pub outstanding : total_outstanding s'.contract ≡ pos 0 -ℤ written_off s.contract
    pub unearned : s'.contract.unearned_profit_balance ≡ pos 0
    pub entries : posted s'.ledger ≡ posted s.ledger +ℤ (money r.amount +ℤ q.profit_rebate_amount)

  abbrev pub Settles :
      (s : Store acc col)
      → SettleRequest
      → Result ClosureError (Store acc col × ContractClosure)
      → Type 0
  Settles s r (ok (s', closure)) =
      (q : SettlementQuote) × (build_settlement_quote config r.now s.contract r.rebate ≡ ok q)
      × (money r.amount ≡ q.final_payoff_amount)
      × IsSettled s s' r q closure
  Settles s r (err ClosureError.amount_mismatch) =
      (q : SettlementQuote) × (build_settlement_quote config r.now s.contract r.rebate ≡ ok q)
      × (eqb_ℤ (money r.amount) q.final_payoff_amount ≡ false)
  Settles s r (err ClosureError.reference_taken) =
      (p : Payment) × (find_payment (strip r.external_reference) s.payments ≡ some p)
  Settles s r (err e) = Quotes config.early_settlement_profit_rebate_pct s.contract r.rebate (err e)

  refused :
      (s : Store acc col) (r : SettleRequest) (e : ClosureError)
      → Quotes config.early_settlement_profit_rebate_pct s.contract r.rebate (err e)
      → Settles s r (err e)
  refused s r ClosureError.already_closed h = h
  refused s r ClosureError.not_active h = h
  refused s r ClosureError.both_rebates h = h
  refused s r ClosureError.pct_out_of_range h = h
  refused s r ClosureError.rebate_out_of_range h = h
  refused s r ClosureError.amount_mismatch h = absurd h
  refused s r ClosureError.already_delivered h = h
  refused s r ClosureError.not_delivered h = h
  refused s r ClosureError.reference_taken h = absurd h

  nonneg_parts :
      (c : InstallmentContract) (q : SettlementQuote)
      → All IsOwed c.installments
      → AddsUp c q
      → All NonnegPart (settlement_parts q)
  nonneg_parts c q owed adds =
      let principal =
        sum_nonneg principal_outstanding c.installments (owed_principal c.installments owed) in
      let late_fees =
        sum_nonneg late_fee_outstanding c.installments (owed_late_fee c.installments owed) in
      (
        subst (λ z. pos 0 ≤ℤ z) (sym adds.principal) principal,
        (
          subst (λ z. pos 0 ≤ℤ z) (sym (adds.late_fees ∙ sum_outstanding-charges_of c.installments))
              late_fees,
          (adds.charged.0, (adds.rebate.0, tt)),
        ),
      )

  settle_for-IsSettled :
      (s : Store acc col) (r : SettleRequest) (q : SettlementQuote)
      → AddsUp s.contract q
      → All IsOwed s.contract.installments
      → money r.amount ≡ q.final_payoff_amount
      → IsSettled s (settle_for acc col config s r q) r q (settlement_closure acc col config s)
  unfolding settle_for
  settle_for-IsSettled s r q adds owed paid =
      let closed = ended (settlement_closure acc col config s) (close_out_schedule s.contract) in
      record {
        closed = refl;
        has = refl;
        outstanding =
            total_outstanding-eq-sums closed
            ∙ sym (total_outstanding-eq-sums (close_out_schedule s.contract))
            ∙ (close_out_schedule-outstanding s.contract).0;
        unearned = (close_out_schedule-outstanding s.contract).1;
        entries =
            record_parts-posted s.contract.id s.next_closure r.actor_id
              LedgerRelatedAction.settlement (settlement_parts q) s.ledger
              (nonneg_parts s.contract q owed adds)
            ∙ ap (λ z. posted s.ledger +ℤ z) (parts_sum q (money r.amount) (paid ∙ adds.payoff));
      }

  -- Where the configured rebate is between none and all of the profit, and neither the unearned profit
  -- nor the principal or the late fees outstanding on an installment are below zero: a settlement succeeds exactly with an amount equal to the payoff of a quote that adds up,
  -- and leaves the contract closed under its closure, without unearned profit and with nothing
  -- outstanding but what was written off, below zero, and the ledger with the payoff and the rebate
  -- added; it is refused as the quote is, for another amount, or for a reference that a payment has.
  pub settle_contract-Settles :
      (s : Store acc col) (r : SettleRequest)
      → outside_unit config.early_settlement_profit_rebate_pct ≡ false
      → pos 0 ≤ℤ s.contract.unearned_profit_balance
      → All IsOwed s.contract.installments
      → Settles s r (settle_contract acc col config s r)
  unfolding settle_contract
  settle_contract-Settles s r h nonneg owed =
      let quotes = build_settlement_quote-Quotes config r.now s.contract r.rebate h nonneg in
      let quote_of_call = build_settlement_quote config r.now s.contract r.rebate in
      elim (Result-cases quote_of_call) [
        | inl (e, k) ↦
            rw (k, settle_contract)
              (refused s r e (
                subst (λ x. Quotes config.early_settlement_profit_rebate_pct s.contract r.rebate x)
                  k quotes))
        | inr (q, k) ↦
            rw (k, settle_contract)
              (let adds : AddsUp s.contract q =
                  subst
                    (λ x. Quotes config.early_settlement_profit_rebate_pct s.contract r.rebate x) k
                    quotes in
                elim (Bool-cases (eqb_ℤ (money r.amount) q.final_payoff_amount)) [
                  | inr other ↦ rw other (q, k, other)
                  | inl same ↦
                      rw same
                        (elim (Option-cases
                          (find_payment (strip r.external_reference) s.payments)) [
                            | inr (p, taken) ↦ rw (taken, settle_contract) (p, taken)
                            | inl free ↦
                                rw (free, settle_contract)
                                  (let paid =
                                      eqb_ℤ→eq (money r.amount) q.final_payoff_amount same in
                                    (q, k, paid, settle_for-IsSettled s r q adds owed paid))
                          ])
                ])
      ]
