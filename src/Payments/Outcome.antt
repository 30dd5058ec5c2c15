-- ===== src/Payments/Outcome.antt =====
-- What a call of `record_payment` has done, on every branch.
use retail_credit_platform.Common.{
  ℕ, ◌≡◌, refl, sym, ap, ◌∙◌, ℤ, pos, ◌-ℤ◌, ◌≤ℤ◌, ◌<ℤ◌, ltb_ℤ, leb_ℤ, leb_ℤ→le, leb_ℤ→gt, ltb_ℤ→lt,
  ltb_ℤ→ge, true, false, none, some, [], ◌∷◌, ◌++◌, arith, Bool-cases, Option-cases, inl, inr, ◌⊎◌,
  sum_by, map,
}
use retail_credit_platform.Common.Rounding.{money}
use retail_credit_platform.Common.Result.{Result, ok, err}
use retail_credit_platform.Common.Text.{strip, is_empty}
use retail_credit_platform.Contract.{InstallmentContract, is_active, profit_outstanding}
use retail_credit_platform.Contract.Receivable.{profit_of, build_receivable}
use retail_credit_platform.Allocation.{allocate}
use retail_credit_platform.Accounting.{Accounting}
use retail_credit_platform.Closure.{close_if_fully_repaid, is_fully_repaid}
use retail_credit_platform.Payments.Record.{
  PaymentStatus, Collections, PaymentRequest, Store, PaymentOutcome, PaymentError,
  reference_required, not_active, amount_not_positive, exceeds_outstanding, find_payment,
  total_outstanding, to_outstanding, outstanding_installments, new_payment, emit_payment,
  profit_recognised, settle_payment, record_payment,
}
use retail_credit_platform.Payments.Owed.{allocate_in_full}
use retail_credit_platform.Payments.Balances.{
  IsWellFormed, lines_of, paid_contract, paid_contract_lem,
}

module _ (acc : Accounting) (col : Collections) where
  -- A payment of `amount` that was made, from the store `s` to the store `s'`.
  pub record IsPaid (s s' : Store acc col) (amount : ℤ) (o : PaymentOutcome acc col) : Type 0 where
    pub amount_is : o.payment.amount ≡ amount
    pub applied_in_full : o.payment.status ≡ PaymentStatus.applied
    pub allocated : o.payment.allocated_amount ≡ amount
    pub unallocated : o.payment.unallocated_amount ≡ pos 0
    pub recorded : s'.payments ≡ s.payments ++ o.payment ∷ []
    pub total : total_outstanding s'.contract ≡ total_outstanding s.contract -ℤ amount
    pub earned :
        s.contract.unearned_profit_balance -ℤ s'.contract.unearned_profit_balance
        ≡ profit_of s.contract.installments -ℤ profit_of s'.contract.installments

  -- What a result says of the call.
  abbrev pub Describes :
      Store acc col
      → PaymentRequest
      → Result PaymentError (Store acc col × PaymentOutcome acc col)
      → Type 0
  Describes s r (err reference_required) = is_empty (strip r.external_reference) ≡ true
  Describes s r (err not_active) = is_active s.contract.status ≡ false
  Describes s r (err amount_not_positive) = money r.amount ≤ℤ pos 0
  Describes s r (err exceeds_outstanding) = total_outstanding s.contract <ℤ money r.amount
  Describes s r (ok (s', o)) =
      ((o.replayed ≡ true)
        × (s' ≡ s)
        × (find_payment (strip r.external_reference) s.payments ≡ some o.payment))
      ⊎ ((o.replayed ≡ false)
          × (find_payment (strip r.external_reference) s.payments ≡ none)
          × IsPaid s s' (money r.amount) o)

  pub closed_total :
      (closure_id now : ℕ) (c : InstallmentContract) (b : acc.Books)
      → let c' = (close_if_fully_repaid acc closure_id now c b).0 in
        (total_outstanding c' ≡ total_outstanding c)
        × (c'.unearned_profit_balance ≡ c.unearned_profit_balance)
        × (c'.installments ≡ c.installments)
  unfolding close_if_fully_repaid total_outstanding build_receivable
  closed_total closure_id now c b = elim (Bool-cases (is_fully_repaid c)) [
    | inl full ↦ rw full (refl, refl, refl)
    | inr open_still ↦ rw open_still (refl, refl, refl)
  ]

  settle_payment-IsPaid :
      (s : Store acc col) (r : PaymentRequest) (amount : ℤ)
      → IsWellFormed s.contract
      → pos 0 <ℤ amount
      → amount ≤ℤ total_outstanding s.contract
      → let (s', o) = settle_payment acc col s r amount in IsPaid s s' amount o
  unfolding settle_payment new_payment paid_contract profit_of
  settle_payment-IsPaid s r amount w h le =
      let (allocated, unallocated) = allocate_in_full s.contract amount (omega arith) le in
      let (total, earned) = paid_contract_lem s.contract amount w (omega arith) le in
      let ls = lines_of s.contract amount in
      let plan = allocate amount (map to_outstanding (outstanding_installments s.contract)) in
      let books =
        emit_payment acc col (new_payment acc col s r amount plan) (profit_recognised ls) s.books in
      let (same_total, same_unearned, same_lines) =
        closed_total s.next_closure r.now (paid_contract s.contract amount w) books in
      record {
        amount_is = refl;
        applied_in_full = rw unallocated refl;
        allocated = allocated;
        unallocated = unallocated;
        recorded = refl;
        total = same_total ∙ total;
        earned =
            ap (λ z. s.contract.unearned_profit_balance -ℤ z) same_unearned
            ∙ earned
            ∙ ap
                (λ is.
                  sum_by profit_outstanding s.contract.installments -ℤ sum_by profit_outstanding is)
                (sym same_lines);
      }

  -- On a well-formed contract every call of `record_payment` ends in one of six ways, each under its
  -- own condition: it is refused for a missing reference, for a contract that is not active, for an
  -- amount that is not positive, or for one above the total outstanding; it replays the payment
  -- that has its reference, changing nothing; or it records a payment that is allocated in full, and
  -- that lowers the total outstanding by exactly its amount and the unearned profit by exactly the
  -- profit that it settles.
  pub record_payment_outcome :
      (s : Store acc col) (r : PaymentRequest)
      → IsWellFormed s.contract
      → Describes s r (record_payment acc col s r)
  unfolding record_payment
  record_payment_outcome s r w =
      let reference = strip r.external_reference in
      let amount = money r.amount in
      elim (Bool-cases (is_empty reference)) [
        | inl empty ↦ rw empty empty
        | inr given ↦ rw given (elim (Option-cases (find_payment reference s.payments)) [
          | inr (existing, e) ↦ rw e (inl (refl, refl, e))
          | inl fresh ↦ rw fresh (elim (Bool-cases (is_active s.contract.status)) [
            | inr inactive ↦ rw inactive inactive
            | inl active ↦ rw active (elim (Bool-cases (leb_ℤ amount (pos 0))) [
              | inl low ↦ rw low (leb_ℤ→le amount (pos 0) low)
              | inr high ↦
                  rw high (elim (Bool-cases (ltb_ℤ (total_outstanding s.contract) amount)) [
                    | inl over ↦ rw over (ltb_ℤ→lt _ amount over)
                    | inr within ↦ rw within (
                        inr (
                          refl,
                          fresh,
                          settle_payment-IsPaid s r amount w (leb_ℤ→gt amount (pos 0) high)
                              (ltb_ℤ→ge _ amount within),
                        ))
                  ])
            ])
          ])
        ])
      ]
