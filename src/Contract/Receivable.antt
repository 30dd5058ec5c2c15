-- ===== src/Contract/Receivable.antt =====
-- app/services/receivable.py and app/services/exposure.py: what is unpaid on a contract, and on all
-- of a customer's contracts.
use retail_credit_platform.Common.{
  ℕ, ◌+◌, ◌-◌, ℤ, pos, ◌+ℤ◌, not, List, [], ◌∷◌, if◌then◌else◌, length, sum_by, keep,
}
use retail_credit_platform.Contract.{
  Installment, InstallmentContract, ContractStatus, principal_outstanding, profit_outstanding,
  sum_outstanding, charges_of, is_paid, is_closed,
}

unfoldable pub principal_of : List Installment → ℤ
principal_of = sum_by principal_outstanding

unfoldable pub profit_of : List Installment → ℤ
profit_of = sum_by profit_outstanding

unfoldable pub count_paid : List Installment → ℕ
count_paid [] = 0
count_paid (i ∷ is) = (if is_paid i.status then 1 else 0) + count_paid is

pub data PaymentReconciliationStatus : Type 0 where
  unreconciled reconciled exception : PaymentReconciliationStatus

-- The number of payments in each reconciliation status.
pub record ReconciliationSummary : Type 0 where
  pub unreconciled : ℕ
  pub reconciled : ℕ
  pub exception : ℕ

unfoldable pub summarise : List PaymentReconciliationStatus → ReconciliationSummary
summarise [] = record { unreconciled = 0; reconciled = 0; exception = 0 }
summarise (s ∷ ss) =
    let rest = summarise ss in
    elim s [
      | PaymentReconciliationStatus.unreconciled ↦ record rest {
        unreconciled = rest.unreconciled + 1;
      }
      | PaymentReconciliationStatus.reconciled ↦ record rest { reconciled = rest.reconciled + 1 }
      | PaymentReconciliationStatus.exception ↦ record rest { exception = rest.exception + 1 }
    ]

pub record ReceivableView : Type 0 where
  pub contract_id : ℕ
  pub outstanding_principal : ℤ
  pub outstanding_profit : ℤ
  pub outstanding_receivable : ℤ
  pub outstanding_late_fees : ℤ
  pub total_installments_paid : ℕ
  pub total_installments_remaining : ℕ
  pub reconciliation_summary : ReconciliationSummary

unfoldable pub build_receivable :
    InstallmentContract → List PaymentReconciliationStatus → ReceivableView
build_receivable contract payments =
    let principal = principal_of contract.installments in
    let profit = profit_of contract.installments in
    let paid = count_paid contract.installments in
    record {
      contract_id = contract.id;
      outstanding_principal = principal;
      outstanding_profit = profit;
      outstanding_receivable = principal +ℤ profit;
      outstanding_late_fees = sum_outstanding (charges_of contract.installments);
      total_installments_paid = paid;
      total_installments_remaining = length contract.installments - paid;
      reconciliation_summary = summarise payments;
    }

pub record ContractExposure : Type 0 where
  pub contract_id : ℕ
  pub status : ContractStatus
  pub outstanding_principal : ℤ
  pub outstanding_profit : ℤ
  pub outstanding_late_fees : ℤ

unfoldable pub outstanding_total : ContractExposure → ℤ
outstanding_total e = e.outstanding_principal +ℤ e.outstanding_profit +ℤ e.outstanding_late_fees

pub record CustomerExposure : Type 0 where
  pub customer_id : ℕ
  pub total_outstanding : ℤ
  pub contracts : List ContractExposure

abbrev pub exposure_of : InstallmentContract → ContractExposure
exposure_of contract =
    let rec = build_receivable contract [] in
    record {
      contract_id = contract.id;
      status = contract.status;
      outstanding_principal = rec.outstanding_principal;
      outstanding_profit = rec.outstanding_profit;
      outstanding_late_fees = rec.outstanding_late_fees;
    }

-- The loop over the customer's contracts that are not closed, from a running total.
unfoldable pub expose : (customer_id : ℕ) → ℤ → List InstallmentContract → CustomerExposure
expose customer_id total [] = record {
  customer_id = customer_id;
  total_outstanding = total;
  contracts = [];
}
expose customer_id total (contract ∷ rest) =
    let item = exposure_of contract in
    let others = expose customer_id (total +ℤ outstanding_total item) rest in
    record others { contracts = item ∷ others.contracts }

-- `compute_exposure` on all the contracts of a customer, in the order of their numbers, at the one
-- aggregation level that is implemented.
unfoldable pub compute_exposure : (customer_id : ℕ) → List InstallmentContract → CustomerExposure
unfolding expose
compute_exposure customer_id contracts =
    expose customer_id (pos 0) (keep (λ c. not (is_closed c.status)) contracts)
