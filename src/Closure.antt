-- ===== src/Closure.antt =====
-- app/services/closure.py: the end of a contract by ordinary repayment; the early endings are in the
-- child modules.
pub mod Quote
pub mod Endings
pub mod Quoted
pub mod Settled
pub mod Settlement
use retail_credit_platform.Common.{
  ℕ, pos, ltb_ℤ, Bool, true, false, not, ◌&&◌, ◌||◌, Option, none, some, [], any, if◌then◌else◌,
}
use retail_credit_platform.Contract.{
  InstallmentContract, ContractStatus, ContractClosure, ClosureReason, is_active, is_paid,
}
use retail_credit_platform.Contract.Receivable.{build_receivable}
use retail_credit_platform.Accounting.{
  Accounting, EventDraft, AccountingEventType, ReferencePrefix, SourceTable,
}

abbrev pub has_closure : Option ContractClosure → Bool
has_closure none = false
has_closure (some _) = true

-- Whether `close_if_fully_repaid` closes the contract.
unfoldable pub is_fully_repaid : InstallmentContract → Bool
is_fully_repaid contract =
    let receivable = build_receivable contract [] in
    is_active contract.status
    && not (has_closure contract.closure)
    && not (any (λ i. not (is_paid i.status)) contract.installments)
    && not (
        ltb_ℤ (pos 0) receivable.outstanding_receivable
        || ltb_ℤ (pos 0) receivable.outstanding_late_fees)

abbrev pub normal_closure : ℕ → ContractClosure
normal_closure id = record {
  id = id;
  reason = ClosureReason.normal;
  financial_adjustment = some (pos 0);
}

abbrev pub closure_event : InstallmentContract → (closure_id now : ℕ) → EventDraft
closure_event contract closure_id now = record {
  event_type = AccountingEventType.contract_closed;
  event_reference = record { prefix = ReferencePrefix.normal_closure; number = closure_id };
  contract_id = contract.id;
  amount = pos 0;
  event_date = now;
  source_table = SourceTable.contract_closure;
  source_id = closure_id;
}

module _ (acc : Accounting) where
  -- `close_if_fully_repaid`: the contract, the books, and whether a closure was made, under the number
  -- that the database gives to a new closure and the current time.
  unfoldable pub close_if_fully_repaid :
      (closure_id now : ℕ)
      → InstallmentContract
      → acc.Books
      → InstallmentContract × acc.Books × Option ContractClosure
  unfolding is_fully_repaid
  close_if_fully_repaid closure_id now contract books =
      if is_fully_repaid contract
      then (
        record contract {
          status = ContractStatus.closed;
          closure = some (normal_closure closure_id);
        },
        acc.emit (closure_event contract closure_id now) books,
        some (normal_closure closure_id),
      )
      else (contract, books, none)
