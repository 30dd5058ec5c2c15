-- ===== src/Payments/Record.antt =====
-- `record_payment` as a whole.
use retail_credit_platform.Common.{
  ℕ, ◌+◌, ℤ, pos, ◌+ℤ◌, ltb_ℤ, leb_ℤ, Bool, true, false, not, ◌||◌, Option, none, some, List, [],
  ◌∷◌, ◌++◌, map, keep, length, sum_by, if◌then◌else◌,
}
use retail_credit_platform.Common.Rounding.{Decimal, money}
use retail_credit_platform.Common.Result.{Result, ok, err}
use retail_credit_platform.Common.Text.{Text, strip, is_empty, text_eq}
use retail_credit_platform.Common.Sorting.{sort_by}
use retail_credit_platform.Contract.{
  Installment, InstallmentContract, ContractClosure, is_active, principal_outstanding,
  profit_outstanding, late_fee_outstanding,
}
use retail_credit_platform.Contract.Receivable.{PaymentReconciliationStatus, build_receivable}
use retail_credit_platform.Allocation.{
  OutstandingInstallment, InstallmentAllocation, AllocationResult, allocate,
}
use retail_credit_platform.Ledger.{
  LedgerEntry, LedgerEntryType, LedgerRelatedAction, ReferenceType, record_entry,
}
use retail_credit_platform.Accounting.{
  Accounting, EventDraft, AccountingEventType, ReferencePrefix, SourceTable,
}
use retail_credit_platform.Closure.{close_if_fully_repaid, has_closure}
use retail_credit_platform.Payments.Apply.{apply_all, recognise}

-- app/models/payment.py
pub data PaymentStatus : Type 0 where
  applied overpaid reversed : PaymentStatus

pub data PaymentSource : Type 0 where
  staff gateway : PaymentSource

pub record Payment : Type 0 where
  pub id : ℕ
  pub contract_id : ℕ
  pub amount : ℤ
  pub external_reference : Text
  pub received_at : ℕ
  pub status : PaymentStatus
  pub reconciliation_status : PaymentReconciliationStatus
  pub allocated_amount : ℤ
  pub unallocated_amount : ℤ
  pub source : PaymentSource
  pub payment_intent_id : Option ℕ

pub record PaymentAllocation : Type 0 where
  pub id : ℕ
  pub payment_id : ℕ
  pub contract_id : ℕ
  pub installment_id : ℕ
  pub late_fee_amount : ℤ
  pub profit_amount : ℤ
  pub principal_amount : ℤ
  pub reversed_by_allocation_id : Option ℕ

-- `PaymentAllocation.total`
unfoldable pub allocation_total : PaymentAllocation → ℤ
allocation_total a = a.late_fee_amount +ℤ a.profit_amount +ℤ a.principal_amount

-- The collections workflow as its clients see it: the hooks that follow a payment or its reversal. They
-- see the contract and its payments, and change cases and promises only.
pub record Collections : Type 1 where
  pub Cases : Type 0
  pub evaluate_promises_after_payment :
      InstallmentContract → List Payment → Option ℕ → (now : ℕ) → Cases → Cases
  pub close_case_if_cleared : InstallmentContract → Option ℕ → Cases → Cases
  pub open_case_if_needed : InstallmentContract → Option ℕ → Cases → Cases

pub data PaymentError : Type 0 where
  reference_required not_active amount_not_positive exceeds_outstanding : PaymentError

-- The arguments of a call.
pub record PaymentRequest : Type 0 where
  pub amount : Decimal
  pub external_reference : Text
  pub actor_id : Option ℕ
  pub source : PaymentSource
  pub payment_intent_id : Option ℕ
  pub now : ℕ

-- `scalar_one_or_none` on the contract's payments: the database keeps their references apart.
unfoldable pub find_payment : Text → List Payment → Option Payment
find_payment reference [] = none
find_payment reference (p ∷ ps) =
    if text_eq p.external_reference reference then some p else find_payment reference ps

unfoldable pub total_outstanding : InstallmentContract → ℤ
total_outstanding contract =
    let receivable = build_receivable contract [] in
    receivable.outstanding_receivable +ℤ receivable.outstanding_late_fees

unfoldable pub is_live : Installment → Bool
is_live i =
    ltb_ℤ (pos 0) (principal_outstanding i)
    || ltb_ℤ (pos 0) (profit_outstanding i)
    || ltb_ℤ (pos 0) (late_fee_outstanding i)

unfoldable pub outstanding_installments : InstallmentContract → List Installment
unfolding is_live
outstanding_installments contract =
    keep is_live (sort_by (λ i. i.sequence_number) contract.installments)

unfoldable pub to_outstanding : Installment → OutstandingInstallment
to_outstanding i = record {
  installment_id = i.id;
  sequence_number = i.sequence_number;
  late_fee_outstanding = late_fee_outstanding i;
  profit_outstanding = profit_outstanding i;
  principal_outstanding = principal_outstanding i;
}

unfoldable pub to_allocations :
    (payment_id contract_id next_id : ℕ) → List InstallmentAllocation → List PaymentAllocation
to_allocations payment_id contract_id next_id [] = []
to_allocations payment_id contract_id next_id (line ∷ lines) =
    record {
      id = next_id;
      payment_id = payment_id;
      contract_id = contract_id;
      installment_id = line.installment_id;
      late_fee_amount = line.late_fee;
      profit_amount = line.profit;
      principal_amount = line.principal;
      reversed_by_allocation_id = none;
    }
    ∷ to_allocations payment_id contract_id (next_id + 1) lines

-- The ledger entries of the lines: late fee, profit and principal, those above zero.
module _ (contract_id payment_id : ℕ) (created_by : Option ℕ) where
  unfoldable pub record_amount : LedgerEntryType → ℤ → List LedgerEntry → List LedgerEntry
  record_amount entry_type amount ledger =
      if ltb_ℤ (pos 0) amount
      then record_entry
          (record {
            contract_id = contract_id;
            entry_type = entry_type;
            amount = amount;
            related_action = LedgerRelatedAction.payment;
            reference_type = ReferenceType.payment;
            reference_id = payment_id;
            created_by = created_by;
          })
          ledger
      else ledger

  unfoldable pub record_lines : List InstallmentAllocation → List LedgerEntry → List LedgerEntry
  unfolding record_amount
  record_lines [] ledger = ledger
  record_lines (line ∷ lines) ledger = record_lines lines (
      record_amount LedgerEntryType.principal_paid line.principal (
        record_amount LedgerEntryType.profit_recognized line.profit
          (record_amount LedgerEntryType.late_fee_paid line.late_fee ledger)))

unfoldable pub profit_recognised : List InstallmentAllocation → ℤ
profit_recognised = sum_by (λ line. line.profit)

module _ (acc : Accounting) (col : Collections) where
  -- What the handler reads and writes, for one contract. The three counters are the numbers that the
  -- database gives out next.
  pub record Store : Type 0 where
    pub contract : InstallmentContract
    pub payments : List Payment
    pub allocations : List PaymentAllocation
    pub ledger : List LedgerEntry
    pub books : acc.Books
    pub cases : col.Cases
    pub next_payment : ℕ
    pub next_allocation : ℕ
    pub next_closure : ℕ

  pub record PaymentOutcome : Type 0 where
    pub payment : Payment
    pub replayed : Bool
    pub closure : Option ContractClosure

  -- The payment row.
  unfoldable pub new_payment : Store → PaymentRequest → ℤ → AllocationResult → Payment
  new_payment s r amount plan = record {
    id = s.next_payment;
    contract_id = s.contract.id;
    amount = amount;
    external_reference = strip r.external_reference;
    received_at = r.now;
    status =
        if ltb_ℤ (pos 0) plan.unallocated_amount
        then PaymentStatus.overpaid
        else PaymentStatus.applied;
    reconciliation_status = PaymentReconciliationStatus.unreconciled;
    allocated_amount = plan.allocated_amount;
    unallocated_amount = plan.unallocated_amount;
    source = r.source;
    payment_intent_id = r.payment_intent_id;
  }

  unfoldable pub payment_event : ReferencePrefix → AccountingEventType → Payment → ℤ → EventDraft
  payment_event prefix event_type payment amount = record {
    event_type = event_type;
    event_reference = record { prefix = prefix; number = payment.id };
    contract_id = payment.contract_id;
    amount = amount;
    event_date = payment.received_at;
    source_table = SourceTable.payment;
    source_id = payment.id;
  }

  -- The events of the payment: the whole amount, and the profit that it recognised, if any.
  unfoldable pub emit_payment : Payment → ℤ → acc.Books → acc.Books
  unfolding payment_event
  emit_payment payment profit books =
      let received =
        acc.emit
          (payment_event ReferencePrefix.payment_received AccountingEventType.payment_received
            payment payment.amount)
          books in
      if ltb_ℤ (pos 0) profit
      then acc.emit
          (payment_event ReferencePrefix.profit_recognized AccountingEventType.profit_recognized
            payment profit)
          received
      else received

  -- What happens once the payment has passed the guards.
  unfoldable pub settle_payment : Store → PaymentRequest → ℤ → Store × PaymentOutcome
  unfolding new_payment emit_payment
  settle_payment s r amount =
      let plan = allocate amount (map to_outstanding (outstanding_installments s.contract)) in
      let payment = new_payment s r amount plan in
      let payments = s.payments ++ payment ∷ [] in
      let contract = record s.contract {
        installments = apply_all plan.allocations s.contract.installments;
        unearned_profit_balance = recognise plan.allocations s.contract.unearned_profit_balance;
      } in
      let books = emit_payment payment (profit_recognised plan.allocations) s.books in
      let promised =
        col.evaluate_promises_after_payment contract payments r.actor_id r.now s.cases in
      let cases = col.close_case_if_cleared contract r.actor_id promised in
      let (closed, final_books, closure) =
        close_if_fully_repaid acc s.next_closure r.now contract books in
      (
        record {
          contract = closed;
          payments = payments;
          allocations =
              s.allocations
              ++ to_allocations payment.id s.contract.id s.next_allocation plan.allocations;
          ledger = record_lines s.contract.id payment.id r.actor_id plan.allocations s.ledger;
          books = final_books;
          cases = cases;
          next_payment = s.next_payment + 1;
          next_allocation = s.next_allocation + length plan.allocations;
          next_closure = if has_closure closure then s.next_closure + 1 else s.next_closure;
        },
        record { payment = payment; replayed = false; closure = closure },
      )

  unfoldable pub record_payment :
      Store → PaymentRequest → Result PaymentError (Store × PaymentOutcome)
  unfolding settle_payment find_payment total_outstanding
  record_payment s r =
      let reference = strip r.external_reference in
      let amount = money r.amount in
      if is_empty reference
      then err reference_required
      else elim (find_payment reference s.payments) [
        | some existing ↦ ok (s, record { payment = existing; replayed = true; closure = none })
        | none ↦
            if not (is_active s.contract.status)
            then err not_active
            else if leb_ℤ amount (pos 0)
            then err amount_not_positive
            else if ltb_ℤ (total_outstanding s.contract) amount
            then err exceeds_outstanding
            else ok (settle_payment s r amount)
      ]
