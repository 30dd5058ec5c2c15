-- ===== src/Journal/Sources.antt =====
-- The amount-source resolvers of app/services/gl_journal.py: each reads one amount from the rows that an
-- event points at, or finds that they are missing.
use retail_credit_platform.Common.{
  ℕ, ℤ, pos, ◌+ℤ◌, ◌-ℤ◌, ltb_ℤ, min_ℤ, max_ℤ, ◌==◌, ◌&&◌, Bool, true, false, Option, none, some,
  List, keep, sum_by, if◌then◌else◌,
}
use retail_credit_platform.Contract.{InstallmentContract, SalesOrder}
use retail_credit_platform.Accounting.{SourceTable}
use retail_credit_platform.Ledger.{LedgerEntry, LedgerEntryType, ReferenceType}
use retail_credit_platform.Payments.Record.{PaymentAllocation}
use retail_credit_platform.Journal.{AmountSource, AccountingEvent}

pub record WriteOffExecution : Type 0 where
  pub executed_principal : ℤ
  pub executed_profit : ℤ
  pub executed_late_fee : ℤ
  pub total_written_off : ℤ
  pub provision_amount_snapshot : Option ℤ

-- The tables that the resolvers read.
pub record Sources : Type 0 where
  pub contract : ℕ → Option InstallmentContract
  pub sales_order : ℕ → Option SalesOrder
  pub write_off_execution : ℕ → Option WriteOffExecution
  pub allocations : List PaymentAllocation
  pub ledger : List LedgerEntry

abbrev pub is_payment : SourceTable → Bool
is_payment SourceTable.payment = true
is_payment _ = false

abbrev pub is_contract_closure : SourceTable → Bool
is_contract_closure SourceTable.contract_closure = true
is_contract_closure _ = false

abbrev pub is_write_off_execution : SourceTable → Bool
is_write_off_execution SourceTable.write_off_execution = true
is_write_off_execution _ = false

-- `event.source_id`, if the event points at the table.
abbrev pub source_in : (SourceTable → Bool) → Option SourceTable → Option ℕ → Option ℕ
source_in is_table (some table) (some id) = if is_table table then some id else none
source_in is_table (some table) none = none
source_in is_table none id = none

unfoldable pub abs_ℤ : ℤ → ℤ
abs_ℤ z = if ltb_ℤ z (pos 0) then pos 0 -ℤ z else z

-- The ledger entries that `_closure_ledger_sum` is asked to add up for an amount source.
abbrev pub counts : AmountSource → LedgerEntryType → Bool
counts AmountSource.closure_ledger_principal LedgerEntryType.principal_paid = true
counts AmountSource.closure_ledger_late_fee LedgerEntryType.late_fee_paid = true
counts AmountSource.closure_ledger_profit_recognized LedgerEntryType.profit_recognized = true
counts AmountSource.closure_ledger_profit_rebated LedgerEntryType.profit_rebated = true
counts AmountSource.closure_ledger_payoff_total LedgerEntryType.principal_paid = true
counts AmountSource.closure_ledger_payoff_total LedgerEntryType.late_fee_paid = true
counts AmountSource.closure_ledger_payoff_total LedgerEntryType.profit_recognized = true
counts AmountSource.closure_ledger_return_principal LedgerEntryType.return_principal_cleared = true
counts AmountSource.closure_ledger_return_late_fee LedgerEntryType.return_late_fee_cleared = true
counts AmountSource.closure_ledger_return_profit_retained LedgerEntryType.return_profit_retained =
    true
counts AmountSource.closure_ledger_return_profit_waived LedgerEntryType.return_profit_waived = true
counts _ _ = false

abbrev pub of_closure : ReferenceType → Bool
of_closure ReferenceType.contract_closure = true
of_closure _ = false

abbrev pub then_with {ℓ κ} : {A : Type ℓ} {B : Type κ} → Option A → (A → Option B) → Option B
then_with none f = none
then_with (some a) f = f a

module _ (src : Sources) (event : AccountingEvent) where
  unfoldable pub find_contract : Option InstallmentContract
  find_contract = then_with event.contract_id src.contract

  unfoldable pub find_sales_order : Option SalesOrder
  unfolding find_contract
  find_sales_order = then_with find_contract (λ c. src.sales_order c.sales_order_id)

  unfoldable pub payment_allocation_sum : (PaymentAllocation → ℤ) → Option ℤ
  payment_allocation_sum field =
      then_with (source_in is_payment event.source_table event.source_id)
        (λ id. some (sum_by field (keep (λ a. a.payment_id == id) src.allocations)))

  unfoldable pub closure_ledger_sum : AmountSource → Option ℤ
  closure_ledger_sum source =
      then_with (source_in is_contract_closure event.source_table event.source_id) (λ id. some (
        sum_by (λ e. e.amount)
          (keep
            (λ e. of_closure e.reference_type && e.reference_id == id && counts source e.entry_type)
            src.ledger)))

  unfoldable pub find_execution : Option WriteOffExecution
  find_execution =
      then_with (source_in is_write_off_execution event.source_table event.source_id)
        src.write_off_execution

  unfoldable pub resolve_cash_price : Option ℤ
  unfolding find_contract find_sales_order
  resolve_cash_price =
      then_with find_contract
        (λ c. then_with find_sales_order (λ so. some (so.sale_price -ℤ c.total_profit)))

  unfoldable pub resolve_down_payment : Option ℤ
  unfolding find_sales_order
  resolve_down_payment = then_with find_sales_order (λ so. some so.down_payment_amount)

  unfoldable pub resolve_financed_principal : Option ℤ
  unfolding resolve_cash_price resolve_down_payment
  resolve_financed_principal =
      then_with resolve_cash_price
        (λ cash. then_with resolve_down_payment (λ dp. some (cash -ℤ dp)))

  unfoldable pub resolve_total_contractual_profit : Option ℤ
  unfolding find_contract
  resolve_total_contractual_profit = then_with find_contract (λ c. some c.total_profit)

  unfoldable pub resolve_gross_installment_receivable : Option ℤ
  unfolding resolve_financed_principal resolve_total_contractual_profit
  resolve_gross_installment_receivable =
      then_with resolve_financed_principal
        (λ fp. then_with resolve_total_contractual_profit (λ tp. some (fp +ℤ tp)))

  abbrev pub provision_of : WriteOffExecution → ℤ
  provision_of e = elim e.provision_amount_snapshot [ none ↦ pos 0 | some z ↦ z ]

  -- `_RESOLVERS[source](db, event)`: the table has a resolver for every source.
  unfoldable pub resolve : AmountSource → Option ℤ
  unfolding payment_allocation_sum closure_ledger_sum find_execution resolve_cash_price
      resolve_down_payment resolve_financed_principal resolve_total_contractual_profit
      resolve_gross_installment_receivable
  resolve AmountSource.event_amount = some event.amount
  resolve AmountSource.absolute_event_amount = some (abs_ℤ event.amount)
  resolve AmountSource.cash_price = resolve_cash_price
  resolve AmountSource.down_payment = resolve_down_payment
  resolve AmountSource.financed_principal = resolve_financed_principal
  resolve AmountSource.total_contractual_profit = resolve_total_contractual_profit
  resolve AmountSource.gross_installment_receivable = resolve_gross_installment_receivable
  resolve AmountSource.payment_principal = payment_allocation_sum (λ a. a.principal_amount)
  resolve AmountSource.payment_profit = payment_allocation_sum (λ a. a.profit_amount)
  resolve AmountSource.payment_late_fee = payment_allocation_sum (λ a. a.late_fee_amount)
  resolve AmountSource.written_off_principal =
      then_with find_execution (λ e. some e.executed_principal)
  resolve AmountSource.written_off_profit = then_with find_execution (λ e. some e.executed_profit)
  resolve AmountSource.written_off_late_fee =
      then_with find_execution (λ e. some e.executed_late_fee)
  resolve AmountSource.provision_used =
      then_with find_execution (λ e. some (min_ℤ (provision_of e) e.total_written_off))
  resolve AmountSource.write_off_expense_excess =
      then_with find_execution (λ e. some (max_ℤ (pos 0) (e.total_written_off -ℤ provision_of e)))
  resolve source = closure_ledger_sum source
