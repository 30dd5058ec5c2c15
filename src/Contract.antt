-- ===== src/Contract.antt =====
-- app/models/contract.py and app/models/payment.py: a contract with its installments and their late
-- fee charges, and the balances that the models compute. Amounts are whole cents and may go
-- negative; dates and times are numbers that only their order matters for. The contract's list of
-- charges is that of its installments, one after another (the code only sums it and updates each
-- charge in place, so its order by time is not kept).
pub mod Receivable
use retail_credit_platform.Common.{
  ℕ, ℤ, pos, ◌+ℤ◌, ◌-ℤ◌, leb_ℤ, ltb_ℤ, Bool, true, false, not, ◌&&◌, ◌||◌, List, [], ◌∷◌, ◌++◌,
  Option, sum_by,
}

pub data ContractStatus : Type 0 where
  created active closed : ContractStatus

pub data InstallmentStatus : Type 0 where
  pending partially_paid overdue paid written_off : InstallmentStatus

pub data LateFeeStatus : Type 0 where
  assessed waived paid written_off : LateFeeStatus

-- `status == ...` for the statuses that the code compares with.
abbrev pub is_active : ContractStatus → Bool
is_active ContractStatus.active = true
is_active _ = false

abbrev pub is_closed : ContractStatus → Bool
is_closed ContractStatus.closed = true
is_closed _ = false

abbrev pub is_paid : InstallmentStatus → Bool
is_paid InstallmentStatus.paid = true
is_paid _ = false

abbrev pub is_overdue : InstallmentStatus → Bool
is_overdue InstallmentStatus.overdue = true
is_overdue _ = false

abbrev pub is_waived : LateFeeStatus → Bool
is_waived LateFeeStatus.waived = true
is_waived _ = false

pub record LateFeeCharge : Type 0 where
  pub id : ℕ
  pub amount : ℤ
  pub amount_paid : ℤ
  pub amount_written_off : ℤ
  pub assessed_at : ℕ
  pub status : LateFeeStatus

-- `LateFeeCharge.outstanding`
unfoldable pub charge_outstanding : LateFeeCharge → ℤ
charge_outstanding c = elim (is_waived c.status) [
  | true ↦ pos 0
  | false ↦ c.amount -ℤ c.amount_paid -ℤ c.amount_written_off
]

pub record Installment : Type 0 where
  pub id : ℕ
  pub sequence_number : ℕ
  pub due_date : ℕ
  pub principal_component : ℤ
  pub profit_component : ℤ
  pub principal_paid : ℤ
  pub profit_paid : ℤ
  pub principal_written_off : ℤ
  pub profit_written_off : ℤ
  pub status : InstallmentStatus
  pub late_fee_charges : List LateFeeCharge

unfoldable pub total_due : Installment → ℤ
total_due i = i.principal_component +ℤ i.profit_component

unfoldable pub principal_outstanding : Installment → ℤ
principal_outstanding i = i.principal_component -ℤ i.principal_paid -ℤ i.principal_written_off

unfoldable pub profit_outstanding : Installment → ℤ
profit_outstanding i = i.profit_component -ℤ i.profit_paid -ℤ i.profit_written_off

unfoldable pub is_written_off : Installment → Bool
is_written_off i = ltb_ℤ (pos 0) i.principal_written_off || ltb_ℤ (pos 0) i.profit_written_off

-- `sum((c.outstanding for c in charges), _ZERO)`
unfoldable pub sum_outstanding : List LateFeeCharge → ℤ
sum_outstanding = sum_by charge_outstanding

unfoldable pub late_fee_outstanding : Installment → ℤ
late_fee_outstanding i = sum_outstanding i.late_fee_charges

unfoldable pub is_fully_paid : Installment → Bool
is_fully_paid i = leb_ℤ (principal_outstanding i) (pos 0) && leb_ℤ (profit_outstanding i) (pos 0)

unfoldable pub has_any_payment : Installment → Bool
has_any_payment i = ltb_ℤ (pos 0) i.principal_paid || ltb_ℤ (pos 0) i.profit_paid

-- app/models/closure.py
pub data ClosureReason : Type 0 where
  normal early_settlement cancellation return write_off : ClosureReason

pub record ContractClosure : Type 0 where
  pub id : ℕ
  pub reason : ClosureReason
  pub financial_adjustment : Option ℤ

pub record InstallmentContract : Type 0 where
  pub id : ℕ
  pub sales_order_id : ℕ
  pub tenor_months : ℕ
  pub total_profit : ℤ
  pub unearned_profit_balance : ℤ
  pub status : ContractStatus
  pub installments : List Installment
  pub closure : Option ContractClosure

-- `contract.late_fee_charges`
unfoldable pub charges_of : List Installment → List LateFeeCharge
charges_of [] = []
charges_of (i ∷ is) = i.late_fee_charges ++ charges_of is

-- app/models/sales_order.py
pub record SalesOrder : Type 0 where
  pub product_id : ℕ
  pub sale_price : ℤ
  pub down_payment_amount : ℤ
