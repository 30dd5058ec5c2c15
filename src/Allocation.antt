-- ===== src/Allocation.antt =====
-- app/services/allocation.py: the payment allocation engine. Amounts are whole cents, so `_ZERO` is
-- `pos 0`; the list of installments is the caller's, oldest first.
pub mod Waterfall
pub mod Laws
use retail_credit_platform.Common.{
  ℕ, ℤ, pos, ◌+ℤ◌, ◌-ℤ◌, min_ℤ, max_ℤ, leb_ℤ, ltb_ℤ, ◌||◌, List, [], ◌∷◌, if◌then◌else◌,
}

pub record OutstandingInstallment : Type 0 where
  pub installment_id : ℕ
  pub sequence_number : ℕ
  pub late_fee_outstanding : ℤ
  pub profit_outstanding : ℤ
  pub principal_outstanding : ℤ

pub record InstallmentAllocation : Type 0 where
  pub installment_id : ℕ
  pub sequence_number : ℕ
  pub late_fee : ℤ
  pub profit : ℤ
  pub principal : ℤ

-- `InstallmentAllocation.total`
unfoldable pub line_total : InstallmentAllocation → ℤ
line_total line = line.late_fee +ℤ line.profit +ℤ line.principal

pub record AllocationResult : Type 0 where
  pub allocations : List InstallmentAllocation
  pub allocated_amount : ℤ
  pub unallocated_amount : ℤ

-- One round of the loop over the buckets: what the bucket takes, and what remains. A skipped bucket
-- keeps its default of zero.
unfoldable pub take_bucket : ℤ → ℤ → ℤ × ℤ
take_bucket remaining owed =
    if leb_ℤ remaining (pos 0) || leb_ℤ owed (pos 0)
    then (pos 0, remaining)
    else (min_ℤ remaining owed, remaining -ℤ min_ℤ remaining owed)

-- The three buckets of one installment: late fee, then profit, then principal.
unfoldable pub allocate_line : ℤ → OutstandingInstallment → InstallmentAllocation × ℤ
unfolding take_bucket
allocate_line remaining inst =
    let (late_fee, after_fee) = take_bucket remaining inst.late_fee_outstanding in
    let (profit, after_profit) = take_bucket after_fee inst.profit_outstanding in
    let (principal, left) = take_bucket after_profit inst.principal_outstanding in
    (
      record {
        installment_id = inst.installment_id;
        sequence_number = inst.sequence_number;
        late_fee = late_fee;
        profit = profit;
        principal = principal;
      },
      left,
    )

-- The loop over the installments, with its `break`: the lines appended and what remains.
unfoldable pub allocate_loop : ℤ → List OutstandingInstallment → List InstallmentAllocation × ℤ
allocate_loop remaining [] = ([], remaining)
allocate_loop remaining (inst ∷ rest) =
    let (line, left) = allocate_line remaining inst in
    let (lines, final) = allocate_loop left rest in
    if leb_ℤ remaining (pos 0)
    then ([], remaining)
    else (if ltb_ℤ (pos 0) (line_total line) then line ∷ lines else lines, final)

unfoldable pub allocate : ℤ → List OutstandingInstallment → AllocationResult
unfolding allocate_loop
allocate payment_amount outstanding =
    let (lines, remaining) = allocate_loop payment_amount outstanding in
    if leb_ℤ payment_amount (pos 0)
    then record {
      allocations = [];
      allocated_amount = pos 0;
      unallocated_amount = max_ℤ payment_amount (pos 0);
    }
    else record {
      allocations = lines;
      allocated_amount = payment_amount -ℤ remaining;
      unallocated_amount = remaining;
    }
