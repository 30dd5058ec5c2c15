-- ===== src/Tests/AllocationTests.antt =====
-- app/services/allocation.py on the case that its tests call tricky: a payment across two
-- installments.
use retail_credit_platform.Common.{
  ◌≡◌, refl, pos, List, [], ◌∷◌, ◌++◌, keep, ◌+ℤ◌, ◌-ℤ◌, min_ℤ, max_ℤ,
}
use retail_credit_platform.Allocation.{OutstandingInstallment, allocate, allocate_line, line_total}
use retail_credit_platform.Allocation.Waterfall.{pays, waterfall, allocate-eq-waterfall}
use retail_credit_platform.Allocation.Laws.{total_of, allocate_conserves, allocate_oldest_first}

abbrev first : OutstandingInstallment
first = record {
  installment_id = 11;
  sequence_number = 1;
  late_fee_outstanding = pos 500;
  profit_outstanding = pos 2000;
  principal_outstanding = pos 10_000;
}

abbrev second : OutstandingInstallment
second = record {
  installment_id = 12;
  sequence_number = 2;
  late_fee_outstanding = pos 0;
  profit_outstanding = pos 1500;
  principal_outstanding = pos 10_000;
}

abbrev owing : List OutstandingInstallment
owing = first ∷ second ∷ []

-- The oldest installment's principal comes before the next one's profit.
spans_two :
    (allocate (pos 13_000) owing).allocations
    ≡ record {
      installment_id = 11;
      sequence_number = 1;
      late_fee = pos 500;
      profit = pos 2000;
      principal = pos 10_000;
    }
      ∷ record {
        installment_id = 12;
        sequence_number = 2;
        late_fee = pos 0;
        profit = pos 500;
        principal = pos 0;
      }
      ∷ []
unfolding allocate allocate_line line_total min_ℤ ◌+ℤ◌ ◌-ℤ◌
spans_two = refl

allocate-eq-waterfall_example : allocate (pos 13_000) owing ≡ record {
  allocations = keep pays (waterfall 13_000 0 owing);
  allocated_amount = pos 13_000;
  unallocated_amount = pos 0;
}
allocate-eq-waterfall_example = allocate-eq-waterfall (pos 13_000) owing

allocate_conserves_example :
    let r = allocate (pos 30_000) owing in
    (total_of r.allocations ≡ r.allocated_amount)
    × (r.allocated_amount +ℤ r.unallocated_amount ≡ pos 30_000)
unfolding max_ℤ
allocate_conserves_example = allocate_conserves (pos 30_000) owing

allocate_oldest_first_example :
    let rest = allocate (pos 13_000) (first ∷ []) in
    let both = allocate (pos 13_000) owing in
    let next = allocate rest.unallocated_amount (second ∷ []) in
    (both.allocations ≡ rest.allocations ++ next.allocations)
    × (both.unallocated_amount ≡ next.unallocated_amount)
allocate_oldest_first_example = allocate_oldest_first (pos 13_000) (first ∷ []) (second ∷ [])
