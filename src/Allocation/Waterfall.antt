-- ===== src/Allocation/Waterfall.antt =====
-- The waterfall by prefix sums: what a bucket receives depends only on the payment, on what is owed
-- before it, and on what it is owed itself. `allocate` is compared with this description.
use Prim.Native.Nat.{min}
use retail_credit_platform.Common.{
  ℕ, ◌+◌, ◌-◌, ◌≤◌, ◌≡◌, refl, ℤ, pos, pos_part, ◌+ℤ◌, ◌-ℤ◌, ltb_ℤ, min_ℤ, max_ℤ, List, [], ◌∷◌,
  keep, arith, Bool,
}
use retail_credit_platform.Allocation.{
  OutstandingInstallment, InstallmentAllocation, line_total, take_bucket, allocate_line,
  allocate_loop, allocate,
}

-- A debt below zero counts as none.
abbrev pub owed_fee : OutstandingInstallment → ℕ
owed_fee i = pos_part i.late_fee_outstanding

abbrev pub owed_profit : OutstandingInstallment → ℕ
owed_profit i = pos_part i.profit_outstanding

abbrev pub owed_principal : OutstandingInstallment → ℕ
owed_principal i = pos_part i.principal_outstanding

abbrev pub owed : OutstandingInstallment → ℕ
owed i = owed_fee i + owed_profit i + owed_principal i

abbrev pub owed_by_all : List OutstandingInstallment → ℕ
owed_by_all [] = 0
owed_by_all (i ∷ is) = owed i + owed_by_all is

-- What a debt of `debt` gets of `amount` when `before` is owed ahead of it.
abbrev pub share : (amount before debt : ℕ) → ℕ
share amount before debt = min debt (amount - before)

abbrev pub share_line : (amount before : ℕ) → OutstandingInstallment → InstallmentAllocation
share_line amount before i = record {
  installment_id = i.installment_id;
  sequence_number = i.sequence_number;
  late_fee = pos (share amount before (owed_fee i));
  profit = pos (share amount (before + owed_fee i) (owed_profit i));
  principal = pos (share amount (before + owed_fee i + owed_profit i) (owed_principal i));
}

abbrev pub waterfall :
    (amount before : ℕ) → List OutstandingInstallment → List InstallmentAllocation
waterfall amount before [] = []
waterfall amount before (i ∷ is) =
    share_line amount before i ∷ waterfall amount (before + owed i) is

abbrev pub pays : InstallmentAllocation → Bool
pays line = ltb_ℤ (pos 0) (line_total line)

take_bucket_lem :
    (n : ℕ) (d : ℤ) → take_bucket (pos n) d ≡ (pos (min (pos_part d) n), pos (n - pos_part d))
unfolding take_bucket min_ℤ ◌-ℤ◌
take_bucket_lem n (pos d) = ground arith
take_bucket_lem n (ℤ.negsuc d) = ground arith

allocate_line_lem :
    (amount before : ℕ) (i : OutstandingInstallment)
    → allocate_line (pos (amount - before)) i
      ≡ (share_line amount before i, pos (amount - (before + owed i)))
unfolding allocate_line
allocate_line_lem amount before i =
    let n = amount - before in
    let f = owed_fee i in
    let g = owed_profit i in
    rw
      (
        take_bucket_lem n i.late_fee_outstanding,
        take_bucket_lem (n - f) i.profit_outstanding,
        take_bucket_lem (n - f - g) i.principal_outstanding,
      )
      (ground arith)

-- The shares of one installment, taken together.
pub line_total-share_line :
    (amount before : ℕ) (i : OutstandingInstallment)
    → line_total (share_line amount before i) ≡ pos (min (owed i) (amount - before))
unfolding line_total ◌+ℤ◌
line_total-share_line amount before i = ground arith

pub keep-waterfall_spent :
    (amount before : ℕ) (is : List OutstandingInstallment)
    → amount ≤ before
    → keep pays (waterfall amount before is) ≡ []
keep-waterfall_spent amount before [] h = refl
keep-waterfall_spent amount before (i ∷ is) h =
    rw (line_total-share_line amount before i)
      (ground (arith, keep-waterfall_spent amount (before + owed i) is))

-- The loop, from any point of it, against the waterfall.
pub allocate_loop_lem :
    (amount before : ℕ) (is : List OutstandingInstallment)
    → allocate_loop (pos (amount - before)) is
      ≡ (keep pays (waterfall amount before is), pos (amount - (before + owed_by_all is)))
unfolding allocate_loop
allocate_loop_lem amount before [] = ground arith
allocate_loop_lem amount before (i ∷ is) =
    rw (allocate_line_lem amount before i, allocate_loop_lem amount (before + owed i) is)
      (ground (
        arith,
        keep-waterfall_spent amount (before + owed i) is,
        keep-waterfall_spent amount before (i ∷ is),
      ))

allocate_loop_start :
    (n : ℕ) (is : List OutstandingInstallment)
    → allocate_loop (pos n) is ≡ (keep pays (waterfall n 0 is), pos (n - owed_by_all is))
allocate_loop_start n is = ground (arith, allocate_loop_lem n 0 is)

-- For every payment and every list of debts, the engine's result is the waterfall's: the lines that
-- receive something, in order; the smaller of the payment and the total owed as allocated; and the
-- excess of the payment over the total owed as unallocated. A payment below zero counts as zero.
pub allocate-eq-waterfall :
    (payment : ℤ) (os : List OutstandingInstallment)
    → allocate payment os ≡ record {
      allocations = keep pays (waterfall (pos_part payment) 0 os);
      allocated_amount = pos (min (owed_by_all os) (pos_part payment));
      unallocated_amount = pos (pos_part payment - owed_by_all os);
    }
unfolding allocate max_ℤ ◌-ℤ◌
allocate-eq-waterfall (pos n) os =
    ground (arith, allocate_loop_start n os, keep-waterfall_spent n 0 os)
allocate-eq-waterfall (ℤ.negsuc n) os = ground (arith, keep-waterfall_spent 0 0 os)
