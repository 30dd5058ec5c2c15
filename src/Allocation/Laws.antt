-- ===== src/Allocation/Laws.antt =====
-- What the engine promises: no money is lost, older debts come first, and each line is a share of
-- the installment that it names.
use Prim.Native.Nat.{min}
use retail_credit_platform.Common.{
  ℕ, ◌+◌, ◌-◌, ◌≡◌, refl, ap, ◌∙◌, ℤ, pos, pos_part, ◌+ℤ◌, max_ℤ, List, [], ◌∷◌, ◌++◌, keep, arith,
}
use retail_credit_platform.Allocation.{
  OutstandingInstallment, InstallmentAllocation, line_total, allocate,
}
use retail_credit_platform.Allocation.Waterfall.{
  owed, owed_by_all, share_line, waterfall, pays, allocate-eq-waterfall, line_total-share_line,
}

abbrev pub total_of : List InstallmentAllocation → ℤ
total_of [] = pos 0
total_of (l ∷ ls) = line_total l +ℤ total_of ls

-- Dropping a line that receives nothing leaves the sum alone.
total_of-keep-cons :
    (l : InstallmentAllocation) (ls : List InstallmentAllocation) (t r : ℕ)
    → line_total l ≡ pos t
    → total_of (keep pays ls) ≡ pos r
    → total_of (keep pays (l ∷ ls)) ≡ pos (t + r)
unfolding ◌+ℤ◌
total_of-keep-cons l ls t r e f = ground arith

total_of-keep-waterfall :
    (amount before : ℕ) (is : List OutstandingInstallment)
    → total_of (keep pays (waterfall amount before is))
      ≡ pos (min (owed_by_all is) (amount - before))
total_of-keep-waterfall amount before [] = ap pos (omega arith)
total_of-keep-waterfall amount before (i ∷ is) =
    total_of-keep-cons (share_line amount before i) (waterfall amount (before + owed i) is) _ _
      (line_total-share_line amount before i) (total_of-keep-waterfall amount (before + owed i) is)
    ∙ ap pos (omega arith)

-- No money is made or lost: the lines add up to the allocated amount, and the allocated and the
-- unallocated amount to the payment (to zero for a payment below zero).
pub allocate_conserves :
    (payment : ℤ) (os : List OutstandingInstallment)
    → let r = allocate payment os in
      (total_of r.allocations ≡ r.allocated_amount)
      × (r.allocated_amount +ℤ r.unallocated_amount ≡ max_ℤ payment (pos 0))
unfolding max_ℤ ◌+ℤ◌
allocate_conserves payment os =
    rw (allocate-eq-waterfall payment os, total_of-keep-waterfall (pos_part payment) 0 os)
      (ground arith)

waterfall-append :
    (amount before : ℕ) (xs ys : List OutstandingInstallment)
    → keep pays (waterfall amount before (xs ++ ys))
      ≡ keep pays (waterfall amount before xs)
        ++ keep pays (waterfall amount (before + owed_by_all xs) ys)
waterfall-append amount before [] ys = ap (λ k. keep pays (waterfall amount k ys)) (omega arith)
waterfall-append amount before (x ∷ xs) ys =
    ground (arith, waterfall-append amount (before + owed x) xs ys)

owed_by_all-append :
    (xs ys : List OutstandingInstallment) → owed_by_all (xs ++ ys) ≡ owed_by_all xs + owed_by_all ys
owed_by_all-append [] ys = omega arith
owed_by_all-append (x ∷ xs) ys = omega (arith, owed_by_all-append xs ys)

shift_sum : (a b c : ℕ) → a + b + c ≡ a + c + b
shift_sum a b c = omega arith

waterfall-shift :
    (amount before ahead : ℕ) (is : List OutstandingInstallment)
    → waterfall amount (before + ahead) is ≡ waterfall (amount - ahead) before is
waterfall-shift amount before ahead [] = refl
waterfall-shift amount before ahead (i ∷ is) = ground (
  arith,
  waterfall-shift amount (before + owed i) ahead is,
  ap (λ (k : ℕ). waterfall amount k is) (shift_sum before ahead (owed i)),
)

-- Oldest first: to pay a list of debts is to pay its older part, and then the newer part with what
-- that left unallocated. So a newer installment gets nothing until all the older ones are settled.
pub allocate_oldest_first :
    (payment : ℤ) (older newer : List OutstandingInstallment)
    → let first = allocate payment older in
      let second = allocate first.unallocated_amount newer in
      let both = allocate payment (older ++ newer) in
      (both.allocations ≡ first.allocations ++ second.allocations)
      × (both.unallocated_amount ≡ second.unallocated_amount)
allocate_oldest_first payment older newer =
    let n = pos_part payment in
    let k = owed_by_all older in
    rw
      (
        allocate-eq-waterfall payment older,
        allocate-eq-waterfall payment (older ++ newer),
        allocate-eq-waterfall (pos (n - k)) newer,
        waterfall-append n 0 older newer,
        waterfall-shift n 0 k newer,
        owed_by_all-append older newer,
      )
      (refl, ap pos (omega arith))
