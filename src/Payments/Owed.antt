-- ===== src/Payments/Owed.antt =====
-- What the waterfall finds owed on a contract is never less than the total outstanding that a payment
-- is checked against, so no accepted payment can leave money unallocated.
use Prim.Native.Nat.{min}
use retail_credit_platform.Common.{
  ℕ, ◌+◌, ◌-◌, ◌≡◌, refl, ap, ◌∙◌, ℤ, pos, pos_part, ◌+ℤ◌, ◌≤ℤ◌, ltb_ℤ, false, ◌||◌, List, [], ◌∷◌,
  map, keep, arith, int_laws, Bool-cases, inl, inr, sum_by, sum_by-append, sum_by-sort_by, ≤ℤ_of_eq,
}
use retail_credit_platform.Common.Sorting.{sort_by}
use retail_credit_platform.Contract.{
  Installment, InstallmentContract, charge_outstanding, principal_outstanding, profit_outstanding,
  late_fee_outstanding, sum_outstanding, charges_of,
}
use retail_credit_platform.Contract.Receivable.{build_receivable, principal_of, profit_of}
use retail_credit_platform.Allocation.{allocate}
use retail_credit_platform.Allocation.Waterfall.{owed, owed_by_all, allocate-eq-waterfall}
use retail_credit_platform.Payments.Record.{
  is_live, to_outstanding, outstanding_installments, total_outstanding,
}

abbrev owed_on : Installment → ℤ
owed_on i = pos (owed (to_outstanding i))

-- An installment that is not live is owed nothing.
dead_owes_nothing : (i : Installment) → is_live i ≡ false → owed_on i ≡ pos 0
unfolding is_live to_outstanding
dead_owes_nothing i dead =
    not_owed (principal_outstanding i) (profit_outstanding i) (late_fee_outstanding i) dead
  where
    not_owed :
        (a b c : ℤ)
        → ltb_ℤ (pos 0) a || ltb_ℤ (pos 0) b || ltb_ℤ (pos 0) c ≡ false
        → pos (pos_part c + pos_part b + pos_part a) ≡ pos 0
    not_owed a b c h = ground arith

owed_by_live :
    (is : List Installment)
    → pos (owed_by_all (map to_outstanding (keep is_live is))) ≡ sum_by owed_on is
unfolding sum_by
owed_by_live [] = refl
owed_by_live (i ∷ is) = elim (Bool-cases (is_live i)) [
  | inl live ↦ rw live (rw (← owed_by_live is) (omega int_laws))
  | inr dead ↦ rw (dead, dead_owes_nothing i dead, ← owed_by_live is) (omega int_laws)
]

pub sum_outstanding-charges_of :
    (is : List Installment) → sum_outstanding (charges_of is) ≡ sum_by late_fee_outstanding is
unfolding sum_outstanding charges_of late_fee_outstanding sum_by
sum_outstanding-charges_of [] = refl
sum_outstanding-charges_of (i ∷ is) =
    sum_by-append charge_outstanding i.late_fee_charges (charges_of is)
    ∙ ap (λ s. sum_by charge_outstanding i.late_fee_charges +ℤ s) (sum_outstanding-charges_of is)

-- The total outstanding is the sum of the three balances over the installments.
pub total_outstanding-eq-sums :
    (c : InstallmentContract)
    → total_outstanding c
      ≡ sum_by principal_outstanding c.installments
        +ℤ sum_by profit_outstanding c.installments
        +ℤ sum_by late_fee_outstanding c.installments
unfolding total_outstanding build_receivable principal_of profit_of
total_outstanding-eq-sums c = rw (sum_outstanding-charges_of c.installments)

sums-le-owed :
    (is : List Installment)
    → sum_by principal_outstanding is
        +ℤ sum_by profit_outstanding is
        +ℤ sum_by late_fee_outstanding is
      ≤ℤ sum_by owed_on is
unfolding sum_by to_outstanding
sums-le-owed [] = omega int_laws
sums-le-owed (i ∷ is) = omega (int_laws, sums-le-owed is)

pub total_outstanding-le-owed :
    (c : InstallmentContract)
    → total_outstanding c ≤ℤ pos (owed_by_all (map to_outstanding (outstanding_installments c)))
unfolding outstanding_installments
total_outstanding-le-owed c =
    let key = λ (i : Installment). i.sequence_number in
    ≤ℤ_of_eq (total_outstanding-eq-sums c)
      (owed_by_live (sort_by key c.installments) ∙ sum_by-sort_by owed_on key c.installments)
      (sums-le-owed c.installments)

-- A payment within the total outstanding is allocated in full.
pub allocate_in_full :
    (c : InstallmentContract) (amount : ℤ)
    → pos 0 ≤ℤ amount
    → amount ≤ℤ total_outstanding c
    → let plan = allocate amount (map to_outstanding (outstanding_installments c)) in
      (plan.allocated_amount ≡ amount) × (plan.unallocated_amount ≡ pos 0)
allocate_in_full c amount h le =
    rw (allocate-eq-waterfall amount (map to_outstanding (outstanding_installments c)))
      (in_full amount _ h (omega (arith, total_outstanding-le-owed c)))
  where
    in_full :
        (z : ℤ) (n : ℕ)
        → pos 0 ≤ℤ z
        → z ≤ℤ pos n
        → (pos (min n (pos_part z)) ≡ z) × (pos (pos_part z - n) ≡ pos 0)
    in_full z n a b = ground arith
