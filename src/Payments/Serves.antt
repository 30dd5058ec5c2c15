-- ===== src/Payments/Serves.antt =====
-- The lines that the engine returns for the live installments, read against the installments
-- themselves: each line names one installment and stays within what that one owes.
use Prim.Native.Nat.{min}
use retail_credit_platform.Common.{
  ℕ, ◌+◌, ◌≡◌, refl, ℤ, pos, pos_part, ◌≤ℤ◌, ◌<ℤ◌, List, [], ◌∷◌, map, keep, arith, Bool-cases, inl,
  inr, if◌then◌else◌,
}
use retail_credit_platform.Contract.{
  Installment, principal_outstanding, profit_outstanding, late_fee_outstanding,
}
use retail_credit_platform.Allocation.{InstallmentAllocation}
use retail_credit_platform.Allocation.Waterfall.{owed, share_line, waterfall, pays}
use retail_credit_platform.Payments.Record.{is_live, to_outstanding}

-- A line that names the installment, with no component below zero or above what is owed.
pub record Within (i : Installment) (l : InstallmentAllocation) : Type 0 where
  pub names : l.installment_id ≡ i.id
  pub fee_nonneg : pos 0 ≤ℤ l.late_fee
  pub profit_nonneg : pos 0 ≤ℤ l.profit
  pub principal_nonneg : pos 0 ≤ℤ l.principal
  pub fee_le : pos 0 <ℤ l.late_fee → l.late_fee ≤ℤ late_fee_outstanding i
  pub profit_le : pos 0 <ℤ l.profit → l.profit ≤ℤ profit_outstanding i
  pub principal_le : pos 0 <ℤ l.principal → l.principal ≤ℤ principal_outstanding i

-- The lines serve some of the installments, in the same order.
pub data Serves : List Installment → List InstallmentAllocation → Type 0 where
  done : Serves [] []
  skip :
      (i : Installment) {is : List Installment} {ls : List InstallmentAllocation}
      → Serves is ls
      → Serves (i ∷ is) ls
  give :
      {i : Installment} {l : InstallmentAllocation} {is : List Installment}
      {ls : List InstallmentAllocation}
      → Within i l
      → Serves is ls
      → Serves (i ∷ is) (l ∷ ls)

share-le : (z : ℤ) (n : ℕ) → pos 0 <ℤ pos (min (pos_part z) n) → pos (min (pos_part z) n) ≤ℤ z
share-le z n h = ground arith

share_line-Within : (n b : ℕ) (i : Installment) → Within i (share_line n b (to_outstanding i))
unfolding to_outstanding
share_line-Within n b i = record {
  names = refl;
  fee_nonneg = omega arith;
  profit_nonneg = omega arith;
  principal_nonneg = omega arith;
  fee_le = share-le (late_fee_outstanding i) _;
  profit_le = share-le (profit_outstanding i) _;
  principal_le = share-le (principal_outstanding i) _;
}

pub keep-waterfall-Serves :
    (n b : ℕ) (is : List Installment)
    → Serves is (keep pays (waterfall n b (map to_outstanding (keep is_live is))))
keep-waterfall-Serves n b [] = done
keep-waterfall-Serves n b (i ∷ is) = elim (Bool-cases (is_live i)) [
  | inl live ↦
      rw live (serve_live i is n b (keep-waterfall-Serves n (b + owed (to_outstanding i)) is))
  | inr dead ↦ rw dead (skip i (keep-waterfall-Serves n b is))
]
  where
    serve_live :
        (i : Installment) (is : List Installment) (n b : ℕ)
        → let rest =
            keep pays
              (waterfall n (b + owed (to_outstanding i)) (map to_outstanding (keep is_live is))) in
          Serves is rest
          → let l = share_line n b (to_outstanding i) in
            Serves (i ∷ is) (if pays l then l ∷ rest else rest)
    serve_live i is n b s = elim (Bool-cases (pays (share_line n b (to_outstanding i)))) [
      | inl p ↦ rw p (give (share_line-Within n b i) s)
      | inr q ↦ rw q (skip i s)
    ]
