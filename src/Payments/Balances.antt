-- ===== src/Payments/Balances.antt =====
-- The balances of a contract once the lines of a payment are applied.
use retail_credit_platform.Common.{
  ◌≡◌, sym, subst, pos_part, ap, ◌∙◌, ℤ, pos, ◌+ℤ◌, ◌-ℤ◌, ◌≤ℤ◌, ltb_ℤ, ltb_ℤ→ge, List, [], ◌∷◌, map,
  All, keep, int_laws, Bool-cases, inl, inr, sum_by,
}
use retail_credit_platform.Common.Sorting.{IsOrdered, sort_by-IsOrdered}
use retail_credit_platform.Contract.{
  Installment, InstallmentContract, principal_outstanding, profit_outstanding, late_fee_outstanding,
}
use retail_credit_platform.Allocation.{
  InstallmentAllocation, line_total, AllocationResult, allocate,
}
use retail_credit_platform.Allocation.Waterfall.{pays, waterfall, allocate-eq-waterfall}
use retail_credit_platform.Allocation.Laws.{total_of, allocate_conserves}
use retail_credit_platform.Payments.Apply.{apply_line, apply_all, recognise}
use retail_credit_platform.Payments.Record.{
  is_live, total_outstanding, to_outstanding, outstanding_installments,
}
use retail_credit_platform.Payments.Serves.{Serves, done, skip, give, Within, keep-waterfall-Serves}
use retail_credit_platform.Payments.Effect.{
  UniqueIds, SoundCharges, apply_all-served, apply_line-principal, apply_line-profit,
  apply_line-late_fee, sum_by-served,
}
use retail_credit_platform.Payments.Owed.{total_outstanding-eq-sums, allocate_in_full}

-- The installments are in order and have numbers of their own, and nothing negative is written off.
pub record IsWellFormed (c : InstallmentContract) : Type 0 where
  pub ordered : IsOrdered (λ (i : Installment). i.sequence_number) c.installments
  pub unique : UniqueIds c.installments
  pub charges : All SoundCharges c.installments

-- The lines of a payment of `amount`.
abbrev pub lines_of : InstallmentContract → ℤ → List InstallmentAllocation
lines_of c amount = (allocate amount (map to_outstanding (outstanding_installments c))).allocations

live_in_order :
    (c : InstallmentContract)
    → IsWellFormed c
    → outstanding_installments c ≡ keep is_live c.installments
unfolding outstanding_installments
live_in_order c w =
    ap (keep is_live)
      (sort_by-IsOrdered (λ (i : Installment). i.sequence_number) c.installments w.ordered)

pub lines_of-Serves :
    (c : InstallmentContract) (amount : ℤ)
    → IsWellFormed c
    → Serves c.installments (lines_of c amount)
lines_of-Serves c amount w =
    let n = pos_part amount in
    let lines : lines_of c amount
        ≡ keep pays (waterfall n 0 (map to_outstanding (keep is_live c.installments))) =
      ap (λ (r : AllocationResult). r.allocations) (allocate-eq-waterfall amount _)
      ∙ ap (λ is. keep pays (waterfall n 0 (map to_outstanding is))) (live_in_order c w) in
    subst (λ ls. Serves c.installments ls) (sym lines) (keep-waterfall-Serves n 0 c.installments)

-- A balance that every line lowers by what it carries.
abbrev Lowers : (Installment → ℤ) → (InstallmentAllocation → ℤ) → Type 0
Lowers f g =
    (i : Installment) (l : InstallmentAllocation)
    → Within i l
    → SoundCharges i
    → f (apply_line l i) ≡ f i -ℤ g l

module _ (c : InstallmentContract) (amount : ℤ) (w : IsWellFormed c) where
  balance_falls :
      (f : Installment → ℤ) (g : InstallmentAllocation → ℤ)
      → Lowers f g
      → sum_by f (apply_all (lines_of c amount) c.installments)
        ≡ sum_by f c.installments -ℤ sum_by g (lines_of c amount)
  balance_falls f g step =
      let s = lines_of-Serves c amount w in
      ap (sum_by f) (apply_all-served s w.unique) ∙ sum_by-served f g step s w.charges

  unfoldable pub paid_contract : InstallmentContract
  paid_contract = record c {
    installments = apply_all (lines_of c amount) c.installments;
    unearned_profit_balance = recognise (lines_of c amount) c.unearned_profit_balance;
  }

  pub principal_falls :
      sum_by principal_outstanding paid_contract.installments
      ≡ sum_by principal_outstanding c.installments -ℤ sum_by (λ l. l.principal) (lines_of c amount)
  unfolding paid_contract
  principal_falls =
      balance_falls principal_outstanding (λ l. l.principal) (λ i l v _. apply_line-principal i l v)

  pub profit_falls :
      sum_by profit_outstanding paid_contract.installments
      ≡ sum_by profit_outstanding c.installments -ℤ sum_by (λ l. l.profit) (lines_of c amount)
  unfolding paid_contract
  profit_falls =
      balance_falls profit_outstanding (λ l. l.profit) (λ i l v _. apply_line-profit i l v)

  pub late_fee_falls :
      sum_by late_fee_outstanding paid_contract.installments
      ≡ sum_by late_fee_outstanding c.installments -ℤ sum_by (λ l. l.late_fee) (lines_of c amount)
  unfolding paid_contract
  late_fee_falls = balance_falls late_fee_outstanding (λ l. l.late_fee) apply_line-late_fee

sum_of_parts :
    (ls : List InstallmentAllocation)
    → total_of ls
      ≡ sum_by (λ l. l.late_fee) ls +ℤ sum_by (λ l. l.profit) ls +ℤ sum_by (λ l. l.principal) ls
unfolding sum_by line_total
sum_of_parts [] = omega int_laws
sum_of_parts (l ∷ ls) = rw (sum_of_parts ls) (omega int_laws)

recognise-sum :
    (ls : List InstallmentAllocation) (z : ℤ)
    → All (λ l. pos 0 ≤ℤ l.profit) ls
    → recognise ls z ≡ z -ℤ sum_by (λ l. l.profit) ls
unfolding recognise sum_by
recognise-sum [] z h = omega int_laws
recognise-sum (l ∷ ls) z (h, hs) = elim (Bool-cases (ltb_ℤ (pos 0) l.profit)) [
  | inl above ↦ rw above (rw (recognise-sum ls (z -ℤ l.profit) hs) (omega int_laws))
  | inr not_above ↦
      rw not_above
        (rw (recognise-sum ls z hs) (omega (int_laws, ltb_ℤ→ge (pos 0) l.profit not_above, h)))
]

falls_by :
    (a b c x y z t : ℤ) → x +ℤ y +ℤ z ≡ t → (a -ℤ z) +ℤ (b -ℤ y) +ℤ (c -ℤ x) ≡ a +ℤ b +ℤ c -ℤ t
falls_by a b c x y z t e = rw (sym e) (omega int_laws)

Serves-profit :
    {is : List Installment} {ls : List InstallmentAllocation}
    → Serves is ls
    → All (λ l. pos 0 ≤ℤ l.profit) ls
Serves-profit done = tt
Serves-profit (skip i s) = Serves-profit s
Serves-profit (give w s) = (w.profit_nonneg, Serves-profit s)

-- A payment that passes the check lowers the total outstanding by its amount, and the unearned profit
-- by as much as it lowers the outstanding profit.
pub paid_contract_lem :
    (c : InstallmentContract) (amount : ℤ) (w : IsWellFormed c)
    → pos 0 ≤ℤ amount
    → amount ≤ℤ total_outstanding c
    → let c' = paid_contract c amount w in
      (total_outstanding c' ≡ total_outstanding c -ℤ amount)
      × (c.unearned_profit_balance -ℤ c'.unearned_profit_balance
          ≡ sum_by profit_outstanding c.installments -ℤ sum_by profit_outstanding c'.installments)
unfolding paid_contract
paid_contract_lem c amount w h le =
    let ls = lines_of c amount in
    let os = map to_outstanding (outstanding_installments c) in
    let all : total_of ls ≡ amount =
      (allocate_conserves amount os).0 ∙ (allocate_in_full c amount h le).0 in
    (
      rw
          (
            total_outstanding-eq-sums (paid_contract c amount w),
            total_outstanding-eq-sums c,
            principal_falls c amount w,
            profit_falls c amount w,
            late_fee_falls c amount w,
          )
          (falls_by _ _ _ _ _ _ amount (sym (sum_of_parts ls) ∙ all)),
      rw
          (
            recognise-sum ls c.unearned_profit_balance (Serves-profit (lines_of-Serves c amount w)),
            profit_falls c amount w,
          )
          (omega int_laws),
    )
