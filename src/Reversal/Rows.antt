-- ===== src/Reversal/Rows.antt =====
-- The rows of a recorded payment, taken back from the contract that it was paid on.
use retail_credit_platform.Common.{
  ℕ, ◌+◌, ◌≡◌, refl, sym, subst, ◌∙◌, ℤ, pos, ◌+ℤ◌, ◌-ℤ◌, ◌≤ℤ◌, ltb_ℤ, ltb_ℤ→lt, ltb_ℤ→ge, none,
  List, [], ◌∷◌, All, arith, int_laws, Bool-cases, inl, inr, sum_by,
}
use retail_credit_platform.Contract.{
  LateFeeCharge, sum_outstanding, Installment, InstallmentContract, principal_outstanding,
  profit_outstanding, late_fee_outstanding,
}
use retail_credit_platform.Allocation.{InstallmentAllocation}
use retail_credit_platform.Payments.Apply.{apply_late_fee, apply_line}
use retail_credit_platform.Payments.Charges.{NonnegWriteOff}
use retail_credit_platform.Payments.Record.{PaymentAllocation, to_allocations}
use retail_credit_platform.Payments.Serves.{Serves, done, skip, give, Within}
use retail_credit_platform.Payments.Update.{Aligned, finish, pass, take}
use retail_credit_platform.Payments.Effect.{UniqueIds, SoundCharges, served, apply_all-served}
use retail_credit_platform.Payments.Keeps.{served-UniqueIds}
use retail_credit_platform.Payments.Balances.{
  IsWellFormed, lines_of, lines_of-Serves, paid_contract, principal_falls, profit_falls,
  late_fee_falls,
}
use retail_credit_platform.Reversal.{undo_all}
use retail_credit_platform.Reversal.Charges.{paid_part, sum_paid_nonneg, NoWaivedPayment}
use retail_credit_platform.Reversal.Paid.{
  NonnegPaid, apply_late_fee-paid, apply_late_fee-NoWaivedPayment,
}
use retail_credit_platform.Reversal.Undone.{
  Reversible, row_id, undone_principal, undone_profit, undone_late_fee,
}

-- Nothing negative was paid of the charges of an installment, and nothing of a waived one.
pub record IsPayable (i : Installment) : Type 0 where
  pub nonneg : All NonnegPaid i.late_fee_charges
  pub unwaived : All NoWaivedPayment i.late_fee_charges

fee_paid :
    (cs : List LateFeeCharge) (fee : ℤ)
    → All NonnegPaid cs
    → All NonnegWriteOff cs
    → pos 0 ≤ℤ fee
    → fee ≤ℤ sum_outstanding cs
    → fee ≤ℤ sum_by paid_part (apply_late_fee cs fee)
fee_paid cs fee p w h le =
    rw (apply_late_fee-paid cs fee p w h le) (omega (int_laws, sum_paid_nonneg cs))

zero_paid : (cs : List LateFeeCharge) (fee : ℤ) → fee ≤ℤ pos 0 → fee ≤ℤ sum_by paid_part cs
zero_paid cs fee h = omega (arith, h, sum_paid_nonneg cs)

module _ (payment_id contract_id : ℕ) where
  abbrev row : ℕ → InstallmentAllocation → PaymentAllocation
  row n l = record {
    id = n;
    payment_id = payment_id;
    contract_id = contract_id;
    installment_id = l.installment_id;
    late_fee_amount = l.late_fee;
    profit_amount = l.profit;
    principal_amount = l.principal;
    reversed_by_allocation_id = none;
  }

  -- The row of a line can be taken back from the installment that the line served.
  row-Reversible :
      (n : ℕ) (i : Installment) (l : InstallmentAllocation)
      → Within i l
      → SoundCharges i
      → IsPayable i
      → Reversible (apply_line l i) (row n l)
  unfolding apply_line late_fee_outstanding
  row-Reversible n i l w sound payable = record {
    fee_nonneg = w.fee_nonneg;
    profit_nonneg = w.profit_nonneg;
    principal_nonneg = w.principal_nonneg;
    paid = elim (Bool-cases (ltb_ℤ (pos 0) l.late_fee)) [
      | inl above ↦ rw above (
          fee_paid i.late_fee_charges l.late_fee payable.nonneg sound w.fee_nonneg
            (w.fee_le (ltb_ℤ→lt (pos 0) l.late_fee above)))
      | inr other ↦
          rw other (zero_paid i.late_fee_charges l.late_fee (ltb_ℤ→ge (pos 0) l.late_fee other))
    ];
    unwaived = elim (Bool-cases (ltb_ℤ (pos 0) l.late_fee)) [
      | inl above ↦
          rw above (apply_late_fee-NoWaivedPayment i.late_fee_charges l.late_fee payable.unwaived)
      | inr other ↦ rw other payable.unwaived
    ];
  }

  served-Aligned :
      (n : ℕ) {is : List Installment} {ls : List InstallmentAllocation} (s : Serves is ls)
      → All SoundCharges is
      → All IsPayable is
      → Aligned row_id Reversible (served s) (to_allocations payment_id contract_id n ls)
  unfolding served to_allocations apply_line
  served-Aligned n done h p = finish
  served-Aligned n (skip i s) (h, hs) (p, ps) = pass i (served-Aligned n s hs ps)
  served-Aligned n (give {i} {l} w s) (h, hs) (p, ps) =
      take w.names (row-Reversible n i l w h p) (served-Aligned (n + 1) s hs ps)

  -- The columns of the rows add up as those of the lines do.
  pub column :
      (f : PaymentAllocation → ℤ) (g : InstallmentAllocation → ℤ)
      → ((n : ℕ) (l : InstallmentAllocation) → f (row n l) ≡ g l)
      → (n : ℕ) (ls : List InstallmentAllocation)
      → sum_by f (to_allocations payment_id contract_id n ls) ≡ sum_by g ls
  unfolding sum_by to_allocations
  column f g h n [] = refl
  column f g h n (l ∷ ls) = rw (h n l, column f g h (n + 1) ls) refl

restored : (x y a b : ℤ) → a ≡ x -ℤ y → b ≡ y → a +ℤ b ≡ x
restored x y a b e f = rw (e, f) (omega int_laws)

module _ (c : InstallmentContract) (amount : ℤ) (w : IsWellFormed c)
    (p : All IsPayable c.installments) where
  module _ (payment_id n : ℕ) where
    unfoldable pub paid_rows : List PaymentAllocation
    paid_rows = to_allocations payment_id c.id n (lines_of c amount)

    pub rows-Aligned : Aligned row_id Reversible (paid_contract c amount w).installments paid_rows
    unfolding paid_contract paid_rows
    rows-Aligned =
        subst
          (λ is.
            Aligned row_id Reversible is (to_allocations payment_id c.id n (lines_of c amount)))
          (sym (apply_all-served (lines_of-Serves c amount w) w.unique))
          (served-Aligned payment_id c.id n (lines_of-Serves c amount w) w.charges p)

    paid_unique : UniqueIds (paid_contract c amount w).installments
    unfolding paid_contract
    paid_unique =
        subst UniqueIds (sym (apply_all-served (lines_of-Serves c amount w) w.unique))
          (served-UniqueIds (lines_of-Serves c amount w) w.unique)

    -- Each column of balances is what it was.
    pub back_principal :
        sum_by principal_outstanding (undo_all paid_rows (paid_contract c amount w).installments)
        ≡ sum_by principal_outstanding c.installments
    unfolding paid_rows
    back_principal =
        undone_principal rows-Aligned paid_unique
        ∙ restored _ _ _ _ (principal_falls c amount w) (
            column payment_id c.id (λ r. r.principal_amount) (λ l. l.principal) (λ m l. refl) n
              (lines_of c amount))

    pub back_profit :
        sum_by profit_outstanding (undo_all paid_rows (paid_contract c amount w).installments)
        ≡ sum_by profit_outstanding c.installments
    unfolding paid_rows
    back_profit =
        undone_profit rows-Aligned paid_unique
        ∙ restored _ _ _ _ (profit_falls c amount w) (
            column payment_id c.id (λ r. r.profit_amount) (λ l. l.profit) (λ m l. refl) n
              (lines_of c amount))

    pub back_late_fee :
        sum_by late_fee_outstanding (undo_all paid_rows (paid_contract c amount w).installments)
        ≡ sum_by late_fee_outstanding c.installments
    unfolding paid_rows
    back_late_fee =
        undone_late_fee rows-Aligned paid_unique
        ∙ restored _ _ _ _ (late_fee_falls c amount w) (
            column payment_id c.id (λ r. r.late_fee_amount) (λ l. l.late_fee) (λ m l. refl) n
              (lines_of c amount))
