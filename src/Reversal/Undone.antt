-- ===== src/Reversal/Undone.antt =====
-- Taking back lines raises every balance by exactly what they carried.
use retail_credit_platform.Common.{
  ℕ, ◌≡◌, refl, ap, ◌∙◌, ℤ, pos, ◌+ℤ◌, ◌≤ℤ◌, ltb_ℤ, ltb_ℤ→ge, List, [], ◌∷◌, All, int_laws,
  Bool-cases, inl, inr, sum_by,
}
use retail_credit_platform.Contract.{
  Installment, principal_outstanding, profit_outstanding, late_fee_outstanding,
}
use retail_credit_platform.Payments.Record.{PaymentAllocation}
use retail_credit_platform.Payments.Update.{
  UniqueIds, Aligned, finish, pass, take, update_to, update_all, updated, update_all-updated,
  sum_by-updated,
}
use retail_credit_platform.Reversal.{undo_line, undo_to, undo_all, unrecognise}
use retail_credit_platform.Reversal.Charges.{paid_part, NoWaivedPayment, reverse_late_fee_lem}

-- A row that can be taken back from an installment.
pub record Reversible (i : Installment) (r : PaymentAllocation) : Type 0 where
  pub fee_nonneg : pos 0 ≤ℤ r.late_fee_amount
  pub profit_nonneg : pos 0 ≤ℤ r.profit_amount
  pub principal_nonneg : pos 0 ≤ℤ r.principal_amount
  pub paid : r.late_fee_amount ≤ℤ sum_by paid_part i.late_fee_charges
  pub unwaived : All NoWaivedPayment i.late_fee_charges

abbrev pub row_id : PaymentAllocation → ℕ
row_id r = r.installment_id

undo_line-principal :
    (i : Installment) (r : PaymentAllocation)
    → Reversible i r
    → principal_outstanding (undo_line r i) ≡ principal_outstanding i +ℤ r.principal_amount
unfolding undo_line principal_outstanding
undo_line-principal i r w = elim (Bool-cases (ltb_ℤ (pos 0) r.principal_amount)) [
  | inl above ↦ rw above (omega int_laws)
  | inr other ↦
      rw other (omega (int_laws, ltb_ℤ→ge (pos 0) r.principal_amount other, w.principal_nonneg))
]

undo_line-profit :
    (i : Installment) (r : PaymentAllocation)
    → Reversible i r
    → profit_outstanding (undo_line r i) ≡ profit_outstanding i +ℤ r.profit_amount
unfolding undo_line profit_outstanding
undo_line-profit i r w = elim (Bool-cases (ltb_ℤ (pos 0) r.profit_amount)) [
  | inl above ↦ rw above (omega int_laws)
  | inr other ↦ rw other (omega (int_laws, ltb_ℤ→ge (pos 0) r.profit_amount other, w.profit_nonneg))
]

undo_line-late_fee :
    (i : Installment) (r : PaymentAllocation)
    → Reversible i r
    → late_fee_outstanding (undo_line r i) ≡ late_fee_outstanding i +ℤ r.late_fee_amount
unfolding undo_line late_fee_outstanding
undo_line-late_fee i r w = elim (Bool-cases (ltb_ℤ (pos 0) r.late_fee_amount)) [
  | inl above ↦
      rw above
        (reverse_late_fee_lem i.late_fee_charges r.late_fee_amount w.unwaived w.fee_nonneg w.paid)
  | inr other ↦ rw other (omega (int_laws, ltb_ℤ→ge (pos 0) r.late_fee_amount other, w.fee_nonneg))
]

undo_to-eq :
    (r : PaymentAllocation) (is : List Installment) → undo_to r is ≡ update_to row_id undo_line r is
unfolding undo_to update_to
undo_to-eq r [] = refl
undo_to-eq r (i ∷ is) = rw (undo_to-eq r is) refl

undo_all-eq :
    (rs : List PaymentAllocation) (is : List Installment)
    → undo_all rs is ≡ update_all row_id undo_line rs is
unfolding undo_all update_all
undo_all-eq [] is = refl
undo_all-eq (r ∷ rs) is =
    undo_all-eq rs (undo_to r is) ∙ ap (update_all row_id undo_line rs) (undo_to-eq r is)

module _ {is : List Installment} {rs : List PaymentAllocation} (s : Aligned row_id Reversible is rs)
    (u : UniqueIds is) where
  undo_all-updated : undo_all rs is ≡ updated row_id undo_line s
  unfolding undo_line
  undo_all-updated = undo_all-eq rs is ∙ update_all-updated row_id undo_line (λ r i. refl) s u

  pub undone_principal :
      sum_by principal_outstanding (undo_all rs is)
      ≡ sum_by principal_outstanding is +ℤ sum_by (λ r. r.principal_amount) rs
  undone_principal =
      ap (sum_by principal_outstanding) undo_all-updated
      ∙ sum_by-updated row_id undo_line principal_outstanding (λ r. r.principal_amount)
          undo_line-principal s

  pub undone_profit :
      sum_by profit_outstanding (undo_all rs is)
      ≡ sum_by profit_outstanding is +ℤ sum_by (λ r. r.profit_amount) rs
  undone_profit =
      ap (sum_by profit_outstanding) undo_all-updated
      ∙ sum_by-updated row_id undo_line profit_outstanding (λ r. r.profit_amount) undo_line-profit s

  pub undone_late_fee :
      sum_by late_fee_outstanding (undo_all rs is)
      ≡ sum_by late_fee_outstanding is +ℤ sum_by (λ r. r.late_fee_amount) rs
  undone_late_fee =
      ap (sum_by late_fee_outstanding) undo_all-updated
      ∙ sum_by-updated row_id undo_line late_fee_outstanding (λ r. r.late_fee_amount)
          undo_line-late_fee s

-- The unearned profit rises by the profit of the rows.
pub unrecognise-sum :
    (is : List Installment) (rs : List PaymentAllocation) (z : ℤ)
    → Aligned row_id Reversible is rs
    → unrecognise rs z ≡ z +ℤ sum_by (λ r. r.profit_amount) rs
unfolding unrecognise sum_by
unrecognise-sum _ _ z finish = omega int_laws
unrecognise-sum _ rs z (pass i {is} s) = unrecognise-sum is rs z s
unrecognise-sum _ _ z (take {i} {l = r} {is} {ls = rs} names w s) =
    elim (Bool-cases (ltb_ℤ (pos 0) r.profit_amount)) [
      | inl above ↦ rw above (rw (unrecognise-sum is rs (z +ℤ r.profit_amount) s) (omega int_laws))
      | inr other ↦ rw other (
          rw (unrecognise-sum is rs z s)
            (omega (int_laws, ltb_ℤ→ge (pos 0) r.profit_amount other, w.profit_nonneg)))
    ]
