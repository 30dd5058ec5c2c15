-- ===== src/Reversal/Charges.antt =====
-- Taking back a late fee payment raises the outstanding late fees by just that amount.
use retail_credit_platform.Common.{
  ℕ, ◌≡◌, refl, ap, sym, ◌∙◌, ℤ, pos, pos_part, ◌+ℤ◌, ◌-ℤ◌, ◌≤ℤ◌, ◌<ℤ◌, leb_ℤ, leb_ℤ→le, ltb_ℤ,
  ltb_ℤ→lt, ltb_ℤ→ge, min_ℤ, Bool, true, false, List, [], ◌∷◌, All, arith, int_laws, Bool-cases,
  inl, inr, sum_by, sum_by-sort_desc, if◌then◌else◌,
}
use retail_credit_platform.Common.Sorting.{sort_desc, sort_desc-All}
use retail_credit_platform.Contract.{
  LateFeeCharge, LateFeeStatus, is_waived, charge_outstanding, sum_outstanding,
}
use retail_credit_platform.Payments.Charges.{outstanding_owed, left_fits}
use retail_credit_platform.Reversal.{unpay_charge, unpay_charges, reverse_late_fee}

-- What was paid of a charge, as far as it can be taken back.
abbrev pub paid_part : LateFeeCharge → ℤ
paid_part c = pos (pos_part c.amount_paid)

-- Nothing is paid of a waived charge.
abbrev pub NoWaivedPayment : LateFeeCharge → Type 0
NoWaivedPayment c = is_waived c.status ≡ true → c.amount_paid ≤ℤ pos 0

paid_not_waived : (b : Bool) (z : ℤ) → pos 0 <ℤ z → (b ≡ true → z ≤ℤ pos 0) → b ≡ false
paid_not_waived true z h k = absurd (omega (arith, h, k refl))
paid_not_waived false z h k = refl

reopened :
    (b : Bool) (st : LateFeeStatus)
    → is_waived st ≡ false
    → is_waived (if b then LateFeeStatus.assessed else st) ≡ false
reopened true st h = refl
reopened false st h = h

paid_part_pos : (z : ℤ) → pos 0 <ℤ z → pos (pos_part z) ≡ z
paid_part_pos z h = ground arith

-- One charge gives back the smaller of what remains and what was paid of it.
unpay_charge_lem :
    (r : ℤ) (c : LateFeeCharge)
    → is_waived c.status ≡ false
    → charge_outstanding (unpay_charge r c).0 ≡ charge_outstanding c +ℤ min_ℤ r c.amount_paid
unfolding unpay_charge
unpay_charge_lem r c w =
    let again : LateFeeCharge = (unpay_charge r c).0 in
    rw (outstanding_owed again (reopened _ c.status w), outstanding_owed c w) (omega int_laws)

pub sum_paid_nonneg : (cs : List LateFeeCharge) → pos 0 ≤ℤ sum_by paid_part cs
unfolding sum_by
sum_paid_nonneg [] = omega arith
sum_paid_nonneg (c ∷ cs) = omega (int_laws, sum_paid_nonneg cs)

zero_part : (z : ℤ) → z ≤ℤ pos 0 → pos_part z ≡ 0
zero_part z h = ground arith

none_paid : (r z s : ℤ) → z ≤ℤ pos 0 → r ≤ℤ pos (pos_part z) +ℤ s → r ≤ℤ s
none_paid r z s h le = omega (int_laws, zero_part z h, le)

unpay_charges_lem :
    (r : ℤ) (cs : List LateFeeCharge)
    → All NoWaivedPayment cs
    → pos 0 ≤ℤ r
    → r ≤ℤ sum_by paid_part cs
    → sum_outstanding (unpay_charges r cs) ≡ sum_outstanding cs +ℤ r
unfolding unpay_charges sum_outstanding sum_by ◌+ℤ◌ charge_outstanding min_ℤ unpay_charge
unpay_charges_lem r [] w h le = omega int_laws
unpay_charges_lem r (c ∷ cs) (w, ws) h le = elim (Bool-cases (leb_ℤ r (pos 0))) [
  | inl spent ↦ rw spent (omega (int_laws, leb_ℤ→le r (pos 0) spent))
  | inr left ↦ rw left (elim (Bool-cases (ltb_ℤ (pos 0) c.amount_paid)) [
    | inr unpaid ↦ rw unpaid (
        rw
          (unpay_charges_lem r cs ws h (
            none_paid r c.amount_paid (sum_by paid_part cs) (ltb_ℤ→ge (pos 0) c.amount_paid unpaid)
              le))
          (omega int_laws))
    | inl paid ↦ rw paid (
        let above = ltb_ℤ→lt (pos 0) c.amount_paid paid in
        let (nonneg, fits) =
          left_fits r c.amount_paid (sum_by paid_part cs) (sum_paid_nonneg cs)
            (rw (sym (paid_part_pos c.amount_paid above)) le) in
        rw
          (
            unpay_charge_lem r c (paid_not_waived (is_waived c.status) c.amount_paid above w),
            unpay_charges_lem (r -ℤ min_ℤ r c.amount_paid) cs ws nonneg fits,
          )
          (omega int_laws))
  ])
]

-- Taking back a late fee amount that is not negative and within what was paid of the charges of an
-- installment, none of it of a waived charge, raises the outstanding late fees by exactly that amount.
pub reverse_late_fee_lem :
    (cs : List LateFeeCharge) (amount : ℤ)
    → All NoWaivedPayment cs
    → pos 0 ≤ℤ amount
    → amount ≤ℤ sum_by paid_part cs
    → sum_outstanding (reverse_late_fee cs amount) ≡ sum_outstanding cs +ℤ amount
unfolding reverse_late_fee sum_outstanding
reverse_late_fee_lem cs amount w h le =
    let key : LateFeeCharge → ℕ = λ c. c.assessed_at in
    unpay_charges_lem amount (sort_desc key cs) (sort_desc-All key NoWaivedPayment cs w) h
      (rw (sum_by-sort_desc paid_part key cs) le)
    ∙ ap (λ s. s +ℤ amount) (sum_by-sort_desc charge_outstanding key cs)
