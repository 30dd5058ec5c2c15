-- ===== src/Payments/Apply.antt =====
-- How one line of an allocation changes its installment: `_apply_late_fee`,
-- `_update_installment_status` and the body of the loop in `record_payment`.
use retail_credit_platform.Common.{
  ℤ, pos, ◌+ℤ◌, ◌-ℤ◌, ltb_ℤ, leb_ℤ, min_ℤ, ◌==◌, true, false, List, [], ◌∷◌, if◌then◌else◌,
}
use retail_credit_platform.Common.Sorting.{sort_by}
use retail_credit_platform.Contract.{
  LateFeeCharge, LateFeeStatus, Installment, InstallmentStatus, is_waived, is_overdue,
  is_fully_paid, has_any_payment,
}
use retail_credit_platform.Allocation.{InstallmentAllocation}

-- One round of the loop of `_apply_late_fee` on a charge that is not waived: the charge, and what
-- remains. What was written off of the charge is not looked at.
unfoldable pub pay_charge : ℤ → LateFeeCharge → LateFeeCharge × ℤ
pay_charge remaining c =
    let take = min_ℤ remaining (c.amount -ℤ c.amount_paid) in
    let paid = c.amount_paid +ℤ take in
    if leb_ℤ take (pos 0) then (c, remaining) else (
      record c {
        amount_paid = paid;
        status = if leb_ℤ c.amount paid then LateFeeStatus.paid else c.status;
      },
      remaining -ℤ take,
    )

-- The loop, over the charges in order; waived charges are passed over.
unfoldable pub pay_charges : ℤ → List LateFeeCharge → List LateFeeCharge
pay_charges remaining [] = []
pay_charges remaining (c ∷ cs) =
    let here = pay_charge remaining c in
    if leb_ℤ remaining (pos 0) then c ∷ cs else elim (is_waived c.status) [
      | true ↦ c ∷ pay_charges remaining cs
      | false ↦ here.0 ∷ pay_charges here.1 cs
    ]

unfoldable pub apply_late_fee : List LateFeeCharge → ℤ → List LateFeeCharge
unfolding pay_charges
apply_late_fee charges amount = pay_charges amount (sort_by (λ c. c.assessed_at) charges)

unfoldable pub update_installment_status : Installment → InstallmentStatus
update_installment_status i =
    if is_fully_paid i
    then InstallmentStatus.paid
    else if is_overdue i.status
    then i.status
    else if has_any_payment i
    then InstallmentStatus.partially_paid
    else i.status

-- The balances of an installment after a line of an allocation.
unfoldable pub credit : InstallmentAllocation → Installment → Installment
credit line i = record i {
  late_fee_charges =
      if ltb_ℤ (pos 0) line.late_fee
      then apply_late_fee i.late_fee_charges line.late_fee
      else i.late_fee_charges;
  profit_paid = if ltb_ℤ (pos 0) line.profit then i.profit_paid +ℤ line.profit else i.profit_paid;
  principal_paid =
      if ltb_ℤ (pos 0) line.principal then i.principal_paid +ℤ line.principal else i.principal_paid;
}

unfoldable pub apply_line : InstallmentAllocation → Installment → Installment
unfolding credit update_installment_status
apply_line line i =
    let paid = credit line i in record paid { status = update_installment_status paid }

-- The installment that `by_id` finds under the line's number is changed in place.
unfoldable pub apply_to : InstallmentAllocation → List Installment → List Installment
unfolding apply_line
apply_to line [] = []
apply_to line (i ∷ is) =
    (if i.id == line.installment_id then apply_line line i else i) ∷ apply_to line is

unfoldable pub apply_all : List InstallmentAllocation → List Installment → List Installment
unfolding apply_to
apply_all [] is = is
apply_all (line ∷ lines) is = apply_all lines (apply_to line is)

-- The unearned profit falls by the profit of each line.
unfoldable pub recognise : List InstallmentAllocation → ℤ → ℤ
recognise [] balance = balance
recognise (line ∷ lines) balance =
    recognise lines (if ltb_ℤ (pos 0) line.profit then balance -ℤ line.profit else balance)
