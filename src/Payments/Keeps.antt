-- ===== src/Payments/Keeps.antt =====
-- The invariant of a contract is kept by every payment.
use retail_credit_platform.Common.{
  ℕ, ◌≤◌, ◌≢◌, ℤ, pos, ltb_ℤ, leb_ℤ, List, [], ◌∷◌, All, arith, Bool-cases, inl, inr,
}
use retail_credit_platform.Common.Sorting.{IsOrdered, sort_by-All}
use retail_credit_platform.Contract.{LateFeeCharge, Installment, is_waived}
use retail_credit_platform.Allocation.{InstallmentAllocation}
use retail_credit_platform.Payments.Apply.{pay_charge, pay_charges, apply_late_fee, apply_line}
use retail_credit_platform.Payments.Charges.{NonnegWriteOff}
use retail_credit_platform.Payments.Serves.{Serves, done, skip, give}
use retail_credit_platform.Payments.Effect.{UniqueIds, SoundCharges, served}

pay_charge-NonnegWriteOff :
    (r : ℤ) (c : LateFeeCharge) → NonnegWriteOff c → NonnegWriteOff (pay_charge r c).0
unfolding pay_charge
pay_charge-NonnegWriteOff r c h = ground arith

pay_charges-NonnegWriteOff :
    (r : ℤ) (cs : List LateFeeCharge)
    → All NonnegWriteOff cs
    → All NonnegWriteOff (pay_charges r cs)
unfolding pay_charges
pay_charges-NonnegWriteOff r [] h = tt
pay_charges-NonnegWriteOff r (c ∷ cs) (h, hs) = elim (Bool-cases (leb_ℤ r (pos 0))) [
  | inl spent ↦ rw spent (h, hs)
  | inr left ↦ rw left (elim (Bool-cases (is_waived c.status)) [
    | inl waived ↦ rw waived (h, pay_charges-NonnegWriteOff r cs hs)
    | inr owed ↦
        rw owed
          (pay_charge-NonnegWriteOff r c h, pay_charges-NonnegWriteOff (pay_charge r c).1 cs hs)
  ])
]

apply_line-SoundCharges :
    (l : InstallmentAllocation) (i : Installment) → SoundCharges i → SoundCharges (apply_line l i)
unfolding apply_line apply_late_fee
apply_line-SoundCharges l i h = elim (Bool-cases (ltb_ℤ (pos 0) l.late_fee)) [
  | inl above ↦ rw above (
      pay_charges-NonnegWriteOff l.late_fee _
        (sort_by-All (λ (c : LateFeeCharge). c.assessed_at) NonnegWriteOff i.late_fee_charges h))
  | inr not_above ↦ rw not_above h
]

pub served-SoundCharges :
    {is : List Installment} {ls : List InstallmentAllocation} (s : Serves is ls)
    → All SoundCharges is
    → All SoundCharges (served s)
unfolding served
served-SoundCharges done h = tt
served-SoundCharges (skip i s) (h, hs) = (h, served-SoundCharges s hs)
served-SoundCharges (give {i} {l} w s) (h, hs) =
    (apply_line-SoundCharges l i h, served-SoundCharges s hs)

-- What depends on the numbers of the installments only.
served-All :
    {is : List Installment} {ls : List InstallmentAllocation} (s : Serves is ls) (n : ℕ)
    → All (λ j. j.id ≢ n) is
    → All (λ j. j.id ≢ n) (served s)
unfolding served apply_line
served-All done n h = tt
served-All (skip i s) n (h, hs) = (h, served-All s n hs)
served-All (give w s) n (h, hs) = (h, served-All s n hs)

pub served-UniqueIds :
    {is : List Installment} {ls : List InstallmentAllocation} (s : Serves is ls)
    → UniqueIds is
    → UniqueIds (served s)
unfolding served apply_line
served-UniqueIds done h = tt
served-UniqueIds (skip i s) (h, hs) = (served-All s i.id h, served-UniqueIds s hs)
served-UniqueIds (give {i} w s) (h, hs) = (served-All s i.id h, served-UniqueIds s hs)

abbrev number_of : Installment → ℕ
number_of i = i.sequence_number

-- The first number is at least `n` in a list in order.
abbrev FromNumber : ℕ → List Installment → Type 0
FromNumber n [] = Unit
FromNumber n (i ∷ is) = n ≤ i.sequence_number

IsOrdered-cons :
    (i : Installment) (is : List Installment)
    → FromNumber i.sequence_number is
    → IsOrdered number_of is
    → IsOrdered number_of (i ∷ is)
IsOrdered-cons i [] h o = tt
IsOrdered-cons i (j ∷ is) h o = (h, o)

IsOrdered-uncons :
    (i : Installment) (is : List Installment)
    → IsOrdered number_of (i ∷ is)
    → FromNumber i.sequence_number is × IsOrdered number_of is
IsOrdered-uncons i [] o = (tt, tt)
IsOrdered-uncons i (j ∷ is) (h, o) = (h, o)

served-FromNumber :
    {is : List Installment} {ls : List InstallmentAllocation} (s : Serves is ls) (n : ℕ)
    → FromNumber n is
    → FromNumber n (served s)
unfolding served apply_line
served-FromNumber done n h = tt
served-FromNumber (skip i s) n h = h
served-FromNumber (give w s) n h = h

served_first :
    (i : Installment) (l : InstallmentAllocation) (is : List Installment)
    → FromNumber i.sequence_number is
    → IsOrdered number_of is
    → IsOrdered number_of (apply_line l i ∷ is)
unfolding apply_line
served_first i l is h o = IsOrdered-cons (apply_line l i) is h o

pub served-IsOrdered :
    {is : List Installment} {ls : List InstallmentAllocation} (s : Serves is ls)
    → IsOrdered (λ (i : Installment). i.sequence_number) is
    → IsOrdered (λ (i : Installment). i.sequence_number) (served s)
unfolding served
served-IsOrdered done o = tt
served-IsOrdered (skip i {is} s) o =
    let (h, os) = IsOrdered-uncons i is o in
    IsOrdered-cons i (served s) (served-FromNumber s i.sequence_number h) (served-IsOrdered s os)
served-IsOrdered (give {i} {l} {is} w s) o =
    let (h, os) = IsOrdered-uncons i is o in
    served_first i l (served s) (served-FromNumber s i.sequence_number h) (served-IsOrdered s os)
