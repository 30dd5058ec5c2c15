-- ===== src/Reversal/Paid.antt =====
-- What a late fee payment puts on the charges is there to be taken back.
use retail_credit_platform.Common.{
  ℕ, ◌≡◌, refl, ap, sym, ◌∙◌, ℤ, pos, pos_part, ◌+ℤ◌, ◌-ℤ◌, ◌≤ℤ◌, leb_ℤ, min_ℤ, Bool, true, +ℤ_zero,
  false, List, [], ◌∷◌, All, arith, int_laws, Bool-cases, inl, inr, sum_by, sum_by-sort_by,
}
use retail_credit_platform.Common.Sorting.{sort_by, sort_by-All}
use retail_credit_platform.Contract.{LateFeeCharge, is_waived, sum_outstanding}
use retail_credit_platform.Payments.Apply.{pay_charge, pay_charges, apply_late_fee}
use retail_credit_platform.Payments.Charges.{
  NonnegWriteOff, room, room_owed, room_waived, room_nonneg, min_ℤ-le_zero, min_ℤ-pos, left_fits,
  sum_room_nonneg, nonpos, le_of_eq, still_owed, sum_outstanding-le-room, pay_charge_lem,
}
use retail_credit_platform.Reversal.Charges.{paid_part, NoWaivedPayment}

abbrev pub NonnegPaid : LateFeeCharge → Type 0
NonnegPaid c = pos 0 ≤ℤ c.amount_paid

pay_charge-paid :
    (r : ℤ) (c : LateFeeCharge)
    → pos 0 ≤ℤ r
    → is_waived c.status ≡ false
    → (pay_charge r c).0.amount_paid ≡ c.amount_paid +ℤ min_ℤ r (room c)
unfolding pay_charge
pay_charge-paid r c h w =
    let owed = c.amount -ℤ c.amount_paid in
    let take = min_ℤ r owed in
    elim (Bool-cases (leb_ℤ take (pos 0))) [
      | inl nothing ↦
          rw (nothing, room_owed c w, min_ℤ-le_zero r owed h (ground arith))
            (sym (+ℤ_zero c.amount_paid))
      | inr something ↦ rw (something, room_owed c w, min_ℤ-pos r owed (ground arith)) refl
    ]

pay_charge-left :
    (r : ℤ) (c : LateFeeCharge)
    → pos 0 ≤ℤ r
    → is_waived c.status ≡ false
    → (pay_charge r c).1 ≡ r -ℤ min_ℤ r (room c)
pay_charge-left r c h w = (pay_charge_lem r c h w).0

add_paid : (p t : ℤ) → pos 0 ≤ℤ p → pos 0 ≤ℤ t → pos (pos_part (p +ℤ t)) ≡ pos (pos_part p) +ℤ t
unfolding ◌+ℤ◌
add_paid p t h k = ground arith

min_nonneg : (r k : ℤ) → pos 0 ≤ℤ r → pos 0 ≤ℤ k → pos 0 ≤ℤ min_ℤ r k
unfolding min_ℤ
min_nonneg r k h g = ground arith

pay_charges-paid :
    (r : ℤ) (cs : List LateFeeCharge)
    → All NonnegPaid cs
    → pos 0 ≤ℤ r
    → r ≤ℤ sum_by room cs
    → sum_by paid_part (pay_charges r cs) ≡ sum_by paid_part cs +ℤ r
unfolding pay_charges sum_by
pay_charges-paid r [] p h le = omega int_laws
pay_charges-paid r (c ∷ cs) (p, ps) h le = elim (Bool-cases (leb_ℤ r (pos 0))) [
  | inl spent ↦ rw spent (omega (int_laws, nonpos r spent))
  | inr left ↦ rw left (elim (Bool-cases (is_waived c.status)) [
    | inl w ↦ rw w (
        rw (pay_charges-paid r cs ps h (omega (int_laws, le_of_eq (room_waived c w))))
          (omega int_laws))
    | inr n ↦ rw n (
        let (nonneg, fits) = left_fits r (room c) (sum_by room cs) (sum_room_nonneg cs) le in
        rw
          (
            pay_charge-paid r c h n,
            pay_charge-left r c h n,
            add_paid c.amount_paid (min_ℤ r (room c)) p (min_nonneg r (room c) h (room_nonneg c)),
            pay_charges-paid (r -ℤ min_ℤ r (room c)) cs ps nonneg fits,
          )
          (omega int_laws))
  ])
]

pay_charge-unwaived :
    (r : ℤ) (c : LateFeeCharge)
    → is_waived c.status ≡ false
    → is_waived (pay_charge r c).0.status ≡ false
unfolding pay_charge
pay_charge-unwaived r c w =
    elim (Bool-cases (leb_ℤ (min_ℤ r (c.amount -ℤ c.amount_paid)) (pos 0))) [
      | inl nothing ↦ rw nothing w
      | inr something ↦ rw something (still_owed _ c.status w)
    ]

pay_charges-NoWaivedPayment :
    (r : ℤ) (cs : List LateFeeCharge)
    → All NoWaivedPayment cs
    → All NoWaivedPayment (pay_charges r cs)
unfolding pay_charges
pay_charges-NoWaivedPayment r [] h = tt
pay_charges-NoWaivedPayment r (c ∷ cs) (h, hs) = elim (Bool-cases (leb_ℤ r (pos 0))) [
  | inl spent ↦ rw spent (h, hs)
  | inr left ↦ rw left (elim (Bool-cases (is_waived c.status)) [
    | inl w ↦ rw (w, pay_charges) (h, pay_charges-NoWaivedPayment r cs hs)
    | inr n ↦
        rw (n, pay_charges)
          (
            (λ w. absurd (clash _ (pay_charge-unwaived r c n) w)),
            pay_charges-NoWaivedPayment (pay_charge r c).1 cs hs,
          )
  ])
]
  where
    clash : (b : Bool) → b ≡ false → b ≡ true → ⊥
    clash true e f = ground arith
    clash false e f = ground arith

-- After a late fee payment within the outstanding late fees, at least its amount is paid of the
-- charges, and none of it of a waived one.
pub apply_late_fee-paid :
    (cs : List LateFeeCharge) (amount : ℤ)
    → All NonnegPaid cs
    → All NonnegWriteOff cs
    → pos 0 ≤ℤ amount
    → amount ≤ℤ sum_outstanding cs
    → sum_by paid_part (apply_late_fee cs amount) ≡ sum_by paid_part cs +ℤ amount
unfolding apply_late_fee sum_outstanding
apply_late_fee-paid cs amount p w h le =
    let key : LateFeeCharge → ℕ = λ c. c.assessed_at in
    pay_charges-paid amount (sort_by key cs) (sort_by-All key NonnegPaid cs p) h
      (rw (sum_by-sort_by room key cs) (omega (arith, sum_outstanding-le-room cs w)))
    ∙ ap (λ s. s +ℤ amount) (sum_by-sort_by paid_part key cs)

pub apply_late_fee-NoWaivedPayment :
    (cs : List LateFeeCharge) (amount : ℤ)
    → All NoWaivedPayment cs
    → All NoWaivedPayment (apply_late_fee cs amount)
unfolding apply_late_fee
apply_late_fee-NoWaivedPayment cs amount h =
    let key : LateFeeCharge → ℕ = λ c. c.assessed_at in
    pay_charges-NoWaivedPayment amount (sort_by key cs) (sort_by-All key NoWaivedPayment cs h)
