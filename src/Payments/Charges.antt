-- ===== src/Payments/Charges.antt =====
-- A late fee payment within what is owed lowers the outstanding late fees by just that amount.
use retail_credit_platform.Common.{
  ◌≡◌, refl, ap, sym, ◌∙◌, ℤ, pos, pos_part, ◌+ℤ◌, ◌-ℤ◌, ◌≤ℤ◌, ◌<ℤ◌, leb_ℤ, min_ℤ, Bool, true,
  false, List, [], ◌∷◌, All, arith, int_laws, Bool-cases, inl, inr, sum_by, sum_by-sort_by,
  if◌then◌else◌, -ℤ_zero, min_ℤ-cases,
}
use retail_credit_platform.Common.Sorting.{sort_by}
use retail_credit_platform.Contract.{
  LateFeeCharge, LateFeeStatus, is_waived, charge_outstanding, sum_outstanding,
}
use retail_credit_platform.Payments.Apply.{pay_charge, pay_charges, apply_late_fee}

-- What a charge can still take, by the loop's reckoning.
abbrev pub room : LateFeeCharge → ℤ
room c = elim (is_waived c.status) [
  | true ↦ pos 0
  | false ↦ pos (pos_part (c.amount -ℤ c.amount_paid))
]

-- Nothing negative is written off.
abbrev pub NonnegWriteOff : LateFeeCharge → Type 0
NonnegWriteOff c = pos 0 ≤ℤ c.amount_written_off

outstanding_waived : (c : LateFeeCharge) → is_waived c.status ≡ true → charge_outstanding c ≡ pos 0
unfolding charge_outstanding
outstanding_waived c w = rw (w, charge_outstanding)

pub outstanding_owed :
    (c : LateFeeCharge)
    → is_waived c.status ≡ false
    → charge_outstanding c ≡ c.amount -ℤ c.amount_paid -ℤ c.amount_written_off
unfolding charge_outstanding
outstanding_owed c w = rw (w, charge_outstanding)

pub room_waived : (c : LateFeeCharge) → is_waived c.status ≡ true → room c ≡ pos 0
room_waived c w = rw (w, room)

pub room_owed :
    (c : LateFeeCharge)
    → is_waived c.status ≡ false
    → room c ≡ pos (pos_part (c.amount -ℤ c.amount_paid))
room_owed c w = rw (w, room)

outstanding-le-room : (c : LateFeeCharge) → NonnegWriteOff c → charge_outstanding c ≤ℤ room c
outstanding-le-room c h = elim (Bool-cases (is_waived c.status)) [
  | inl w ↦ rw (outstanding_waived c w, room_waived c w) (omega arith)
  | inr n ↦ rw (outstanding_owed c n, room_owed c n) (omega int_laws)
]

pub sum_outstanding-le-room :
    (cs : List LateFeeCharge) → All NonnegWriteOff cs → sum_outstanding cs ≤ℤ sum_by room cs
unfolding sum_outstanding sum_by
sum_outstanding-le-room [] h = omega arith
sum_outstanding-le-room (c ∷ cs) (h, hs) =
    omega (int_laws, outstanding-le-room c h, sum_outstanding-le-room cs hs)

pub still_owed :
    (b : Bool) (st : LateFeeStatus)
    → is_waived st ≡ false
    → is_waived (if b then LateFeeStatus.paid else st) ≡ false
still_owed true st h = refl
still_owed false st h = h

outstanding_paid :
    (c : LateFeeCharge) (b : Bool) (take : ℤ)
    → is_waived c.status ≡ false
    → charge_outstanding (record c {
      amount_paid = c.amount_paid +ℤ take;
      status = if b then LateFeeStatus.paid else c.status;
    })
      ≡ charge_outstanding c -ℤ take
outstanding_paid c b take w =
    let paid : LateFeeCharge = record c {
      amount_paid = c.amount_paid +ℤ take;
      status = if b then LateFeeStatus.paid else c.status;
    } in
    rw (outstanding_owed paid (still_owed b c.status w), outstanding_owed c w) (omega int_laws)

pub min_ℤ-le_zero : (r z : ℤ) → pos 0 ≤ℤ r → min_ℤ r z ≤ℤ pos 0 → min_ℤ r (pos (pos_part z)) ≡ pos 0
unfolding min_ℤ
min_ℤ-le_zero r z h k = ground arith

pub min_ℤ-pos : (r z : ℤ) → pos 0 <ℤ min_ℤ r z → min_ℤ r (pos (pos_part z)) ≡ min_ℤ r z
unfolding min_ℤ
min_ℤ-pos r z k = ground arith

-- One charge takes the smaller of what remains and what it has room for.
pub pay_charge_lem :
    (r : ℤ) (c : LateFeeCharge)
    → pos 0 ≤ℤ r
    → is_waived c.status ≡ false
    → let (c', left) = pay_charge r c in
      (left ≡ r -ℤ min_ℤ r (room c))
      × (charge_outstanding c' ≡ charge_outstanding c -ℤ min_ℤ r (room c))
unfolding pay_charge
pay_charge_lem r c h w =
    let owed = c.amount -ℤ c.amount_paid in
    let take = min_ℤ r owed in
    elim (Bool-cases (leb_ℤ take (pos 0))) [
      | inl none ↦
          rw (none, room_owed c w, min_ℤ-le_zero r owed h (ground arith))
            (sym (-ℤ_zero r), sym (-ℤ_zero (charge_outstanding c)))
      | inr some ↦
          rw (some, room_owed c w, min_ℤ-pos r owed (ground arith))
            (refl, outstanding_paid c (leb_ℤ c.amount (c.amount_paid +ℤ take)) take w)
    ]

pub nonpos : (r : ℤ) → leb_ℤ r (pos 0) ≡ true → r ≤ℤ pos 0
nonpos r h = ground arith

pub le_of_eq : {a b : ℤ} → a ≡ b → a ≤ℤ b
le_of_eq e = rw e (omega arith)

pub room_nonneg : (c : LateFeeCharge) → pos 0 ≤ℤ room c
room_nonneg c = elim (Bool-cases (is_waived c.status)) [
  | inl w ↦ rw (room_waived c w) (omega arith)
  | inr n ↦ rw (room_owed c n) (omega arith)
]

pub sum_room_nonneg : (cs : List LateFeeCharge) → pos 0 ≤ℤ sum_by room cs
unfolding sum_by
sum_room_nonneg [] = omega arith
sum_room_nonneg (c ∷ cs) = omega (int_laws, room_nonneg c, sum_room_nonneg cs)

-- What is left after one charge lies within the room of the others.
pub left_fits :
    (r k s : ℤ) → pos 0 ≤ℤ s → r ≤ℤ k +ℤ s → (pos 0 ≤ℤ r -ℤ min_ℤ r k) × (r -ℤ min_ℤ r k ≤ℤ s)
left_fits r k s hs le = elim (min_ℤ-cases r k) [
  | inl (e, h) ↦ rw e (omega int_laws)
  | inr (e, h) ↦ rw e (omega int_laws)
]

pay_charges_lem :
    (r : ℤ) (cs : List LateFeeCharge)
    → pos 0 ≤ℤ r
    → r ≤ℤ sum_by room cs
    → sum_outstanding (pay_charges r cs) ≡ sum_outstanding cs -ℤ r
unfolding pay_charges sum_outstanding sum_by
pay_charges_lem r [] h le = omega int_laws
pay_charges_lem r (c ∷ cs) h le = elim (Bool-cases (leb_ℤ r (pos 0))) [
  | inl none ↦ rw none (omega (int_laws, nonpos r none))
  | inr some ↦ rw some (elim (Bool-cases (is_waived c.status)) [
    | inl w ↦ rw w (
        rw (pay_charges_lem r cs h (omega (int_laws, le_of_eq (room_waived c w)))) (omega int_laws))
    | inr n ↦ rw n (
        let (e, o) = pay_charge_lem r c h n in
        let (nonneg, fits) = left_fits r (room c) (sum_by room cs) (sum_room_nonneg cs) le in
        rw (e, o, pay_charges_lem (r -ℤ min_ℤ r (room c)) cs nonneg fits) (omega int_laws))
  ])
]

-- A late fee payment that is not negative and within the outstanding late fees of an installment
-- lowers them by exactly what is paid.
pub apply_late_fee_lem :
    (cs : List LateFeeCharge) (amount : ℤ)
    → All NonnegWriteOff cs
    → pos 0 ≤ℤ amount
    → amount ≤ℤ sum_outstanding cs
    → sum_outstanding (apply_late_fee cs amount) ≡ sum_outstanding cs -ℤ amount
unfolding apply_late_fee sum_outstanding
apply_late_fee_lem cs amount h nonneg le =
    let sorted = sort_by (λ (c : LateFeeCharge). c.assessed_at) cs in
    pay_charges_lem amount sorted nonneg (
      rw (sum_by-sort_by room (λ c. c.assessed_at) cs)
        (omega (arith, sum_outstanding-le-room cs h)))
    ∙ ap (λ s. s -ℤ amount) (sum_by-sort_by charge_outstanding (λ c. c.assessed_at) cs)
