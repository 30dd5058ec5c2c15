-- ===== src/Overdue/Capped.antt =====
-- The fees that an assessment charges: one for each installment, and never above the cap of the
-- contract.
use retail_credit_platform.Common.{
  ℕ, ◌≡◌, refl, sym, ◌∙◌, ◌⊎◌, inl, inr, ℤ, pos, ◌+ℤ◌, ltb_ℤ, leb, true, false, ◌-◌, Bool-cases,
  List, [], ◌∷◌, ◌++◌, keep, any, sum_by, sum_by-append, length, All, if◌then◌else◌, arith,
  int_laws, parts_of_eq, subst, +ℤ_zero,
}
use retail_credit_platform.Contract.{LateFeeCharge, Installment}
use retail_credit_platform.Overdue.{
  OverdueConfig, Assessment, fee_amount, is_charged, charged_total, above_cap, is_row, goes_overdue,
  mark_overdue, new_charge, charge_fee, assess_row, assess_rows,
}

-- The fees of an installment that are not waived.
abbrev pub charged : Installment → List LateFeeCharge
charged i = keep is_charged i.late_fee_charges

-- At most one fee of an installment is not waived.
abbrev pub ChargedOnce : Installment → Type 0
ChargedOnce i = leb (length (charged i)) 1 ≡ true

-- A total that the cap allows: there is no cap, or the total is not above it.
abbrev pub Allowed : OverdueConfig → ℤ → Type 0
Allowed config total =
    (ltb_ℤ (pos 0) config.late_fee_max_per_contract.coefficient ≡ false)
    ⊎ (above_cap config.late_fee_max_per_contract total ≡ false)

none_charged : (cs : List LateFeeCharge) → any is_charged cs ≡ false → keep is_charged cs ≡ []
none_charged [] h = refl
none_charged (c ∷ cs) h = elim (Bool-cases (is_charged c)) [
  | inl e ↦ ground (arith, e, h)
  | inr e ↦ rw e (none_charged cs (ground (arith, e, h)))
]

keep-++ :
    (cs ds : List LateFeeCharge)
    → keep is_charged (cs ++ ds) ≡ keep is_charged cs ++ keep is_charged ds
keep-++ [] ds = refl
keep-++ (c ∷ cs) ds = elim (Bool-cases (is_charged c)) [
  | inl e ↦ rw (e, keep-++ cs ds) refl
  | inr e ↦ rw (e, keep-++ cs ds) refl
]

pub charged_total-++ :
    (cs ds : List LateFeeCharge) → charged_total (cs ++ ds) ≡ charged_total cs +ℤ charged_total ds
unfolding charged_total
charged_total-++ cs ds =
    rw keep-++
      (sum_by-append (λ (c : LateFeeCharge). c.amount) (keep is_charged cs) (keep is_charged ds))

new_total : (id now : ℕ) (fee : ℤ) → charged_total (new_charge id now fee ∷ []) ≡ fee
unfolding charged_total sum_by
new_total id now fee = +ℤ_zero fee

-- What a row keeps or gets.
abbrev pub Row : OverdueConfig → ℕ → Installment → Assessment → Installment × Assessment → Type 0
Row config now i a (j, b) =
    ((j.late_fee_charges ≡ i.late_fee_charges)
      × (b.fee_total ≡ a.fee_total)
      × (b.total_late_fee_amount ≡ a.total_late_fee_amount))
    ⊎ ((any is_charged i.late_fee_charges ≡ false)
        × (j.late_fee_charges
            ≡ i.late_fee_charges
              ++ new_charge a.next_charge now (fee_amount i config.late_fee_rate) ∷ [])
        × (b.fee_total ≡ a.fee_total +ℤ fee_amount i config.late_fee_rate)
        × (b.total_late_fee_amount ≡ a.total_late_fee_amount +ℤ fee_amount i config.late_fee_rate)
        × Allowed config b.fee_total)

module _ (config : OverdueConfig) (as_of now : ℕ) where
  charge_fee-Row :
      (i : Installment) (a : Assessment) → Row config now i a (charge_fee config as_of now i a)
  unfolding charge_fee above_cap
  charge_fee-Row i a = elim (Bool-cases (leb (as_of - i.due_date) config.late_fee_grace_days)) [
    | inl e ↦ rw e (inl (refl, refl, refl))
    | inr e ↦ rw e (elim (Bool-cases (any is_charged i.late_fee_charges)) [
      | inl f ↦ rw f (inl (refl, refl, refl))
      | inr f ↦
          rw f (elim (Bool-cases (ltb_ℤ (pos 0) config.late_fee_max_per_contract.coefficient)) [
            | inl g ↦
                rw g
                  (elim (Bool-cases (
                    above_cap config.late_fee_max_per_contract
                      (a.fee_total +ℤ fee_amount i config.late_fee_rate))) [
                        | inl h ↦ rw h (inl (refl, refl, refl))
                        | inr h ↦ rw h (inr (refl, refl, refl, refl, inr h))
                      ])
            | inr g ↦ rw g (inr (refl, refl, refl, refl, inl refl))
          ])
    ])
  ]

  assess_row-Row :
      (i : Installment) (a : Assessment) → Row config now i a (assess_row config as_of now i a)
  unfolding assess_row mark_overdue
  assess_row-Row i a = elim (Bool-cases (goes_overdue i)) [
    | inl e ↦ rw e (charge_fee-Row _ _)
    | inr e ↦ rw e (charge_fee-Row _ _)
  ]

abbrev pub fees : Installment → ℤ
fees i = charged_total i.late_fee_charges

-- The total of the fees moves as the fees of the rows and as the amount that the summary reports, and
-- it ends where it was or where the cap allows.
abbrev pub Totals : OverdueConfig → (before after : ℤ) → Assessment → Assessment → Type 0
Totals config before after a b =
    (after +ℤ a.fee_total ≡ before +ℤ b.fee_total)
    × (b.fee_total +ℤ a.total_late_fee_amount ≡ a.fee_total +ℤ b.total_late_fee_amount)
    × ((b.fee_total ≡ a.fee_total) ⊎ Allowed config b.fee_total)

one_fee :
    (cs : List LateFeeCharge) (id now : ℕ) (fee : ℤ)
    → any is_charged cs ≡ false
    → keep is_charged (cs ++ new_charge id now fee ∷ []) ≡ new_charge id now fee ∷ []
one_fee cs id now fee h = keep-++ cs _ ∙ rw (none_charged cs h) refl

module _ (config : OverdueConfig) (as_of now : ℕ) where
  Row-Totals :
      (i : Installment) (a : Assessment) (r : Installment × Assessment)
      → ChargedOnce i
      → Row config now i a r
      → ChargedOnce r.0 × Totals config (fees i) (fees r.0) a r.1
  Row-Totals i a (j, b) once (inl (cs, total, amount)) =
      (rw cs once, (rw (cs, total) refl, rw (total, amount) refl, inl total))
  Row-Totals i a (j, b) once (inr (free, cs, total, amount, allowed)) = (
    rw (cs, one_fee i.late_fee_charges _ _ _ free) refl,
    (
      rw (cs, total, charged_total-++, new_total) (omega int_laws),
      rw (total, amount) (omega int_laws),
      inr allowed,
    ),
  )

  either_Row :
      (i : Installment) (a : Assessment)
      → Row config now i a (if is_row as_of i then assess_row config as_of now i a else (i, a))
  either_Row i a = elim (Bool-cases (is_row as_of i)) [
    | inl e ↦ rw e (assess_row-Row config as_of now i a)
    | inr e ↦ rw e (inl (refl, refl, refl))
  ]

  joined :
      (x x' y y' : ℤ) (a b c : Assessment)
      → Totals config x x' a b
      → Totals config y y' b c
      → Totals config (x +ℤ y) (x' +ℤ y') a c
  joined x x' y y' a b c (p, q, r) (p', q', r') = (
    omega (int_laws, parts_of_eq p, parts_of_eq p'),
    omega (int_laws, parts_of_eq q, parts_of_eq q'),
    elim r' [
      | inl e ↦ elim r [
        | inl d ↦ inl (e ∙ d)
        | inr ok ↦ inr (subst (λ z. Allowed config z) (sym e) ok)
      ]
      | inr ok ↦ inr ok
    ],
  )

  pub assess_rows-Totals :
      (is : List Installment) (a : Assessment)
      → All ChargedOnce is
      → All ChargedOnce (assess_rows config as_of now is a).0
        × Totals config
            (sum_by fees is)
            (sum_by fees (assess_rows config as_of now is a).0)
            a
            (assess_rows config as_of now is a).1
  unfolding assess_rows sum_by
  assess_rows-Totals [] a h = (tt, (refl, refl, inl refl))
  assess_rows-Totals (i ∷ is) a (once, h) =
      let here : Installment × Assessment =
        if is_row as_of i then assess_row config as_of now i a else (i, a) in
      let row = Row-Totals i a here once (either_Row i a) in
      let rest_of = assess_rows config as_of now is here.1 in
      let rest = assess_rows-Totals is here.1 h in
      (
        (row.0, rest.0),
        joined (fees i) (fees here.0) (sum_by fees is) _ a here.1 rest_of.1 row.1 rest.1,
      )
