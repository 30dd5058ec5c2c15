-- ===== src/Overdue/Assessed.antt =====
-- What an assessment of one contract does to the fees of the contract.
use retail_credit_platform.Common.{
  ℕ, ◌≡◌, refl, ap, sym, subst, ◌∙◌, ◌⊎◌, inl, inr, ℤ, pos, ◌+ℤ◌, List, [], ◌∷◌, sum_by,
  sum_by-sort_by, All, Bool-cases, Option, int_laws, parts_of_eq, +ℤ_zero,
}
use retail_credit_platform.Common.Sorting.{sort_by, sort_by-All}
use retail_credit_platform.Contract.{Installment, charges_of, is_active}
use retail_credit_platform.Accounting.{Accounting}
use retail_credit_platform.Payments.Record.{Payment, Store}
use retail_credit_platform.CollectionCases.{case_workflow}
use retail_credit_platform.Overdue.{
  OverdueConfig, Assessment, charged_total, assess_rows, start, assess_overdue,
}
use retail_credit_platform.Overdue.Capped.{
  ChargedOnce, Allowed, Totals, fees, charged_total-++, assess_rows-Totals,
}

charges_of-fees : (is : List Installment) → charged_total (charges_of is) ≡ sum_by fees is
unfolding charges_of sum_by charged_total
charges_of-fees [] = refl
charges_of-fees (i ∷ is) =
    charged_total-++ i.late_fee_charges (charges_of is) ∙ ap (λ z. fees i +ℤ z) (charges_of-fees is)

-- Where the total starts as the total of the rows, it ends so.
from_start :
    (config : OverdueConfig) (x y : ℤ) (a b : Assessment)
    → Totals config x y a b
    → a.fee_total ≡ x
    → a.total_late_fee_amount ≡ pos 0
    → (y ≡ x +ℤ b.total_late_fee_amount) × ((y ≡ x) ⊎ Allowed config y)
from_start config x y a b (p, q, r) e f =
    let same : y ≡ b.fee_total = omega (int_laws, parts_of_eq p, parts_of_eq e) in
    (
      omega (int_laws, parts_of_eq p, parts_of_eq q, parts_of_eq e, parts_of_eq f),
      elim r [
        | inl kept ↦ inl (same ∙ kept ∙ e)
        | inr allowed ↦ inr (subst (λ z. Allowed config z) (sym same) allowed)
      ],
    )

-- The fees of the rows do not depend on their order.
fees_sorted :
    (key : Installment → ℕ) (is : List Installment)
    → charged_total (charges_of (sort_by key is)) ≡ sum_by fees is
fees_sorted key is = charges_of-fees (sort_by key is) ∙ sum_by-sort_by fees key is

-- The fees of a contract, `before` and `after`.
abbrev pub Charged : OverdueConfig → (before after : List Installment) → ℤ → Type 0
Charged config before after amount =
    (charged_total (charges_of after) ≡ charged_total (charges_of before) +ℤ amount)
    × ((charged_total (charges_of after) ≡ charged_total (charges_of before))
        ⊎ Allowed config (charged_total (charges_of after)))

rows_Charged :
    (config : OverdueConfig) (key : Installment → ℕ) (before rows after : List Installment)
    (a b : Assessment)
    → sum_by fees rows ≡ sum_by fees before
    → a.fee_total ≡ charged_total (charges_of before)
    → a.total_late_fee_amount ≡ pos 0
    → Totals config (sum_by fees rows) (sum_by fees after) a b
    → Charged config before (sort_by key after) b.total_late_fee_amount
rows_Charged config key before rows after a b e f g t =
    rw (fees_sorted key after, charges_of-fees before, sym e)
      (from_start config _ _ a b t (f ∙ charges_of-fees before ∙ sym e) g)

without_rows :
    (config : OverdueConfig) (as_of now : ℕ) (a : Assessment)
    → (assess_rows config as_of now (sort_by (λ (i : Installment). i.due_date) []) a).1 ≡ a
unfolding assess_rows sort_by
without_rows config as_of now a = refl

module _ (acc : Accounting) where
  -- The assessment of a contract with at most one fee on each installment that is not waived leaves
  -- at most one; the fees of the contract that are not waived grow by just the total of the summary,
  -- and they stay as they were or end at a total that the cap allows.
  pub assess_overdue_lem :
      (config : OverdueConfig) (as_of now next_charge : ℕ) (others : ℕ → List Payment)
      (actor_id : Option ℕ) (s : Store acc case_workflow)
      → All ChargedOnce s.contract.installments
      → let r = assess_overdue acc config as_of now next_charge others actor_id s in
        All ChargedOnce r.0.contract.installments
        × Charged config s.contract.installments r.0.contract.installments r.1.total_late_fee_amount
  unfolding assess_overdue
  assess_overdue_lem config as_of now next_charge others actor_id s h =
      elim (Bool-cases (is_active s.contract.status)) [
        | inl e ↦ rw e (
            let rows = sort_by (λ i. i.due_date) s.contract.installments in
            let a = start next_charge s.contract in
            let t =
              assess_rows-Totals config as_of now rows a
                (sort_by-All _ ChargedOnce s.contract.installments h) in
            (
              sort_by-All _ ChargedOnce _ t.0,
              rows_Charged config (λ i. i.sequence_number) s.contract.installments rows _ a
                  (assess_rows config as_of now rows a).1
                  (sum_by-sort_by fees (λ i. i.due_date) s.contract.installments) refl refl t.1,
            ))
        | inr e ↦ rw (e, without_rows) (h, (sym (+ℤ_zero _), inl refl))
      ]
