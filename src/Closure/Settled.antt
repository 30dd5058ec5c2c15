-- ===== src/Closure/Settled.antt =====
-- Early settlement, cancellation and return: what each leaves on the contract and posts to the ledger.
use retail_credit_platform.Common.{
  ℕ, ◌≡◌, refl, ◌∙◌, ap, ℤ, pos, ◌+ℤ◌, ◌-ℤ◌, ◌≤ℤ◌, ltb_ℤ, ltb_ℤ→ge, true, Option, List, [], ◌∷◌,
  map, All, int_laws, Bool-cases, inl, inr, sum_by, sum_by-append, if◌then◌else◌,
}
use retail_credit_platform.Contract.{
  LateFeeCharge, LateFeeStatus, Installment, InstallmentContract, is_waived, is_paid,
  charge_outstanding, sum_outstanding, principal_outstanding, profit_outstanding,
  late_fee_outstanding,
}
use retail_credit_platform.Ledger.{LedgerEntry, LedgerEntryType, LedgerRelatedAction, record_entry}
use retail_credit_platform.Payments.Record.{total_outstanding}
use retail_credit_platform.Payments.Owed.{total_outstanding-eq-sums}
use retail_credit_platform.Payments.Entries.{posted}
use retail_credit_platform.Closure.Endings.{
  settle_charge, settle_installment, close_out_schedule, record_parts, closure_entry,
}

-- What was written off of an installment, without its waived charges.
abbrev pub charge_written_off : LateFeeCharge → ℤ
charge_written_off c = if is_waived c.status then pos 0 else c.amount_written_off

abbrev pub late_fee_written_off : Installment → ℤ
late_fee_written_off i = sum_by charge_written_off i.late_fee_charges

abbrev pub written_off : InstallmentContract → ℤ
written_off c =
    sum_by (λ i. i.principal_written_off) c.installments
    +ℤ sum_by (λ i. i.profit_written_off) c.installments
    +ℤ sum_by late_fee_written_off c.installments

settle_charge-outstanding :
    (c : LateFeeCharge) → charge_outstanding (settle_charge c) ≡ pos 0 -ℤ charge_written_off c
unfolding settle_charge charge_outstanding
settle_charge-outstanding c = by_status c.status
  where
    by_status :
        (st : LateFeeStatus)
        → let d : LateFeeCharge = record c { status = st } in
          charge_outstanding (settle_charge d) ≡ pos 0 -ℤ charge_written_off d
    by_status LateFeeStatus.assessed = omega int_laws
    by_status LateFeeStatus.waived = omega int_laws
    by_status LateFeeStatus.paid = omega int_laws
    by_status LateFeeStatus.written_off = omega int_laws

negated_sum : (a b x y : ℤ) → x ≡ pos 0 -ℤ a → y ≡ pos 0 -ℤ b → x +ℤ y ≡ pos 0 -ℤ (a +ℤ b)
negated_sum a b x y e f = rw (e, f) (omega int_laws)

settle_charges-outstanding :
    (cs : List LateFeeCharge)
    → sum_outstanding (map settle_charge cs) ≡ pos 0 -ℤ sum_by charge_written_off cs
unfolding sum_outstanding sum_by
settle_charges-outstanding [] = omega int_laws
settle_charges-outstanding (c ∷ cs) =
    negated_sum (charge_written_off c) (sum_by charge_written_off cs) _ _
      (settle_charge-outstanding c) (settle_charges-outstanding cs)

negate_all :
    (f g : Installment → ℤ)
    → ((i : Installment) → f (settle_installment i) ≡ pos 0 -ℤ g i)
    → (is : List Installment) → sum_by f (map settle_installment is) ≡ pos 0 -ℤ sum_by g is
unfolding sum_by
negate_all f g h [] = omega int_laws
negate_all f g h (i ∷ is) = negated_sum (g i) (sum_by g is) _ _ (h i) (negate_all f g h is)

settled_principal :
    (i : Installment)
    → principal_outstanding (settle_installment i) ≡ pos 0 -ℤ i.principal_written_off
unfolding settle_installment principal_outstanding
settled_principal i = omega int_laws

settled_profit :
    (i : Installment) → profit_outstanding (settle_installment i) ≡ pos 0 -ℤ i.profit_written_off
unfolding settle_installment profit_outstanding
settled_profit i = omega int_laws

settled_late_fee :
    (i : Installment)
    → late_fee_outstanding (settle_installment i) ≡ pos 0 -ℤ late_fee_written_off i
unfolding settle_installment late_fee_outstanding
settled_late_fee i = settle_charges-outstanding i.late_fee_charges

-- Closing out the schedule of a contract leaves exactly what was written off, below zero, as the total
-- outstanding, and no unearned profit; so nothing is outstanding when nothing was written off.
pub close_out_schedule-outstanding :
    (c : InstallmentContract)
    → (total_outstanding (close_out_schedule c) ≡ pos 0 -ℤ written_off c)
      × ((close_out_schedule c).unearned_profit_balance ≡ pos 0)
      × All (λ i. is_paid i.status ≡ true) (close_out_schedule c).installments
unfolding close_out_schedule
close_out_schedule-outstanding c = (
  total_outstanding-eq-sums (close_out_schedule c)
      ∙ negated_sum _ _ _ _
          (negated_sum _ _ _ _
            (negate_all principal_outstanding (λ i. i.principal_written_off) settled_principal
              c.installments)
            (negate_all profit_outstanding (λ i. i.profit_written_off) settled_profit
              c.installments))
          (negate_all late_fee_outstanding late_fee_written_off settled_late_fee c.installments),
  refl,
  all_paid c.installments,
)
  where
    all_paid :
        (is : List Installment) → All (λ i. is_paid i.status ≡ true) (map settle_installment is)
    all_paid [] = tt
    all_paid (i ∷ is) = (refl, all_paid is)

abbrev pub NonnegPart : LedgerEntryType × ℤ → Type 0
NonnegPart (entry_type, amount) = pos 0 ≤ℤ amount

abbrev pub parts_total : List (LedgerEntryType × ℤ) → ℤ
parts_total = sum_by (λ (p : LedgerEntryType × ℤ). p.1)

-- Parts that are not negative are posted in full.
pub record_parts-posted :
    (contract_id closure_id : ℕ) (by : Option ℕ) (action : LedgerRelatedAction)
    (parts : List (LedgerEntryType × ℤ)) (ledger : List LedgerEntry)
    → All NonnegPart parts
    → posted (record_parts contract_id closure_id by action parts ledger)
      ≡ posted ledger +ℤ parts_total parts
unfolding record_parts record_entry sum_by
record_parts-posted contract_id closure_id by action [] ledger h = omega int_laws
record_parts-posted contract_id closure_id by action ((kind, z) ∷ parts) ledger (h, hs) =
    record_parts-posted contract_id closure_id by action parts _ hs
    ∙ ap (λ w. w +ℤ parts_total parts) here
    ∙ regroup (posted ledger) z (parts_total parts)
  where
    one_more : (a z : ℤ) → a +ℤ (z +ℤ pos 0) ≡ a +ℤ z
    one_more a z = omega int_laws

    regroup : (a b c : ℤ) → a +ℤ b +ℤ c ≡ a +ℤ (b +ℤ c)
    regroup a b c = omega int_laws

    here :
        posted (
          if ltb_ℤ (pos 0) z
          then record_entry (closure_entry contract_id closure_id by action kind z) ledger
          else ledger)
        ≡ posted ledger +ℤ z
    here = elim (Bool-cases (ltb_ℤ (pos 0) z)) [
      | inl above ↦
          rw above
            (sum_by-append (λ (e : LedgerEntry). e.amount) ledger _ ∙ one_more (posted ledger) z)
      | inr not_above ↦ rw not_above (omega (int_laws, ltb_ℤ→ge (pos 0) z not_above, h))
    ]
