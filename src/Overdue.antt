-- ===== src/Overdue.antt =====
-- app/services/overdue.py: the assessment of what is overdue, on the rows of one active contract. Times
-- of day are left out: a due date and the day of the assessment are day numbers.
pub mod Assessed
pub mod Capped
use retail_credit_platform.Common.{
  ℕ, ◌+◌, ◌-◌, ◌^◌, ◌==◌, ℤ, pos, ◌+ℤ◌, ◌*ℤ◌, ltb_ℤ, leb, ltb, Bool, true, false, not, ◌&&◌, ◌||◌,
  Option, none, some, List, [], ◌∷◌, ◌++◌, keep, any, sum_by, if◌then◌else◌,
}
use retail_credit_platform.Common.Rounding.{Decimal, money_times}
use retail_credit_platform.Common.Sorting.{sort_by}
use retail_credit_platform.Contract.{
  LateFeeCharge, LateFeeStatus, Installment, InstallmentStatus, InstallmentContract, is_active,
  is_paid, is_overdue, is_waived, is_fully_paid, charges_of,
}
use retail_credit_platform.Accounting.{
  Accounting, EventDraft, AccountingEventType, ReferencePrefix, SourceTable,
}
use retail_credit_platform.Payments.Record.{Payment, Store}
use retail_credit_platform.CollectionCases.{
  CaseBook, case_workflow, get_open_case, open_case_if_needed, evaluate_overdue_promises,
}

pub record OverdueConfig : Type 0 where
  pub late_fee_grace_days : ℕ
  pub late_fee_rate : Decimal
  pub late_fee_max_per_contract : Decimal

-- What the loop over the rows carries: the total of the fees that are not waived, the number of the
-- next charge, the counts of the summary, and the new charges.
pub record Assessment : Type 0 where
  pub fee_total : ℤ
  pub next_charge : ℕ
  pub installments_marked_overdue : ℕ
  pub late_fees_assessed : ℕ
  pub late_fees_skipped_contract_cap : ℕ
  pub total_late_fee_amount : ℤ
  pub new_charges : List LateFeeCharge

unfoldable pub fee_amount : Installment → Decimal → ℤ
fee_amount i rate = money_times (i.principal_component +ℤ i.profit_component) rate

abbrev pub is_charged : LateFeeCharge → Bool
is_charged c = not (is_waived c.status)

-- The non-waived fees of a list of charges.
unfoldable pub charged_total : List LateFeeCharge → ℤ
charged_total cs = sum_by (λ c. c.amount) (keep is_charged cs)

-- `amount > max_per_contract`
unfoldable pub above_cap : Decimal → ℤ → Bool
above_cap cap amount = ltb_ℤ (cap.coefficient *ℤ pos 100) (amount *ℤ pos (10 ^ cap.places))

-- The rows that the query selects.
unfoldable pub is_row : (as_of : ℕ) → Installment → Bool
is_row as_of i = ltb i.due_date as_of && not (is_paid i.status)

abbrev pub goes_overdue : Installment → Bool
goes_overdue i = not (is_fully_paid i) && not (is_overdue i.status)

-- The first part of a round: the status.
unfoldable pub mark_overdue : Installment → Assessment → Installment × Assessment
mark_overdue i a =
    if goes_overdue i
    then (
      record i { status = InstallmentStatus.overdue },
      record a { installments_marked_overdue = a.installments_marked_overdue + 1 },
    )
    else (i, a)

abbrev pub new_charge : (id now : ℕ) → ℤ → LateFeeCharge
new_charge id now fee = record {
  id = id;
  amount = fee;
  amount_paid = pos 0;
  amount_written_off = pos 0;
  assessed_at = now;
  status = LateFeeStatus.assessed;
}

module _ (config : OverdueConfig) (as_of now : ℕ) where
  -- The second part: the fee.
  unfoldable pub charge_fee : Installment → Assessment → Installment × Assessment
  unfolding fee_amount above_cap
  charge_fee i a =
      let fee = fee_amount i config.late_fee_rate in
      let cap = config.late_fee_max_per_contract in
      if leb (as_of - i.due_date) config.late_fee_grace_days || any is_charged i.late_fee_charges
      then (i, a)
      else if ltb_ℤ (pos 0) cap.coefficient && above_cap cap (a.fee_total +ℤ fee)
      then (i, record a { late_fees_skipped_contract_cap = a.late_fees_skipped_contract_cap + 1 })
      else let charge = new_charge a.next_charge now fee in
        (
          record i { late_fee_charges = i.late_fee_charges ++ charge ∷ [] },
          record a {
            fee_total = a.fee_total +ℤ fee;
            next_charge = a.next_charge + 1;
            late_fees_assessed = a.late_fees_assessed + 1;
            total_late_fee_amount = a.total_late_fee_amount +ℤ fee;
            new_charges = a.new_charges ++ charge ∷ [];
          },
        )

  unfoldable pub assess_row : Installment → Assessment → Installment × Assessment
  unfolding mark_overdue charge_fee
  assess_row i a = charge_fee (mark_overdue i a).0 (mark_overdue i a).1

  -- The loop over the installments in the order of their due dates; only the rows change.
  unfoldable pub assess_rows : List Installment → Assessment → List Installment × Assessment
  unfolding is_row assess_row
  assess_rows [] a = ([], a)
  assess_rows (i ∷ is) a =
      let here = if is_row as_of i then assess_row i a else (i, a) in
      let rest = assess_rows is here.1 in (here.0 ∷ rest.0, rest.1)

abbrev pub fee_event : InstallmentContract → LateFeeCharge → EventDraft
fee_event contract charge = record {
  event_type = AccountingEventType.late_fee_charged;
  event_reference = record { prefix = ReferencePrefix.late_fee_charged; number = charge.id };
  contract_id = contract.id;
  amount = charge.amount;
  event_date = charge.assessed_at;
  source_table = SourceTable.late_fee_charge;
  source_id = charge.id;
}

pub record OverdueSummary : Type 0 where
  pub installments_marked_overdue : ℕ
  pub late_fees_assessed : ℕ
  pub late_fees_skipped_contract_cap : ℕ
  pub total_late_fee_amount : ℤ
  pub collection_cases_opened : ℕ
  pub promises_broken : ℕ

abbrev pub start : (next_charge : ℕ) → InstallmentContract → Assessment
start next_charge contract = record {
  fee_total = charged_total (charges_of contract.installments);
  next_charge = next_charge;
  installments_marked_overdue = 0;
  late_fees_assessed = 0;
  late_fees_skipped_contract_cap = 0;
  total_late_fee_amount = pos 0;
  new_charges = [];
}

-- The case that is opened when an installment went overdue, and whether it was.
unfoldable pub open_for : (went_overdue : Bool) → (contract_id : ℕ) → CaseBook → CaseBook × ℕ
unfolding get_open_case open_case_if_needed
open_for false contract_id b = (b, 0)
open_for true contract_id b = (
  open_case_if_needed contract_id b,
  elim (get_open_case contract_id b.cases) [ none ↦ 1 | some case ↦ 0 ],
)

module _ (acc : Accounting) where
  unfoldable pub emit_fees : InstallmentContract → List LateFeeCharge → acc.Books → acc.Books
  emit_fees contract [] books = books
  emit_fees contract (c ∷ cs) books = emit_fees contract cs (acc.emit (fee_event contract c) books)

  -- `assess_overdue` on one contract, with the number of the next charge and the payments of the other
  -- contracts, which the check of the overdue promises reads. The installments of a
  -- contract are kept in the order of their sequence numbers.
  unfoldable pub assess_overdue :
      OverdueConfig
      → (as_of now next_charge : ℕ) → (others : ℕ → List Payment) → Option ℕ
      → Store acc case_workflow
      → Store acc case_workflow × OverdueSummary
  unfolding assess_rows emit_fees open_for evaluate_overdue_promises case_workflow
  assess_overdue config as_of now next_charge others actor_id s =
      let payments_of : ℕ → List Payment =
        λ id. if id == s.contract.id then s.payments else others id in
      let rows = if is_active s.contract.status then s.contract.installments else [] in
      let assessed =
        assess_rows config as_of now (sort_by (λ i. i.due_date) rows)
          (start next_charge s.contract) in
      let contract = record s.contract {
        installments =
            if is_active s.contract.status
            then sort_by (λ i. i.sequence_number) assessed.0
            else s.contract.installments;
      } in
      let opened =
        open_for (any (λ i. is_row as_of i && goes_overdue i) rows) s.contract.id s.cases in
      let broken = evaluate_overdue_promises as_of payments_of actor_id now opened.0 in
      (
        record s {
          contract = contract;
          books = emit_fees contract assessed.1.new_charges s.books;
          cases = broken.0;
        },
        record {
          installments_marked_overdue = assessed.1.installments_marked_overdue;
          late_fees_assessed = assessed.1.late_fees_assessed;
          late_fees_skipped_contract_cap = assessed.1.late_fees_skipped_contract_cap;
          total_late_fee_amount = assessed.1.total_late_fee_amount;
          collection_cases_opened = opened.1;
          promises_broken = broken.1;
        },
      )
