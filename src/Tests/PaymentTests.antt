-- ===== src/Tests/PaymentTests.antt =====
-- app/services/payments.py on a contract with two installments, the first overdue with a late fee.
use retail_credit_platform.Payments.Events.{
  about_payment, about_closure, just_if, settle_payment-events,
}
use retail_credit_platform.Payments.Exposed.{compute_exposure_lem}
use retail_credit_platform.Payments.Entries.{posted, settle_payment_posts}
use retail_credit_platform.Common.{
  ℕ, ◌+◌, ◌≡◌, ◌↔◌, ◌≤◌, refl, sym, subst, ℤ, pos, ◌+ℤ◌, ◌-ℤ◌, ◌*ℤ◌, ◌≤ℤ◌, true, none, some, List,
  [], ◌∷◌, ◌++◌, map, arith, sum_by, if◌then◌else◌, negsuc, min_ℤ, keep, not, ltb_ℤ,
}
use retail_credit_platform.Common.Rounding.{money, round_half_up}
use retail_credit_platform.Common.Result.{ok, err}
use retail_credit_platform.Common.Text.{strip}
use retail_credit_platform.Common.Sorting.{sort_by}
use retail_credit_platform.Contract.{
  LateFeeCharge, LateFeeStatus, Installment, InstallmentStatus, InstallmentContract, ContractStatus,
  charge_outstanding, sum_outstanding, late_fee_outstanding, principal_outstanding,
  profit_outstanding, charges_of, is_fully_paid, is_closed,
}
use retail_credit_platform.Contract.Receivable.{
  build_receivable, principal_of, profit_of, compute_exposure,
}
use retail_credit_platform.Allocation.{allocate}
use retail_credit_platform.Accounting.{
  Accounting, AccountingEventType, EventDraft, already_emitted, ReferencePrefix,
}
use retail_credit_platform.Closure.{is_fully_repaid, has_closure}
use retail_credit_platform.Payments.Apply.{apply_late_fee, pay_charge}
use retail_credit_platform.Payments.Charges.{apply_late_fee_lem}
use retail_credit_platform.Payments.Record.{
  PaymentSource, PaymentRequest, exceeds_outstanding, Collections, Store, record_payment,
  settle_payment, find_payment, total_outstanding, outstanding_installments, to_outstanding,
  allocation_total,
}
use retail_credit_platform.Payments.Owed.{allocate_in_full}
use retail_credit_platform.Payments.Balances.{paid_contract, paid_contract_lem}
use retail_credit_platform.Payments.Closing.{is_fully_repaid_iff}
use retail_credit_platform.Payments.Outcome.{Describes, record_payment_outcome}
use retail_credit_platform.Payments.Ends.{
  IsInOrder, Leaves, record_payment_closes, record_payment-IsInOrder,
}

-- Books that are the list of the events themselves, and a workflow that counts its calls.
abbrev pub listed : Accounting
listed = record {
  Books = List EventDraft;
  events = λ b. b;
  emit = λ d b. if already_emitted d.event_reference b then b else b ++ d ∷ [];
  events_emit = λ d b. refl;
}

abbrev pub counted : Collections
counted = record {
  Cases = ℕ;
  evaluate_promises_after_payment = λ c ps actor now n. n + 1;
  close_case_if_cleared = λ c actor n. n + 1;
  open_case_if_needed = λ c actor n. n + 1;
}

abbrev pub fee : LateFeeCharge
fee = record {
  id = 1;
  amount = pos 500;
  amount_paid = pos 100;
  amount_written_off = pos 0;
  assessed_at = 40;
  status = LateFeeStatus.assessed;
}

abbrev pub overdue_one : Installment
overdue_one = record {
  id = 11;
  sequence_number = 1;
  due_date = 30;
  principal_component = pos 10_000;
  profit_component = pos 2000;
  principal_paid = pos 0;
  profit_paid = pos 0;
  principal_written_off = pos 0;
  profit_written_off = pos 0;
  status = InstallmentStatus.overdue;
  late_fee_charges = fee ∷ [];
}

abbrev pub pending_one : Installment
pending_one = record {
  id = 12;
  sequence_number = 2;
  due_date = 60;
  principal_component = pos 10_000;
  profit_component = pos 1000;
  principal_paid = pos 0;
  profit_paid = pos 0;
  principal_written_off = pos 0;
  profit_written_off = pos 0;
  status = InstallmentStatus.pending;
  late_fee_charges = [];
}

abbrev pub sold : InstallmentContract
sold = record {
  id = 7;
  sales_order_id = 3;
  tenor_months = 2;
  total_profit = pos 3000;
  unearned_profit_balance = pos 3000;
  status = ContractStatus.active;
  installments = overdue_one ∷ pending_one ∷ [];
  closure = none;
}

abbrev pub opened : Store listed counted
opened = record {
  contract = sold;
  payments = [];
  allocations = [];
  ledger = [];
  books = [];
  cases = 0;
  next_payment = 1;
  next_allocation = 1;
  next_closure = 1;
}

abbrev pub asks : ℕ → PaymentRequest
asks cents = record {
  amount = record { coefficient = pos cents; places = 2 };
  external_reference = 112 ∷ 49 ∷ [];
  actor_id = some 5;
  source = PaymentSource.staff;
  payment_intent_id = none;
  now = 45;
}

-- One cent more than the 234.00 that are outstanding is refused.
too_much : record_payment listed counted opened (asks 23_401) ≡ err exceeds_outstanding
unfolding record_payment money round_half_up total_outstanding build_receivable principal_of
    profit_of principal_outstanding profit_outstanding sum_outstanding charges_of charge_outstanding
    sum_by ◌+ℤ◌ ◌-ℤ◌ ◌*ℤ◌ strip find_payment
too_much = refl

pub sold-IsInOrder : IsInOrder sold
unfolding principal_outstanding profit_outstanding late_fee_outstanding sum_outstanding
    charge_outstanding is_fully_paid sum_by ◌+ℤ◌ ◌-ℤ◌
sold-IsInOrder = record {
  well_formed = record {
    ordered = (omega arith, tt);
    unique = (((λ e. omega (arith, e)), tt), (tt, tt));
    charges = ((omega arith, tt), (tt, tt));
  };
  tidy = (
    record {
      principal_nonneg = omega arith;
      profit_nonneg = omega arith;
      late_fee_nonneg = omega arith;
      marked = λ e. e;
    },
    (
      record {
        principal_nonneg = omega arith;
        profit_nonneg = omega arith;
        late_fee_nonneg = omega arith;
        marked = λ e. e;
      },
      tt,
    ),
  );
}

abbrev Balance : ℤ → Type 0
Balance z = total_outstanding sold ≡ z

sold_total : Balance (pos 23_400)
unfolding total_outstanding build_receivable principal_of profit_of principal_outstanding
    profit_outstanding sum_outstanding charges_of charge_outstanding sum_by ◌+ℤ◌ ◌-ℤ◌
sold_total = refl

pub within_total : (n : ℕ) → n ≤ 23_400 → pos n ≤ℤ total_outstanding sold
within_total n h = subst (λ z. pos n ≤ℤ z) (sym sold_total) (omega arith)

apply_late_fee_lem_example :
    sum_outstanding (apply_late_fee (fee ∷ []) (pos 300)) ≡ sum_outstanding (fee ∷ []) -ℤ pos 300
unfolding sum_outstanding charge_outstanding sum_by ◌+ℤ◌ ◌-ℤ◌
apply_late_fee_lem_example =
    apply_late_fee_lem (fee ∷ []) (pos 300) (omega arith, tt) (omega arith) (omega arith)

paid_contract_lem_example :
    let c' = paid_contract sold (pos 1_000) sold-IsInOrder.well_formed in
    (total_outstanding c' ≡ total_outstanding sold -ℤ pos 1_000)
    × (sold.unearned_profit_balance -ℤ c'.unearned_profit_balance
        ≡ sum_by profit_outstanding sold.installments -ℤ sum_by profit_outstanding c'.installments)
paid_contract_lem_example =
    paid_contract_lem sold (pos 1_000) sold-IsInOrder.well_formed (omega arith)
      (within_total 1_000 (omega arith))

allocate_in_full_example :
    let plan = allocate (pos 1_000) (map to_outstanding (outstanding_installments sold)) in
    (plan.allocated_amount ≡ pos 1_000) × (plan.unallocated_amount ≡ pos 0)
allocate_in_full_example =
    allocate_in_full sold (pos 1_000) (omega arith) (within_total 1_000 (omega arith))

is_fully_repaid_iff_example : (is_fully_repaid sold ≡ true) ↔ (total_outstanding sold ≤ℤ pos 0)
is_fully_repaid_iff_example = is_fully_repaid_iff sold sold-IsInOrder.tidy refl refl

record_payment_outcome_example :
    Describes listed counted opened (asks 1_000) (record_payment listed counted opened (asks 1_000))
record_payment_outcome_example =
    record_payment_outcome listed counted opened (asks 1_000) sold-IsInOrder.well_formed

record_payment_closes_example :
    let (s', o) = settle_payment listed counted opened (asks 23_400) (money (asks 23_400).amount) in
    (record_payment listed counted opened (asks 23_400) ≡ ok (s', o))
    × ((is_closed s'.contract.status ≡ true)
        ↔ (money (asks 23_400).amount ≡ total_outstanding sold))
unfolding money round_half_up ◌*ℤ◌ strip find_payment
record_payment_closes_example =
    record_payment_closes listed counted opened (asks 23_400) refl refl refl refl sold-IsInOrder
      (omega arith) (within_total 23_400 (omega arith))

record_payment-IsInOrder_example :
    Leaves listed counted
      (λ s'. IsInOrder s'.contract)
      (record_payment listed counted opened (asks 1_000))
record_payment-IsInOrder_example =
    record_payment-IsInOrder listed counted opened (asks 1_000) sold-IsInOrder

-- A charge of 5.00 of which 3.00 are written off, and a later one of 1.00.
abbrev forgiven : LateFeeCharge
forgiven = record fee { amount_paid = pos 0; amount_written_off = pos 300; assessed_at = 10 }

abbrev later : LateFeeCharge
later = record fee { id = 2; amount = pos 100; amount_paid = pos 0 }

-- The 3.00 that are owed in all go to the first charge, beyond what it still owes.
overpays_forgiven :
    map charge_outstanding (apply_late_fee (forgiven ∷ later ∷ []) (pos 300))
    ≡ negsuc 99 ∷ pos 100 ∷ []
unfolding apply_late_fee pay_charge charge_outstanding sort_by min_ℤ ◌+ℤ◌ ◌-ℤ◌
overpays_forgiven = refl

settle_payment_posts_example :
    let (s', o) = settle_payment listed counted opened (asks 1_000) (pos 1_000) in
    (posted s'.ledger ≡ posted opened.ledger +ℤ pos 1_000)
    × (sum_by allocation_total s'.allocations
        ≡ sum_by allocation_total opened.allocations +ℤ pos 1_000)
settle_payment_posts_example =
    settle_payment_posts listed counted opened (asks 1_000) (pos 1_000) sold-IsInOrder.well_formed
      (omega arith) (within_total 1_000 (omega arith))

compute_exposure_lem_example :
    (compute_exposure 4 (sold ∷ [])).total_outstanding
    ≡ sum_by total_outstanding (keep (λ c. not (is_closed c.status)) (sold ∷ []))
compute_exposure_lem_example = compute_exposure_lem 4 (sold ∷ [])

settle_payment-events_example :
    let (s', o) = settle_payment listed counted opened (asks 23_400) (pos 23_400) in
    let lines =
      (allocate (pos 23_400) (map to_outstanding (outstanding_installments sold))).allocations in
    let profit = sum_by (λ l. l.profit) lines in
    s'.books
    ≡ []
      ++ (about_payment AccountingEventType.payment_received ReferencePrefix.payment_received 7 1 45
              (pos 23_400)
            ∷ just_if (ltb_ℤ (pos 0) profit) (
                about_payment AccountingEventType.profit_recognized
                  ReferencePrefix.profit_recognized 7 1 45 profit)
          ++ just_if (has_closure o.closure) (about_closure 7 1 45))
unfolding already_emitted
settle_payment-events_example =
    settle_payment-events listed counted opened (asks 23_400) (pos 23_400) refl refl refl
