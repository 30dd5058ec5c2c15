-- ===== src/Reversal.antt =====
-- app/services/payment_reversal.py: a settled gateway payment that is taken back.
pub mod Charges
pub mod Paid
pub mod Undone
pub mod Posted
pub mod Rows
pub mod RoundTrip
use retail_credit_platform.Common.{
  ℕ, ◌+◌, ℤ, pos, ◌+ℤ◌, ◌-ℤ◌, ltb_ℤ, leb_ℤ, eqb_ℤ, min_ℤ, ◌==◌, ◌&&◌, Bool, true, false, not,
  Option, none, some, List, [], ◌∷◌, ◌++◌, keep, length, if◌then◌else◌,
}
use retail_credit_platform.Common.Result.{Result, ok, err}
use retail_credit_platform.Common.Text.{Text, text_eq}
use retail_credit_platform.Common.Sorting.{sort_desc}
use retail_credit_platform.Contract.{
  LateFeeCharge, LateFeeStatus, Installment, InstallmentStatus, InstallmentContract, is_fully_paid,
  has_any_payment,
}
use retail_credit_platform.Contract.Receivable.{PaymentReconciliationStatus}
use retail_credit_platform.Ledger.{
  LedgerEntry, LedgerEntryType, LedgerRelatedAction, ReferenceType, record_entry,
}
use retail_credit_platform.Accounting.{
  Accounting, EventDraft, AccountingEventType, ReferencePrefix, SourceTable,
}
use retail_credit_platform.Payments.Record.{
  Payment, PaymentStatus, PaymentSource, PaymentAllocation, Collections, Store, find_payment,
}
use retail_credit_platform.Gateway.{PaymentIntent, PaymentIntentStatus}

abbrev pub is_reversed : PaymentStatus → Bool
is_reversed PaymentStatus.reversed = true
is_reversed _ = false

abbrev pub is_gateway : PaymentSource → Bool
is_gateway PaymentSource.gateway = true
is_gateway PaymentSource.staff = false

abbrev pub is_settled_charge : LateFeeStatus → Bool
is_settled_charge LateFeeStatus.paid = true
is_settled_charge _ = false

-- One round of the loop of `_reverse_late_fee`: the charge, and what remains.
unfoldable pub unpay_charge : ℤ → LateFeeCharge → LateFeeCharge × ℤ
unpay_charge remaining c =
    let take = min_ℤ remaining c.amount_paid in
    let paid = c.amount_paid -ℤ take in
    (
      record c {
        amount_paid = paid;
        status =
            if is_settled_charge c.status && ltb_ℤ paid c.amount
            then LateFeeStatus.assessed
            else c.status;
      },
      remaining -ℤ take,
    )

-- The loop, from the charge assessed last; charges of which nothing is paid are passed over.
unfoldable pub unpay_charges : ℤ → List LateFeeCharge → List LateFeeCharge
unpay_charges remaining [] = []
unpay_charges remaining (c ∷ cs) =
    let here = unpay_charge remaining c in
    if leb_ℤ remaining (pos 0)
    then c ∷ cs
    else if ltb_ℤ (pos 0) c.amount_paid
    then here.0 ∷ unpay_charges here.1 cs
    else c ∷ unpay_charges remaining cs

unfoldable pub reverse_late_fee : List LateFeeCharge → ℤ → List LateFeeCharge
unfolding unpay_charges
reverse_late_fee charges amount = unpay_charges amount (sort_desc (λ c. c.assessed_at) charges)

unfoldable pub status_after_reversal : Installment → InstallmentStatus
status_after_reversal i =
    if is_fully_paid i
    then InstallmentStatus.paid
    else if has_any_payment i
    then InstallmentStatus.partially_paid
    else InstallmentStatus.pending

-- The balances of an installment after a line is taken back.
unfoldable pub debit_line : PaymentAllocation → Installment → Installment
debit_line line i = record i {
  late_fee_charges =
      if ltb_ℤ (pos 0) line.late_fee_amount
      then reverse_late_fee i.late_fee_charges line.late_fee_amount
      else i.late_fee_charges;
  profit_paid =
      if ltb_ℤ (pos 0) line.profit_amount
      then i.profit_paid -ℤ line.profit_amount
      else i.profit_paid;
  principal_paid =
      if ltb_ℤ (pos 0) line.principal_amount
      then i.principal_paid -ℤ line.principal_amount
      else i.principal_paid;
}

unfoldable pub undo_line : PaymentAllocation → Installment → Installment
unfolding debit_line status_after_reversal
undo_line line i =
    let owing = debit_line line i in record owing { status = status_after_reversal owing }

unfoldable pub undo_to : PaymentAllocation → List Installment → List Installment
unfolding undo_line
undo_to line [] = []
undo_to line (i ∷ is) =
    (if i.id == line.installment_id then undo_line line i else i) ∷ undo_to line is

unfoldable pub undo_all : List PaymentAllocation → List Installment → List Installment
unfolding undo_to
undo_all [] is = is
undo_all (line ∷ lines) is = undo_all lines (undo_to line is)

unfoldable pub unrecognise : List PaymentAllocation → ℤ → ℤ
unrecognise [] balance = balance
unrecognise (line ∷ lines) balance =
    unrecognise lines
      (if ltb_ℤ (pos 0) line.profit_amount then balance +ℤ line.profit_amount else balance)

-- The allocations of the original payment that no other reverses yet.
unfoldable pub is_open_line : (payment_id : ℕ) → PaymentAllocation → Bool
is_open_line payment_id a =
    a.payment_id == payment_id && elim a.reversed_by_allocation_id [ none ↦ true | some _ ↦ false ]

-- The compensating rows, numbered from `next_id`.
unfoldable pub compensating :
    (payment_id next_id : ℕ) → List PaymentAllocation → List PaymentAllocation
compensating payment_id next_id [] = []
compensating payment_id next_id (line ∷ lines) =
    record {
      id = next_id;
      payment_id = payment_id;
      contract_id = line.contract_id;
      installment_id = line.installment_id;
      late_fee_amount = pos 0 -ℤ line.late_fee_amount;
      profit_amount = pos 0 -ℤ line.profit_amount;
      principal_amount = pos 0 -ℤ line.principal_amount;
      reversed_by_allocation_id = none;
    }
    ∷ compensating payment_id (next_id + 1) lines

-- Each open line of the payment is marked with the number of its compensating row.
unfoldable pub mark_reversed :
    (payment_id next_id : ℕ) → List PaymentAllocation → List PaymentAllocation
unfolding is_open_line
mark_reversed payment_id next_id [] = []
mark_reversed payment_id next_id (a ∷ rest) =
    let later = mark_reversed payment_id (next_id + 1) rest in
    let same = mark_reversed payment_id next_id rest in
    if is_open_line payment_id a
    then record a { reversed_by_allocation_id = some next_id } ∷ later
    else a ∷ same

module _ (contract_id payment_id : ℕ) (created_by : Option ℕ) where
  unfoldable pub record_reversed : LedgerEntryType → ℤ → List LedgerEntry → List LedgerEntry
  record_reversed entry_type amount ledger =
      if not (eqb_ℤ amount (pos 0))
      then record_entry
          (record {
            contract_id = contract_id;
            entry_type = entry_type;
            amount = amount;
            related_action = LedgerRelatedAction.reversal;
            reference_type = ReferenceType.payment;
            reference_id = payment_id;
            created_by = created_by;
          })
          ledger
      else ledger

  unfoldable pub record_reversals : List PaymentAllocation → List LedgerEntry → List LedgerEntry
  unfolding record_reversed
  record_reversals [] ledger = ledger
  record_reversals (line ∷ lines) ledger = record_reversals lines (
      record_reversed LedgerEntryType.principal_paid (pos 0 -ℤ line.principal_amount) (
        record_reversed LedgerEntryType.profit_recognized (pos 0 -ℤ line.profit_amount)
          (record_reversed LedgerEntryType.late_fee_paid (pos 0 -ℤ line.late_fee_amount) ledger)))

-- `_ACCOUNTING_EVENT_BY_STATUS.get(final_status, payment_reversed)`
abbrev pub reversal_event_type : PaymentIntentStatus → AccountingEventType
reversal_event_type PaymentIntentStatus.refunded = AccountingEventType.refund_completed
reversal_event_type _ = AccountingEventType.payment_reversed

-- `f"{reference}-REV"`, and the test for it.
abbrev pub rev_suffix : Text
rev_suffix = 45 ∷ 82 ∷ 69 ∷ 86 ∷ []

unfoldable pub ends_in_rev : Text → Bool
ends_in_rev [] = false
ends_in_rev (c ∷ cs) = if text_eq (c ∷ cs) rev_suffix then true else ends_in_rev cs

abbrev pub same_intent : ℕ → Option ℕ → Bool
same_intent id none = false
same_intent id (some n) = n == id

unfoldable pub is_settled_by : PaymentIntent → Payment → Bool
is_settled_by intent p =
    same_intent intent.id p.payment_intent_id && is_gateway p.source && not (is_reversed p.status)

unfoldable pub is_reversal_of : PaymentIntent → Payment → Bool
unfolding ends_in_rev
is_reversal_of intent p =
    same_intent intent.id p.payment_intent_id
    && is_reversed p.status
    && ends_in_rev p.external_reference

pub data ReversalError : Type 0 where
  nothing_to_reverse multiple_results reference_taken : ReversalError

-- `scalar_one_or_none`
abbrev pub one_or_none : List Payment → Result ReversalError (Option Payment)
one_or_none [] = ok none
one_or_none (p ∷ []) = ok (some p)
one_or_none (p ∷ q ∷ ps) = err multiple_results

-- `original.status = reversed`, on the row of the payment.
unfoldable pub set_reversed : (payment_id : ℕ) → List Payment → List Payment
set_reversed payment_id [] = []
set_reversed payment_id (p ∷ ps) =
    (if p.id == payment_id then record p { status = PaymentStatus.reversed } else p)
    ∷ set_reversed payment_id ps

module _ (acc : Accounting) (col : Collections) where
  abbrev pub reversal_reference : Payment → Text
  reversal_reference original = original.external_reference ++ rev_suffix

  unfoldable pub reversal_payment : Store acc col → PaymentIntent → Payment → (now : ℕ) → Payment
  reversal_payment s intent original now = record {
    id = s.next_payment;
    contract_id = original.contract_id;
    amount = original.amount;
    external_reference = reversal_reference original;
    received_at = now;
    status = PaymentStatus.reversed;
    reconciliation_status = PaymentReconciliationStatus.unreconciled;
    allocated_amount = original.allocated_amount;
    unallocated_amount = pos 0;
    source = PaymentSource.gateway;
    payment_intent_id = some intent.id;
  }

  abbrev pub reversal_event :
      InstallmentContract
      → PaymentIntentStatus
      → (reversal_id : ℕ) → Payment
      → (now : ℕ) → EventDraft
  reversal_event contract final_status reversal_id original now = record {
    event_type = reversal_event_type final_status;
    event_reference = record { prefix = ReferencePrefix.gateway_reversal; number = reversal_id };
    contract_id = contract.id;
    amount = original.amount;
    event_date = now;
    source_table = SourceTable.payment;
    source_id = original.id;
  }

  -- What follows once the payment to take back is found.
  unfoldable pub reverse_payment :
      Store acc col
      → PaymentIntent
      → PaymentIntentStatus
      → (actor_id now : ℕ) → Payment
      → Store acc col × Payment
  unfolding undo_all unrecognise compensating mark_reversed record_reversals set_reversed
      reversal_payment
  reverse_payment s intent final_status actor_id now original =
      let lines = keep (is_open_line original.id) s.allocations in
      let reversal = reversal_payment s intent original now in
      let contract = record s.contract {
        installments = undo_all lines s.contract.installments;
        unearned_profit_balance = unrecognise lines s.contract.unearned_profit_balance;
      } in
      (
        record s {
          contract = contract;
          payments = set_reversed original.id (s.payments ++ reversal ∷ []);
          allocations =
              mark_reversed original.id s.next_allocation s.allocations
              ++ compensating reversal.id s.next_allocation lines;
          ledger = record_reversals s.contract.id reversal.id (some actor_id) lines s.ledger;
          books = acc.emit (reversal_event contract final_status reversal.id original now) s.books;
          cases = col.open_case_if_needed contract (some actor_id) s.cases;
          next_payment = s.next_payment + 1;
          next_allocation = s.next_allocation + length lines;
        },
        reversal,
      )

  -- The contract of the store is the intent's.
  unfoldable pub reverse_settled_payment :
      Store acc col
      → PaymentIntent
      → PaymentIntentStatus
      → (actor_id now : ℕ) → Result ReversalError (Store acc col × Payment)
  unfolding is_settled_by is_reversal_of reverse_payment
  reverse_settled_payment s intent final_status actor_id now =
      elim (one_or_none (keep (is_settled_by intent) s.payments)) [
        | err e ↦ err e
        | ok none ↦ elim (one_or_none (keep (is_reversal_of intent) s.payments)) [
          | err e ↦ err e
          | ok none ↦ err nothing_to_reverse
          | ok (some existing) ↦ ok (s, existing)
        ]
        | ok (some original) ↦ elim (find_payment (reversal_reference original) s.payments) [
          | some taken ↦ err reference_taken
          | none ↦ ok (reverse_payment s intent final_status actor_id now original)
        ]
      ]
