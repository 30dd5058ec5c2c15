-- ===== src/Payments/Entries.antt =====
-- The ledger entries and the allocation rows of a payment add up to it.
use retail_credit_platform.Common.{
  ℕ, ◌+◌, ◌≡◌, refl, ap, ◌∙◌, ℤ, pos, ◌+ℤ◌, ◌≤ℤ◌, ltb_ℤ, ltb_ℤ→ge, Option, List, [], ◌∷◌, All,
  int_laws, Bool-cases, inl, inr, sum_by, sum_by-append, map,
}
use retail_credit_platform.Contract.{Installment}
use retail_credit_platform.Allocation.{InstallmentAllocation, line_total}
use retail_credit_platform.Allocation.Laws.{total_of, allocate_conserves}
use retail_credit_platform.Accounting.{Accounting}
use retail_credit_platform.Ledger.{LedgerEntry, LedgerEntryType, record_entry}
use retail_credit_platform.Payments.Record.{
  Collections, PaymentRequest, Store, allocation_total, to_allocations, record_amount, record_lines,
  settle_payment, total_outstanding, to_outstanding, outstanding_installments,
}
use retail_credit_platform.Payments.Serves.{Serves, done, skip, give}
use retail_credit_platform.Payments.Owed.{allocate_in_full}
use retail_credit_platform.Payments.Balances.{IsWellFormed, lines_of, lines_of-Serves}

-- No component of a line is below zero.
NonnegLine : InstallmentAllocation → Type 0
NonnegLine l = (pos 0 ≤ℤ l.late_fee) × (pos 0 ≤ℤ l.profit) × (pos 0 ≤ℤ l.principal)

Serves-NonnegLine :
    {is : List Installment} {ls : List InstallmentAllocation} → Serves is ls → All NonnegLine ls
unfolding NonnegLine
Serves-NonnegLine done = tt
Serves-NonnegLine (skip i s) = Serves-NonnegLine s
Serves-NonnegLine (give w s) =
    ((w.fee_nonneg, w.profit_nonneg, w.principal_nonneg), Serves-NonnegLine s)

abbrev pub posted : List LedgerEntry → ℤ
posted = sum_by (λ (e : LedgerEntry). e.amount)

module _ (contract_id payment_id : ℕ) (created_by : Option ℕ) where
  record_amount-posted :
      (kind : LedgerEntryType) (z : ℤ) (ledger : List LedgerEntry)
      → pos 0 ≤ℤ z
      → posted (record_amount contract_id payment_id created_by kind z ledger) ≡ posted ledger +ℤ z
  unfolding record_amount record_entry sum_by
  record_amount-posted kind z ledger h = elim (Bool-cases (ltb_ℤ (pos 0) z)) [
    | inl above ↦
        rw above
          (sum_by-append (λ (e : LedgerEntry). e.amount) ledger _ ∙ one_more (posted ledger) z)
    | inr not_above ↦ rw not_above (omega (int_laws, ltb_ℤ→ge (pos 0) z not_above, h))
  ]
    where
      one_more : (a z : ℤ) → a +ℤ (z +ℤ pos 0) ≡ a +ℤ z
      one_more a z = omega int_laws

  record_lines-posted :
      (ls : List InstallmentAllocation) (ledger : List LedgerEntry)
      → All NonnegLine ls
      → posted (record_lines contract_id payment_id created_by ls ledger)
        ≡ posted ledger +ℤ total_of ls
  unfolding record_lines sum_by line_total NonnegLine
  record_lines-posted [] ledger h = omega int_laws
  record_lines-posted (l ∷ ls) ledger ((fee, profit, principal), hs) =
      rw
        (
          record_lines-posted ls _ hs,
          record_amount-posted LedgerEntryType.principal_paid l.principal _ principal,
          record_amount-posted LedgerEntryType.profit_recognized l.profit _ profit,
          record_amount-posted LedgerEntryType.late_fee_paid l.late_fee ledger fee,
        )
        (omega int_laws)

pub to_allocations-sum :
    (payment_id contract_id next_id : ℕ) (ls : List InstallmentAllocation)
    → sum_by allocation_total (to_allocations payment_id contract_id next_id ls) ≡ total_of ls
unfolding to_allocations sum_by allocation_total line_total
to_allocations-sum payment_id contract_id next_id [] = refl
to_allocations-sum payment_id contract_id next_id (l ∷ ls) =
    ap (λ z. l.late_fee +ℤ l.profit +ℤ l.principal +ℤ z)
      (to_allocations-sum payment_id contract_id (next_id + 1) ls)

-- The ledger entries that a payment within the total outstanding of a well-formed contract adds come
-- to its amount, and so do the allocation rows that it adds.
pub settle_payment_posts :
    (acc : Accounting) (col : Collections) (s : Store acc col) (r : PaymentRequest) (amount : ℤ)
    → IsWellFormed s.contract
    → pos 0 ≤ℤ amount
    → amount ≤ℤ total_outstanding s.contract
    → let (s', o) = settle_payment acc col s r amount in
      (posted s'.ledger ≡ posted s.ledger +ℤ amount)
      × (sum_by allocation_total s'.allocations ≡ sum_by allocation_total s.allocations +ℤ amount)
unfolding settle_payment
settle_payment_posts acc col s r amount w nonneg within =
    let ls = lines_of s.contract amount in
    let os = map to_outstanding (outstanding_installments s.contract) in
    let all : total_of ls ≡ amount =
      (allocate_conserves amount os).0 ∙ (allocate_in_full s.contract amount nonneg within).0 in
    (
      record_lines-posted s.contract.id s.next_payment r.actor_id ls s.ledger
            (Serves-NonnegLine (lines_of-Serves s.contract amount w))
          ∙ ap (λ z. posted s.ledger +ℤ z) all,
      sum_by-append allocation_total s.allocations _
          ∙ ap (λ z. sum_by allocation_total s.allocations +ℤ z)
              (to_allocations-sum s.next_payment s.contract.id s.next_allocation ls ∙ all),
    )
