-- ===== src/Reversal/Posted.antt =====
-- What a reversal posts: ledger entries and compensating rows that come to the reversed amounts, below
-- zero.
use retail_credit_platform.Common.{
  ℕ, ◌+◌, ◌<◌, ◌≡◌, refl, ◌∙◌, ℤ, pos, ◌+ℤ◌, ◌-ℤ◌, eqb_ℤ, eqb_ℤ→eq, ◌==◌, true, false, Option, List,
  [], ◌∷◌, ◌++◌, All, keep, arith, int_laws, Bool-cases, inl, inr, sum_by, sum_by-append,
}
use retail_credit_platform.Ledger.{LedgerEntry, LedgerEntryType, record_entry}
use retail_credit_platform.Allocation.{InstallmentAllocation}
use retail_credit_platform.Payments.Record.{PaymentAllocation, allocation_total, to_allocations}
use retail_credit_platform.Payments.Entries.{posted}
use retail_credit_platform.Reversal.{
  compensating, mark_reversed, is_open_line, record_reversed, record_reversals,
}

abbrev pub rows_total : List PaymentAllocation → ℤ
rows_total = sum_by allocation_total

one_more : (a z : ℤ) → a +ℤ (z +ℤ pos 0) ≡ a +ℤ z
one_more a z = omega int_laws

zero_more : (a z : ℤ) → z ≡ pos 0 → a ≡ a +ℤ z
zero_more a z e = rw e (omega int_laws)

module _ (contract_id payment_id : ℕ) (created_by : Option ℕ) where
  record_reversed-posted :
      (kind : LedgerEntryType) (z : ℤ) (ledger : List LedgerEntry)
      → posted (record_reversed contract_id payment_id created_by kind z ledger)
        ≡ posted ledger +ℤ z
  unfolding record_reversed record_entry sum_by
  record_reversed-posted kind z ledger = elim (Bool-cases (eqb_ℤ z (pos 0))) [
    | inl nothing ↦ rw nothing (zero_more (posted ledger) z (eqb_ℤ→eq z (pos 0) nothing))
    | inr something ↦
        rw something
          (sum_by-append (λ (e : LedgerEntry). e.amount) ledger _ ∙ one_more (posted ledger) z)
  ]

  pub record_reversals-posted :
      (rs : List PaymentAllocation) (ledger : List LedgerEntry)
      → posted (record_reversals contract_id payment_id created_by rs ledger)
        ≡ posted ledger -ℤ rows_total rs
  unfolding record_reversals sum_by allocation_total
  record_reversals-posted [] ledger = omega int_laws
  record_reversals-posted (r ∷ rs) ledger =
      rw
        (
          record_reversals-posted rs _,
          record_reversed-posted LedgerEntryType.principal_paid (pos 0 -ℤ r.principal_amount) _,
          record_reversed-posted LedgerEntryType.profit_recognized (pos 0 -ℤ r.profit_amount) _,
          record_reversed-posted LedgerEntryType.late_fee_paid (pos 0 -ℤ r.late_fee_amount) ledger,
        )
        (omega int_laws)

pub compensating-total :
    (payment_id n : ℕ) (rs : List PaymentAllocation)
    → rows_total (compensating payment_id n rs) ≡ pos 0 -ℤ rows_total rs
unfolding compensating sum_by allocation_total
compensating-total payment_id n [] = omega int_laws
compensating-total payment_id n (r ∷ rs) =
    rw (compensating-total payment_id (n + 1) rs) (omega int_laws)

pub mark_reversed-total :
    (payment_id n : ℕ) (rs : List PaymentAllocation)
    → rows_total (mark_reversed payment_id n rs) ≡ rows_total rs
unfolding mark_reversed sum_by allocation_total
mark_reversed-total payment_id n [] = refl
mark_reversed-total payment_id n (r ∷ rs) = elim (Bool-cases (is_open_line payment_id r)) [
  | inl marked ↦ rw marked (rw (mark_reversed-total payment_id (n + 1) rs) refl)
  | inr other ↦ rw other (rw (mark_reversed-total payment_id n rs) refl)
]

-- Rows of earlier payments are not lines of this one, and all rows of a new payment are.
pub earlier_rows :
    (payment_id : ℕ) (rs new : List PaymentAllocation)
    → All (λ r. r.payment_id < payment_id) rs
    → keep (is_open_line payment_id) (rs ++ new) ≡ keep (is_open_line payment_id) new
unfolding is_open_line
earlier_rows payment_id [] new h = refl
earlier_rows payment_id (r ∷ rs) new (h, hs) =
    rw (apart r.payment_id payment_id h) (earlier_rows payment_id rs new hs)
  where
    apart : (a b : ℕ) → a < b → a == b ≡ false
    apart a b h = ground arith

same_number : (n : ℕ) → n == n ≡ true
same_number n = ground arith

pub new_rows :
    (payment_id contract_id n : ℕ) (ls : List InstallmentAllocation)
    → keep (is_open_line payment_id) (to_allocations payment_id contract_id n ls)
      ≡ to_allocations payment_id contract_id n ls
unfolding is_open_line to_allocations
new_rows payment_id contract_id n [] = refl
new_rows payment_id contract_id n (l ∷ ls) =
    rw (same_number payment_id) (rw (new_rows payment_id contract_id (n + 1) ls) refl)
