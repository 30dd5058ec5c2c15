-- ===== src/Reversal/RoundTrip.antt =====
-- A gateway payment that is recorded and then taken back.
use retail_credit_platform.Common.{
  ℕ, ◌<◌, ◌≡◌, refl, sym, ap, ◌∙◌, ℤ, pos, ◌+ℤ◌, ◌-ℤ◌, ◌≤ℤ◌, ltb_ℤ, ◌==◌, Bool, true, false, not,
  none, some, List, [], ◌∷◌, ◌++◌, All, keep, length, map, arith, int_laws, Bool-cases, inl, inr,
  if◌then◌else◌, sum_by, sum_by-append,
}
use retail_credit_platform.Common.Result.{ok}
use retail_credit_platform.Contract.{
  Installment, InstallmentContract, principal_outstanding, profit_outstanding, late_fee_outstanding,
}
use retail_credit_platform.Accounting.{Accounting}
use retail_credit_platform.Allocation.{AllocationResult, allocate}
use retail_credit_platform.Allocation.Laws.{allocate_conserves}
use retail_credit_platform.Gateway.{PaymentIntent, PaymentIntentStatus}
use retail_credit_platform.Payments.Record.{
  Payment, PaymentSource, PaymentStatus, PaymentAllocation, Collections, Store, PaymentRequest,
  total_outstanding, find_payment, allocation_total, settle_payment, new_payment, emit_payment,
  profit_recognised, to_outstanding, outstanding_installments,
}
use retail_credit_platform.Payments.Balances.{
  IsWellFormed, lines_of, paid_contract, paid_contract_lem, profit_falls,
}
use retail_credit_platform.Payments.Outcome.{closed_total}
use retail_credit_platform.Payments.Owed.{total_outstanding-eq-sums, allocate_in_full}
use retail_credit_platform.Payments.Entries.{posted, settle_payment_posts, to_allocations-sum}
use retail_credit_platform.Reversal.{
  undo_all, unrecognise, mark_reversed, is_settled_by, is_reversed, is_open_line, rev_suffix,
  reverse_payment, reverse_settled_payment,
}
use retail_credit_platform.Reversal.Undone.{unrecognise-sum}
use retail_credit_platform.Reversal.Posted.{
  rows_total, record_reversals-posted, compensating-total, mark_reversed-total, earlier_rows,
  new_rows,
}
use retail_credit_platform.Reversal.Rows.{
  IsPayable, paid_rows, rows-Aligned, column, back_principal, back_profit, back_late_fee,
}

earned_back : (u v p q l m : ℤ) → u -ℤ v ≡ p -ℤ q → q ≡ p -ℤ l → m ≡ l → v +ℤ m ≡ u
earned_back u v p q l m e f g =
    let gap : u -ℤ v ≡ l = e ∙ ap (λ z. p -ℤ z) f ∙ part p l in rw (g, sym gap) (omega int_laws)
  where
    part : (p l : ℤ) → p -ℤ (p -ℤ l) ≡ l
    part p l = omega int_laws

taken_back : (a b z r : ℤ) → a ≡ b +ℤ z → r ≡ z → a -ℤ r ≡ b
taken_back a b z r e f = rw (e, f) (omega int_laws)

both_back : (x y a b r z : ℤ) → x ≡ a → y ≡ pos 0 -ℤ r → a ≡ b +ℤ z → r ≡ z → x +ℤ y ≡ b
both_back x y a b r z e f g h = rw (e, f, g, h) (omega int_laws)

module _ (acc : Accounting) (col : Collections) where
  -- The balances, the ledger and the allocation rows come to what they came to before.
  pub record Restores (s s' : Store acc col) : Type 0 where
    pub total : total_outstanding s'.contract ≡ total_outstanding s.contract
    pub unearned : s'.contract.unearned_profit_balance ≡ s.contract.unearned_profit_balance
    pub entries : posted s'.ledger ≡ posted s.ledger
    pub lines : rows_total s'.allocations ≡ rows_total s.allocations

  -- The number of a row is that of the payment it belongs to or of an earlier one.
  abbrev pub EarlierRows : Store acc col → Type 0
  EarlierRows s = All (λ r. r.payment_id < s.next_payment) s.allocations

  module _ (s : Store acc col) (r : PaymentRequest) (amount : ℤ) (w : IsWellFormed s.contract)
      (p : All IsPayable s.contract.installments) (fresh : EarlierRows s) (nonneg : pos 0 ≤ℤ amount)
      (within : amount ≤ℤ total_outstanding s.contract) where
    abbrev after : Store acc col
    after = (settle_payment acc col s r amount).0

    abbrev its_rows : List PaymentAllocation
    its_rows = paid_rows s.contract amount w p s.next_payment s.next_allocation

    open_rows : keep (is_open_line s.next_payment) after.allocations ≡ its_rows
    unfolding settle_payment paid_rows
    open_rows =
        earlier_rows s.next_payment s.allocations _ fresh
        ∙ new_rows s.next_payment s.contract.id s.next_allocation (lines_of s.contract amount)

    rows_come_to : rows_total its_rows ≡ amount
    unfolding paid_rows
    rows_come_to =
        to_allocations-sum s.next_payment s.contract.id s.next_allocation
          (lines_of s.contract amount)
        ∙ (allocate_conserves amount (map to_outstanding (outstanding_installments s.contract))).0
        ∙ (allocate_in_full s.contract amount nonneg within).0

    same_contract :
        (after.contract.installments ≡ (paid_contract s.contract amount w).installments)
        × (after.contract.unearned_profit_balance
            ≡ (paid_contract s.contract amount w).unearned_profit_balance)
    unfolding settle_payment paid_contract
    same_contract =
        let plan = allocate amount (map to_outstanding (outstanding_installments s.contract)) in
        let books =
          emit_payment acc col (new_payment acc col s r amount plan)
            (profit_recognised (lines_of s.contract amount)) s.books in
        let (total, unearned, lines) =
          closed_total acc col s.next_closure r.now (paid_contract s.contract amount w) books in
        (lines, unearned)

    abbrev paid : InstallmentContract
    paid = paid_contract s.contract amount w

    sums_back :
        (rs : List PaymentAllocation) (is : List Installment)
        → rs ≡ its_rows
        → is ≡ paid.installments
        → sum_by principal_outstanding (undo_all rs is)
            +ℤ sum_by profit_outstanding (undo_all rs is)
            +ℤ sum_by late_fee_outstanding (undo_all rs is)
          ≡ total_outstanding s.contract
    sums_back rs is e f =
        let n = s.next_payment in
        let m = s.next_allocation in
        rw
          (
            e,
            f,
            back_principal s.contract amount w p n m,
            back_profit s.contract amount w p n m,
            back_late_fee s.contract amount w p n m,
          )
          (sym (total_outstanding-eq-sums s.contract))

    unearned_back :
        (rs : List PaymentAllocation) (z : ℤ)
        → rs ≡ its_rows
        → z ≡ paid.unearned_profit_balance
        → unrecognise rs z ≡ s.contract.unearned_profit_balance
    unfolding paid_rows
    unearned_back rs z e f =
        let n = s.next_payment in
        let m = s.next_allocation in
        rw (e, f)
          (unrecognise-sum paid.installments its_rows paid.unearned_profit_balance
              (rows-Aligned s.contract amount w p n m)
            ∙ earned_back _ _ _ _ _ _ (paid_contract_lem s.contract amount w nonneg within).1
                (profit_falls s.contract amount w)
                (column n s.contract.id (λ r. r.profit_amount) (λ l. l.profit) (λ k l. refl) m
                  (lines_of s.contract amount)))

    pub reverse_payment-Restores :
        (intent : PaymentIntent) (final_status : PaymentIntentStatus) (actor_id now : ℕ)
        (original : Payment)
        → original.id ≡ s.next_payment
        → Restores s (reverse_payment acc col after intent final_status actor_id now original).0
    unfolding reverse_payment
    reverse_payment-Restores intent final_status actor_id now original number =
        let s' = (reverse_payment acc col after intent final_status actor_id now original).0 in
        let lines = keep (is_open_line original.id) after.allocations in
        let same_lines : lines ≡ its_rows =
          ap (λ n. keep (is_open_line n) after.allocations) number ∙ open_rows in
        let come_to : rows_total lines ≡ amount = ap rows_total same_lines ∙ rows_come_to in
        let (entries, rows) = settle_payment_posts acc col s r amount w nonneg within in
        record {
          total =
              total_outstanding-eq-sums s'.contract
              ∙ sums_back lines after.contract.installments same_lines same_contract.0;
          unearned =
              unearned_back lines after.contract.unearned_profit_balance same_lines same_contract.1;
          entries =
              record_reversals-posted after.contract.id after.next_payment (some actor_id) lines
                after.ledger
              ∙ taken_back _ _ _ _ entries come_to;
          lines =
              sum_by-append allocation_total
                (mark_reversed original.id after.next_allocation after.allocations) _
              ∙ both_back _ _ _ _ _ amount
                  (mark_reversed-total original.id after.next_allocation after.allocations)
                  (compensating-total after.next_payment after.next_allocation lines) rows come_to;
        }

not_empty {ℓ} : {A : Type ℓ} (x : A) (xs : List A) → x ∷ xs ≡ [] → ⊥
not_empty x xs e = omega (arith, ap length e)

keep_last {ℓ} :
    {A : Type ℓ} (q : A → Bool) (xs : List A) (x : A)
    → keep q xs ≡ []
    → q x ≡ true
    → keep q (xs ++ x ∷ []) ≡ x ∷ []
keep_last q [] x h e = rw e refl
keep_last q (y ∷ ys) x h e = elim (Bool-cases (q y)) [
  | inl kept ↦ absurd (not_empty y (keep q ys) (rw kept at h))
  | inr dropped ↦ rw dropped (keep_last q ys x (rw dropped at h) e)
]

never_reversed :
    (b : Bool)
    → not (is_reversed (if b then PaymentStatus.overpaid else PaymentStatus.applied)) ≡ true
never_reversed true = refl
never_reversed false = refl

same_number : (n : ℕ) → n == n ≡ true
same_number n = ground arith

is_the_payment :
    (acc : Accounting) (col : Collections) (s : Store acc col) (r : PaymentRequest) (amount : ℤ)
    (plan : AllocationResult) (intent : PaymentIntent)
    → r.source ≡ PaymentSource.gateway
    → r.payment_intent_id ≡ some intent.id
    → is_settled_by intent (new_payment acc col s r amount plan) ≡ true
unfolding is_settled_by new_payment
is_the_payment acc col s r amount plan intent e f =
    rw (f, e, same_number intent.id) (never_reversed (ltb_ℤ (pos 0) plan.unallocated_amount))

-- A gateway payment within the total outstanding of a well-formed contract, of whose late fee charges
-- nothing negative was paid and nothing of a waived one: when it is recorded for an intent that has no
-- other payment, and no payment has its reversal's reference, taking it back right after it succeeds
-- and brings the total outstanding, the unearned profit, the ledger's sum and the allocated sum back to
-- what they were.
pub settle_then_reverse :
    (acc : Accounting) (col : Collections) (s : Store acc col) (r : PaymentRequest) (amount : ℤ)
    (intent : PaymentIntent) (final_status : PaymentIntentStatus) (actor_id now : ℕ)
    → IsWellFormed s.contract
    → All IsPayable s.contract.installments
    → EarlierRows acc col s
    → pos 0 ≤ℤ amount
    → amount ≤ℤ total_outstanding s.contract
    → r.source ≡ PaymentSource.gateway
    → r.payment_intent_id ≡ some intent.id
    → keep (is_settled_by intent) s.payments ≡ []
    → let (s', o) = settle_payment acc col s r amount in
      find_payment (o.payment.external_reference ++ rev_suffix) s'.payments ≡ none
      → (x : Store acc col × Payment) × (reverse_settled_payment acc col s' intent final_status
            actor_id now
          ≡ ok x)
        × Restores acc col s x.0
unfolding reverse_settled_payment settle_payment
settle_then_reverse acc col s r amount intent final_status actor_id now w p fresh nonneg within
      source of_intent alone unused =
    let plan = allocate amount (map to_outstanding (outstanding_installments s.contract)) in
    let payment = new_payment acc col s r amount plan in
    let found =
      keep_last (is_settled_by intent) s.payments payment alone
        (is_the_payment acc col s r amount plan intent source of_intent) in
    (
      reverse_payment acc col (settle_payment acc col s r amount).0 intent final_status actor_id now
          payment,
      rw (found, reverse_settled_payment) (rw (unused, reverse_settled_payment) refl),
      reverse_payment-Restores acc col s r amount w p fresh nonneg within intent final_status
          actor_id now payment refl,
    )
