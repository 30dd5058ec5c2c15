-- ===== src/Payments/Events.antt =====
-- The accounting events that a payment leaves in the books.
use mathlib.Core.List.{append_assoc}
use retail_credit_platform.Common.{
  ℕ, ◌≡◌, refl, ◌∙◌, ap, ℤ, pos, ltb_ℤ, Bool, true, false, List, [], ◌∷◌, ◌++◌, any, map, sum_by,
  arith, Bool-cases, inl, inr,
}
use retail_credit_platform.Contract.{InstallmentContract}
use retail_credit_platform.Accounting.{
  Accounting, AccountingEventType, EventDraft, EventReference, ReferencePrefix, SourceTable,
  already_emitted, same_reference,
}
use retail_credit_platform.Closure.{
  close_if_fully_repaid, closure_event, is_fully_repaid, has_closure,
}
use retail_credit_platform.Allocation.{allocate}
use retail_credit_platform.Payments.Apply.{apply_all, recognise}
use retail_credit_platform.Payments.Record.{
  to_outstanding, outstanding_installments, profit_recognised, new_payment, Collections, Payment,
  PaymentRequest, Store, payment_event, emit_payment, settle_payment,
}

abbrev pub reference_of : ReferencePrefix → ℕ → EventReference
reference_of prefix number = record { prefix = prefix; number = number }

-- An event of a payment: `amount` under the payment's number.
abbrev pub about_payment :
    AccountingEventType → ReferencePrefix → (contract_id payment_id now : ℕ) → ℤ → EventDraft
about_payment event_type prefix contract_id payment_id now amount = record {
  event_type = event_type;
  event_reference = reference_of prefix payment_id;
  contract_id = contract_id;
  amount = amount;
  event_date = now;
  source_table = SourceTable.payment;
  source_id = payment_id;
}

-- The event of a closure.
abbrev pub about_closure : (contract_id closure_id now : ℕ) → EventDraft
about_closure contract_id closure_id now = record {
  event_type = AccountingEventType.contract_closed;
  event_reference = reference_of ReferencePrefix.normal_closure closure_id;
  contract_id = contract_id;
  amount = pos 0;
  event_date = now;
  source_table = SourceTable.contract_closure;
  source_id = closure_id;
}

-- An event where the test holds, and none where it does not.
abbrev pub just_if : Bool → EventDraft → List EventDraft
just_if true d = d ∷ []
just_if false d = []

any-append_none :
    (p : EventDraft → Bool) (xs : List EventDraft) (x : EventDraft)
    → any p xs ≡ false
    → p x ≡ false
    → any p (xs ++ x ∷ []) ≡ false
any-append_none p [] x h k = rw k refl
any-append_none p (y ∷ xs) x h k = ground (arith, any-append_none p xs x)

nothing_after : (xs : List EventDraft) → xs ≡ xs ++ []
nothing_after [] = refl
nothing_after (x ∷ xs) = ap (λ ys. x ∷ ys) (nothing_after xs)

module _ (acc : Accounting) where
  -- Whether the books have an event under a reference.
  abbrev pub in_books : EventReference → acc.Books → Bool
  in_books r b = already_emitted r (acc.events b)

  emit_fresh :
      (d : EventDraft) (b : acc.Books)
      → in_books d.event_reference b ≡ false
      → acc.events (acc.emit d b) ≡ acc.events b ++ d ∷ []
  emit_fresh d b h = acc.events_emit d b ∙ rw h refl

  still_fresh :
      (r : EventReference) (d : EventDraft) (b : acc.Books)
      → in_books d.event_reference b ≡ false
      → in_books r b ≡ false
      → same_reference d.event_reference r ≡ false
      → in_books r (acc.emit d b) ≡ false
  unfolding already_emitted
  still_fresh r d b new h other =
      rw (emit_fresh d b new)
        (any-append_none (λ e. same_reference e.event_reference r) (acc.events b) d h other)

  module _ (col : Collections) (p : Payment) (profit : ℤ) (b : acc.Books)
      (no_receipt : in_books (reference_of ReferencePrefix.payment_received p.id) b ≡ false)
      (no_profit : in_books (reference_of ReferencePrefix.profit_recognized p.id) b ≡ false) where
    emit_payment-events :
        acc.events (emit_payment acc col p profit b)
        ≡ acc.events b
          ++ about_payment AccountingEventType.payment_received ReferencePrefix.payment_received
              p.contract_id p.id p.received_at p.amount
            ∷ just_if (ltb_ℤ (pos 0) profit) (
                about_payment AccountingEventType.profit_recognized
                  ReferencePrefix.profit_recognized p.contract_id p.id p.received_at profit)
    unfolding emit_payment same_reference payment_event
    emit_payment-events =
        let received =
          payment_event acc col ReferencePrefix.payment_received
            AccountingEventType.payment_received p p.amount in
        let earned =
          payment_event acc col ReferencePrefix.profit_recognized
            AccountingEventType.profit_recognized p profit in
        let b1 = acc.emit received b in
        elim (Bool-cases (ltb_ℤ (pos 0) profit)) [
          | inl above ↦ rw above (
              emit_fresh earned b1
                (still_fresh earned.event_reference received b no_receipt no_profit refl)
              ∙ rw (emit_fresh received b no_receipt)
                  (append_assoc (acc.events b) (received ∷ []) (earned ∷ [])))
          | inr nothing ↦ rw nothing (emit_fresh received b no_receipt)
        ]

    -- An event under another reference is as new after the payment's events as before.
    emit_payment-fresh :
        (r : EventReference)
        → in_books r b ≡ false
        → same_reference (reference_of ReferencePrefix.payment_received p.id) r ≡ false
        → same_reference (reference_of ReferencePrefix.profit_recognized p.id) r ≡ false
        → in_books r (emit_payment acc col p profit b) ≡ false
    unfolding emit_payment same_reference payment_event
    emit_payment-fresh r h k l =
        let received =
          payment_event acc col ReferencePrefix.payment_received
            AccountingEventType.payment_received p p.amount in
        let earned =
          payment_event acc col ReferencePrefix.profit_recognized
            AccountingEventType.profit_recognized p profit in
        let b1 = acc.emit received b in
        let after_receipt = still_fresh r received b no_receipt h k in
        elim (Bool-cases (ltb_ℤ (pos 0) profit)) [
          | inl above ↦ rw above (
              still_fresh r earned b1
                (still_fresh earned.event_reference received b no_receipt no_profit refl)
                after_receipt l)
          | inr nothing ↦ rw nothing after_receipt
        ]

  closing-events :
      (closure_id now : ℕ) (c : InstallmentContract) (b : acc.Books)
      → in_books (reference_of ReferencePrefix.normal_closure closure_id) b ≡ false
      → let (c', b', closure) = close_if_fully_repaid acc closure_id now c b in
        acc.events b'
        ≡ acc.events b ++ just_if (has_closure closure) (about_closure c.id closure_id now)
  unfolding close_if_fully_repaid
  closing-events closure_id now c b h = elim (Bool-cases (is_fully_repaid c)) [
    | inl full ↦ rw full (emit_fresh (closure_event c closure_id now) b h)
    | inr open_still ↦ rw open_still (nothing_after (acc.events b))
  ]

  -- Where the books have no event under the numbers that the payment and a closure get, a settled
  -- payment adds just these events at the end of the books, each under the number of its row: one for
  -- the money received, of the amount of the payment; one for the profit recognised, of the profit of
  -- the allocation lines, if it is above zero; and one for the closure if it closes the contract.
  pub settle_payment-events :
      (col : Collections) (s : Store acc col) (r : PaymentRequest) (amount : ℤ)
      → in_books (reference_of ReferencePrefix.payment_received s.next_payment) s.books ≡ false
      → in_books (reference_of ReferencePrefix.profit_recognized s.next_payment) s.books ≡ false
      → in_books (reference_of ReferencePrefix.normal_closure s.next_closure) s.books ≡ false
      → let (s', o) = settle_payment acc col s r amount in
        let lines =
          (allocate amount
            (map to_outstanding (outstanding_installments s.contract))).allocations in
        let profit = sum_by (λ l. l.profit) lines in
        acc.events s'.books
        ≡ acc.events s.books
          ++ (about_payment AccountingEventType.payment_received ReferencePrefix.payment_received
                  s.contract.id s.next_payment r.now amount
                ∷ just_if (ltb_ℤ (pos 0) profit) (
                    about_payment AccountingEventType.profit_recognized
                      ReferencePrefix.profit_recognized s.contract.id s.next_payment r.now profit)
              ++ just_if (has_closure o.closure) (about_closure s.contract.id s.next_closure r.now))
  unfolding settle_payment new_payment profit_recognised same_reference
  settle_payment-events col s r amount no_receipt no_profit no_closure =
      let plan = allocate amount (map to_outstanding (outstanding_installments s.contract)) in
      let payment = new_payment acc col s r amount plan in
      let profit = profit_recognised plan.allocations in
      closing-events s.next_closure r.now
        (record s.contract {
          installments = apply_all plan.allocations s.contract.installments;
          unearned_profit_balance = recognise plan.allocations s.contract.unearned_profit_balance;
        })
        (emit_payment acc col payment profit s.books)
        (emit_payment-fresh col payment profit s.books no_receipt no_profit
          (reference_of ReferencePrefix.normal_closure s.next_closure) no_closure refl refl)
      ∙ rw (emit_payment-events col payment profit s.books no_receipt no_profit)
          (append_assoc (acc.events s.books) _ _)
