-- ===== src/Payments/Ends.antt =====
-- `record_payment` on a contract in good order: what it keeps, and when it closes the contract.
use retail_credit_platform.Common.{
  ℕ, ◌≡◌, refl, sym, subst, ap, ◌↔◌, ℤ, pos, negsuc, ◌-ℤ◌, ◌≤ℤ◌, ◌<ℤ◌, ltb_ℤ, leb_ℤ, true, false,
  none, List, All, arith, int_laws, Bool-cases, Option-cases, inl, inr, map,
}
use retail_credit_platform.Common.Rounding.{money}
use retail_credit_platform.Common.Result.{Result, ok, err}
use retail_credit_platform.Common.Text.{strip, is_empty}
use retail_credit_platform.Common.Sorting.{IsOrdered}
use retail_credit_platform.Contract.{
  Installment, InstallmentContract, ContractStatus, is_active, is_closed,
}
use retail_credit_platform.Allocation.{InstallmentAllocation, allocate}
use retail_credit_platform.Accounting.{Accounting}
use retail_credit_platform.Closure.{close_if_fully_repaid, is_fully_repaid, has_closure}
use retail_credit_platform.Payments.Record.{
  Payment, Collections, PaymentRequest, Store, PaymentOutcome, PaymentError, find_payment,
  total_outstanding, to_outstanding, outstanding_installments, new_payment, emit_payment,
  profit_recognised, settle_payment, record_payment,
}
use retail_credit_platform.Payments.Serves.{Serves}
use retail_credit_platform.Payments.Effect.{UniqueIds, SoundCharges, served, apply_all-served}
use retail_credit_platform.Payments.Balances.{
  IsWellFormed, lines_of, lines_of-Serves, paid_contract, paid_contract_lem,
}
use retail_credit_platform.Payments.Closing.{IsTidy, served-IsTidy, is_fully_repaid_iff}
use retail_credit_platform.Payments.Keeps.{served-SoundCharges, served-UniqueIds, served-IsOrdered}

-- Installments in order with numbers of their own, nothing negative owed or written off, and every
-- installment without principal and profit left marked paid.
pub record IsInOrder (c : InstallmentContract) : Type 0 where
  pub well_formed : IsWellFormed c
  pub tidy : All IsTidy c.installments

served-IsInOrder :
    (c d : InstallmentContract) {ls : List InstallmentAllocation} (s : Serves c.installments ls)
    → IsInOrder c
    → d.installments ≡ served s
    → IsInOrder d
served-IsInOrder c d s h e = record {
  well_formed = record {
    ordered =
        subst (λ is. IsOrdered (λ (i : Installment). i.sequence_number) is) (sym e)
          (served-IsOrdered s h.well_formed.ordered);
    unique = subst (λ is. UniqueIds is) (sym e) (served-UniqueIds s h.well_formed.unique);
    charges =
        subst (λ is. All SoundCharges is) (sym e) (served-SoundCharges s h.well_formed.charges);
  };
  tidy = subst (λ is. All IsTidy is) (sym e) (served-IsTidy s h.well_formed.charges h.tidy);
}

paid_contract-IsInOrder :
    (c : InstallmentContract) (amount : ℤ) (h : IsInOrder c)
    → IsInOrder (paid_contract c amount h.well_formed)
unfolding paid_contract
paid_contract-IsInOrder c amount h =
    let s = lines_of-Serves c amount h.well_formed in
    served-IsInOrder c (paid_contract c amount h.well_formed) s h
      (apply_all-served s h.well_formed.unique)

le_antisym : (a b : ℤ) → a ≤ℤ b → b ≤ℤ a → a ≡ b
le_antisym (pos a) (pos b) h k = ap pos (omega arith)
le_antisym (pos a) (negsuc b) h k = absurd (omega arith)
le_antisym (negsuc a) (pos b) h k = absurd (omega arith)
le_antisym (negsuc a) (negsuc b) h k = ap negsuc (omega arith)

le_refl : (a : ℤ) → a ≤ℤ a
le_refl a = omega arith

-- Nothing is left of a total, after an amount within it, exactly when the amount is all of it.
nothing_left :
    (total amount left : ℤ)
    → left ≡ total -ℤ amount
    → amount ≤ℤ total
    → (left ≤ℤ pos 0) ↔ (amount ≡ total)
nothing_left total amount left e le = (
  (λ h.
      let gone : total -ℤ amount ≤ℤ pos 0 = subst (λ z. z ≤ℤ pos 0) e h in
      le_antisym amount total le (omega (int_laws, gone))),
  (λ same.
      let over : total ≤ℤ amount = subst (λ z. total ≤ℤ z) (sym same) (le_refl total) in
      subst (λ z. z ≤ℤ pos 0) (sym e) (omega (int_laws, over))),
)

-- What a call that does not end in an error leaves behind.
abbrev pub Leaves :
    (acc : Accounting) (col : Collections)
    → (Store acc col → Type 0)
    → Result PaymentError (Store acc col × PaymentOutcome acc col)
    → Type 0
Leaves acc col P (ok (s, o)) = P s
Leaves acc col P (err e) = Unit

module _ (acc : Accounting) where
  closes_iff :
      (closure_id now : ℕ) (c : InstallmentContract) (b : acc.Books)
      → is_active c.status ≡ true
      → (is_closed (close_if_fully_repaid acc closure_id now c b).0.status ≡ true)
        ↔ (is_fully_repaid c ≡ true)
  unfolding close_if_fully_repaid
  closes_iff closure_id now c b active = elim (Bool-cases (is_fully_repaid c)) [
    | inl full ↦ rw full ((λ _. refl), (λ _. refl))
    | inr open_still ↦
        rw open_still ((λ e. still_active c.status active e), (λ e. any_closed c.status e))
  ]
    where
      still_active :
          (st : ContractStatus) → is_active st ≡ true → is_closed st ≡ true → false ≡ true
      still_active ContractStatus.created a e = e
      still_active ContractStatus.active a e = e
      still_active ContractStatus.closed a e = a

      any_closed : (st : ContractStatus) → false ≡ true → is_closed st ≡ true
      any_closed ContractStatus.created e = e
      any_closed ContractStatus.active e = e
      any_closed ContractStatus.closed e = refl

  closed-IsInOrder :
      (closure_id now : ℕ) (c : InstallmentContract) (b : acc.Books)
      → IsInOrder c
      → IsInOrder (close_if_fully_repaid acc closure_id now c b).0
  unfolding close_if_fully_repaid
  closed-IsInOrder closure_id now c b h = elim (Bool-cases (is_fully_repaid c)) [
    | inl full ↦ rw full (record {
      well_formed = record {
        ordered = h.well_formed.ordered;
        unique = h.well_formed.unique;
        charges = h.well_formed.charges;
      };
      tidy = h.tidy;
    })
    | inr open_still ↦ rw open_still h
  ]

module _ (acc : Accounting) (col : Collections) (s : Store acc col) (r : PaymentRequest) where
  passes_guards :
      is_empty (strip r.external_reference) ≡ false
      → find_payment (strip r.external_reference) s.payments ≡ none
      → is_active s.contract.status ≡ true
      → pos 0 <ℤ money r.amount
      → money r.amount ≤ℤ total_outstanding s.contract
      → record_payment acc col s r ≡ ok (settle_payment acc col s r (money r.amount))
  unfolding record_payment
  passes_guards given fresh active above within =
      let positive : leb_ℤ (money r.amount) (pos 0) ≡ false = not_low (money r.amount) above in
      let covered : ltb_ℤ (total_outstanding s.contract) (money r.amount) ≡ false =
        not_over (total_outstanding s.contract) (money r.amount) within in
      rw (given, fresh, active, positive, covered) refl
    where
      not_low : (a : ℤ) → pos 0 <ℤ a → leb_ℤ a (pos 0) ≡ false
      not_low a h = ground arith

      not_over : (a b : ℤ) → b ≤ℤ a → ltb_ℤ a b ≡ false
      not_over a b h = ground arith

  module _ (amount : ℤ) (h : IsInOrder s.contract) where
    settle_payment-IsInOrder : IsInOrder (settle_payment acc col s r amount).0.contract
    unfolding settle_payment paid_contract
    settle_payment-IsInOrder =
        closed-IsInOrder acc s.next_closure r.now (paid_contract s.contract amount h.well_formed)
          (emit_payment acc col (payment_of amount) (profit_recognised (lines_of s.contract amount))
            s.books)
          (paid_contract-IsInOrder s.contract amount h)
      where
        payment_of : ℤ → Payment
        payment_of z =
            new_payment acc col s r z
              (allocate z (map to_outstanding (outstanding_installments s.contract)))

    settle_payment-closes :
        is_active s.contract.status ≡ true
        → has_closure s.contract.closure ≡ false
        → pos 0 ≤ℤ amount
        → amount ≤ℤ total_outstanding s.contract
        → (is_closed (settle_payment acc col s r amount).0.contract.status ≡ true)
          ↔ (amount ≡ total_outstanding s.contract)
    unfolding settle_payment paid_contract
    settle_payment-closes active unclosed nonneg within =
        let c' = paid_contract s.contract amount h.well_formed in
        let (total, _) = paid_contract_lem s.contract amount h.well_formed nonneg within in
        let tidy = (paid_contract-IsInOrder s.contract amount h).tidy in
        let closed =
          closes_iff acc s.next_closure r.now c'
            (emit_payment acc col (payment_of amount)
              (profit_recognised (lines_of s.contract amount)) s.books)
            active in
        let repaid = is_fully_repaid_iff c' tidy active unclosed in
        let paid_up = nothing_left (total_outstanding s.contract) amount _ total within in
        ((λ e. paid_up.0 (repaid.0 (closed.0 e))), (λ e. closed.1 (repaid.1 (paid_up.1 e))))
      where
        payment_of : ℤ → Payment
        payment_of z =
            new_payment acc col s r z
              (allocate z (map to_outstanding (outstanding_installments s.contract)))

  -- The contract of a payment that passes the guards is closed by it exactly when the payment is for
  -- the whole total outstanding.
  pub record_payment_closes :
      is_empty (strip r.external_reference) ≡ false
      → find_payment (strip r.external_reference) s.payments ≡ none
      → is_active s.contract.status ≡ true
      → has_closure s.contract.closure ≡ false
      → IsInOrder s.contract
      → pos 0 <ℤ money r.amount
      → money r.amount ≤ℤ total_outstanding s.contract
      → let (s', o) = settle_payment acc col s r (money r.amount) in
        (record_payment acc col s r ≡ ok (s', o))
        × ((is_closed s'.contract.status ≡ true) ↔ (money r.amount ≡ total_outstanding s.contract))
  record_payment_closes given fresh active unclosed h above within = (
    passes_guards given fresh active above within,
    settle_payment-closes (money r.amount) h active unclosed (omega arith) within,
  )

-- A call of `record_payment` that does not end in an error leaves the contract in order, if it was.
pub record_payment-IsInOrder :
    (acc : Accounting) (col : Collections) (s : Store acc col) (r : PaymentRequest)
    → IsInOrder s.contract
    → Leaves acc col (λ s'. IsInOrder s'.contract) (record_payment acc col s r)
unfolding record_payment
record_payment-IsInOrder acc col s r h =
    let reference = strip r.external_reference in
    elim (Bool-cases (is_empty reference)) [
      | inl empty ↦ rw empty tt
      | inr given ↦ rw given (elim (Option-cases (find_payment reference s.payments)) [
        | inr (existing, e) ↦ rw e h
        | inl fresh ↦ rw fresh (elim (Bool-cases (is_active s.contract.status)) [
          | inr inactive ↦ rw inactive tt
          | inl active ↦ rw active (elim (Bool-cases (leb_ℤ (money r.amount) (pos 0))) [
            | inl low ↦ rw low tt
            | inr high ↦
                rw high (elim (Bool-cases (ltb_ℤ (total_outstanding s.contract) (money r.amount))) [
                  | inl over ↦ rw over tt
                  | inr within ↦ rw within (settle_payment-IsInOrder acc col s r (money r.amount) h)
                ])
          ])
        ])
      ])
    ]
