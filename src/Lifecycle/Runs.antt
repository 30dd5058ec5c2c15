-- ===== src/Lifecycle/Runs.antt =====
-- Runs of calls on one contract: at most one closure, and none after it.
use retail_credit_platform.Common.{
  ℕ, ◌+◌, ◌≡◌, refl, sym, subst, ◌∙◌, Bool, true, false, Option, arith, Bool-cases, Option-cases,
  inl, inr, if◌then◌else◌,
}
use retail_credit_platform.Common.Result.{err}
use retail_credit_platform.Common.Text.{strip, is_empty}
use retail_credit_platform.Contract.{ContractStatus, is_active, is_closed}
use retail_credit_platform.Accounting.{Accounting}
use retail_credit_platform.Closure.Quote.{ClosureConfig, ClosureError, build_settlement_quote}
use retail_credit_platform.Closure.Endings.{
  Desk, SettleRequest, settle_contract, cancel_contract, return_contract,
}
use retail_credit_platform.Payments.Record.{
  Collections, Store, PaymentRequest, record_payment, find_payment,
}
use retail_credit_platform.Offers.Delivery.{Provisioning, confirm_delivery, is_created}
use retail_credit_platform.Lifecycle.{
  Step, Run, pays, settles, cancels, returns, delivers, stop, next, IfOk, at_ok,
}
use retail_credit_platform.Lifecycle.Open.{
  Counts, IsOpen, open-Counts, StoreCounts, record_payment-Counts, settle_contract-Counts,
  cancel_contract-Counts, return_contract-Counts, confirm_delivery-Counts,
}

-- A closed contract is neither active nor new.
closed_inactive : (st : ContractStatus) → is_closed st ≡ true → is_active st ≡ false
closed_inactive ContractStatus.created e = ground arith
closed_inactive ContractStatus.active e = ground arith
closed_inactive ContractStatus.closed e = refl

closed_not_created : (st : ContractStatus) → is_closed st ≡ true → is_created st ≡ false
closed_not_created ContractStatus.created e = ground arith
closed_not_created ContractStatus.active e = refl
closed_not_created ContractStatus.closed e = refl

abbrev IsClosed : {acc : Accounting} {col : Collections} → Desk acc col → Type 0
IsClosed d = is_closed d.store.contract.status ≡ true

module _ (acc : Accounting) (col : Collections) where
  replay_only :
      (s : Store acc col) (r : PaymentRequest)
      → is_closed s.contract.status ≡ true
      → IfOk (λ (s', o). s' ≡ s) (record_payment acc col s r)
  unfolding record_payment
  replay_only s r h = elim (Bool-cases (is_empty (strip r.external_reference))) [
    | inl empty ↦ rw empty tt
    | inr given ↦
        rw given (elim (Option-cases (find_payment (strip r.external_reference) s.payments)) [
          | inr (existing, e) ↦ rw (e, record_payment) refl
          | inl fresh ↦ rw (fresh, record_payment) (rw (closed_inactive s.contract.status h) tt)
        ])
  ]

  module _ (config : ClosureConfig) where
    quote_refused :
        (s : Store acc col) (r : SettleRequest)
        → is_closed s.contract.status ≡ true
        → build_settlement_quote config r.now s.contract r.rebate ≡ err ClosureError.already_closed
    unfolding build_settlement_quote
    quote_refused s r h = rw h refl

    settle_refused :
        (s : Store acc col) (r : SettleRequest)
        → is_closed s.contract.status ≡ true
        → IfOk (λ x. ⊥) (settle_contract acc col config s r)
    unfolding settle_contract
    settle_refused s r h = rw (quote_refused s r h, settle_contract) tt

    cancel_refused :
        (now : ℕ) (actor_id : Option ℕ) (d : Desk acc col)
        → IsClosed d
        → IfOk (λ x. ⊥) (cancel_contract acc col config now actor_id d)
    unfolding cancel_contract
    cancel_refused now actor_id d h = rw h tt

    return_refused :
        (now : ℕ) (actor_id : Option ℕ) (d : Desk acc col)
        → IsClosed d
        → IfOk (λ x. ⊥) (return_contract acc col config now actor_id d)
    unfolding return_contract
    return_refused now actor_id d h = rw h tt

  delivery_refused :
      (ecl : Provisioning) (now : ℕ) (d : Desk acc col) (a : ecl.Assessments)
      → IsClosed d
      → IfOk (λ x. ⊥) (confirm_delivery acc col ecl now d a)
  unfolding confirm_delivery
  delivery_refused ecl now d a h = rw (closed_not_created d.store.contract.status h) tt

unchanged : (b : Bool) (n m : ℕ) → m ≡ n + (if b then 1 else 0) → b ≡ false → m ≡ n
unchanged true n m e k = ground arith
unchanged false n m e k = omega (arith, e)

module _ (acc : Accounting) (col : Collections) (ecl : Provisioning) (config : ClosureConfig) where
  Step-Counts :
      {d d' : Desk acc col}
      → Step acc col ecl config d d'
      → IsOpen d.store.contract
      → StoreCounts acc col d.store d'.store
  Step-Counts {d} (pays r o e) h =
      at_ok (λ (s', o). StoreCounts acc col d.store s') _ e
        (record_payment-Counts acc col d.store r h)
  Step-Counts {d} (settles r c e) h =
      at_ok (λ (s', c). StoreCounts acc col d.store s') _ e
        (settle_contract-Counts acc col config d.store r)
  Step-Counts {d} (cancels now actor_id c e) h =
      at_ok (λ (d', c). StoreCounts acc col d.store d'.store) _ e
        (cancel_contract-Counts acc col config now actor_id d)
  Step-Counts {d} (returns now actor_id c e) h =
      at_ok (λ (d', c). StoreCounts acc col d.store d'.store) _ e
        (return_contract-Counts acc col config now actor_id d)
  Step-Counts {d} (delivers now a b e) h =
      at_ok (λ (d', b). StoreCounts acc col d.store d'.store) _ e
        (confirm_delivery-Counts acc col ecl now d a h)

  closed_step :
      {d d' : Desk acc col} → Step acc col ecl config d d' → IsClosed d → d'.store ≡ d.store
  closed_step {d} (pays r o e) h =
      at_ok (λ (s', o). s' ≡ d.store) _ e (replay_only acc col d.store r h)
  closed_step {d} (settles r c e) h =
      absurd (at_ok (λ x. ⊥) _ e (settle_refused acc col config d.store r h))
  closed_step {d} (cancels now actor_id c e) h =
      absurd (at_ok (λ x. ⊥) _ e (cancel_refused acc col config now actor_id d h))
  closed_step {d} (returns now actor_id c e) h =
      absurd (at_ok (λ x. ⊥) _ e (return_refused acc col config now actor_id d h))
  closed_step {d} (delivers now a b e) h =
      absurd (at_ok (λ x. ⊥) _ e (delivery_refused acc col ecl now d a h))

  -- Once a contract is closed, no payment, settlement, cancellation, return or delivery that goes
  -- through changes any of its rows again. Taking back a gateway payment is not among these calls.
  pub Run-closed :
      {d d' : Desk acc col} → Run acc col ecl config d d' → IsClosed d → d'.store ≡ d.store
  Run-closed stop h = refl
  Run-closed (next {d} {e} {f} step run) h =
      let same = closed_step step h in
      let closed : IsClosed e =
        subst (λ (s : Store acc col). is_closed s.contract.status ≡ true) (sym same) h in
      Run-closed run closed ∙ same

  -- Whatever deliveries, payments, settlements, cancellations and returns go through on a contract that
  -- is open and has no closure, in whatever order: in the end the contract is closed exactly when it has
  -- a closure, and then exactly one closure was made, and none otherwise.
  pub Run-Counts :
      {d d' : Desk acc col}
      → Run acc col ecl config d d'
      → IsOpen d.store.contract
      → Counts d.store.next_closure d'.store.contract d'.store.next_closure
  Run-Counts {d} stop h = open-Counts d.store.next_closure d.store.contract h
  Run-Counts (next {d} {e} {f} step run) h =
      let (consistent, counted) = Step-Counts step h in
      elim (Bool-cases (is_closed e.store.contract.status)) [
        | inl closed ↦
            subst (λ (s : Store acc col). Counts d.store.next_closure s.contract s.next_closure)
              (sym (Run-closed run closed)) (consistent, counted)
        | inr not_closed ↦
            subst (λ n. Counts n f.store.contract f.store.next_closure)
              (unchanged _ d.store.next_closure e.store.next_closure counted not_closed)
              (Run-Counts run (not_closed, consistent ∙ not_closed))
      ]
