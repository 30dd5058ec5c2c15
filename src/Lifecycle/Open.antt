-- ===== src/Lifecycle/Open.antt =====
-- How many closures each call makes, on a contract that is not closed.
use retail_credit_platform.Common.{
  ℕ, ◌+◌, ◌≡◌, refl, false, Option, arith, Bool-cases, Option-cases, inl, inr, if◌then◌else◌, leb_ℤ,
  ltb_ℤ, eqb_ℤ, pos,
}
use retail_credit_platform.Common.Rounding.{money}
use retail_credit_platform.Common.Result.{Result-cases}
use retail_credit_platform.Common.Text.{strip, is_empty}
use retail_credit_platform.Contract.{InstallmentContract, is_active, is_closed}
use retail_credit_platform.Accounting.{Accounting}
use retail_credit_platform.Closure.{close_if_fully_repaid, has_closure, is_fully_repaid}
use retail_credit_platform.Closure.Quote.{ClosureConfig, build_settlement_quote}
use retail_credit_platform.Closure.Endings.{
  Desk, SettleRequest, settle_for, settle_contract, cancelled, cancel_contract, returned,
  return_contract, no_request,
}
use retail_credit_platform.Payments.Record.{
  Collections, Store, PaymentRequest, record_payment, settle_payment, find_payment,
  total_outstanding,
}
use retail_credit_platform.Offers.Delivery.{Provisioning, confirm_delivery, delivered, is_created}
use retail_credit_platform.Lifecycle.{IfOk}

-- From `n` closures made: a closed contract has a closure, which is one more; another has none.
abbrev pub Counts : (n : ℕ) → InstallmentContract → (m : ℕ) → Type 0
Counts n c m =
    (has_closure c.closure ≡ is_closed c.status) × (m ≡ n + (if is_closed c.status then 1 else 0))

-- Not closed, and without a closure.
abbrev pub IsOpen : InstallmentContract → Type 0
IsOpen c = (is_closed c.status ≡ false) × (has_closure c.closure ≡ false)

pub open-Counts : (n : ℕ) (c : InstallmentContract) → IsOpen c → Counts n c n
open-Counts n c (status, closure) = rw status (closure, omega arith)

close-Counts :
    (acc : Accounting) (id now n : ℕ) (c : InstallmentContract) (b : acc.Books)
    → IsOpen c
    → let (c', b', made) = close_if_fully_repaid acc id now c b in
      Counts n c' (if has_closure made then n + 1 else n)
unfolding close_if_fully_repaid
close-Counts acc id now n c b h = elim (Bool-cases (is_fully_repaid c)) [
  | inl full ↦ rw full (refl, refl)
  | inr open_still ↦ rw open_still (open-Counts n c h)
]

module _ (acc : Accounting) (col : Collections) where
  abbrev pub StoreCounts : Store acc col → Store acc col → Type 0
  StoreCounts s s' = Counts s.next_closure s'.contract s'.next_closure

  pub record_payment-Counts :
      (s : Store acc col) (r : PaymentRequest)
      → IsOpen s.contract
      → IfOk (λ (s', o). StoreCounts s s') (record_payment acc col s r)
  unfolding record_payment settle_payment
  record_payment-Counts s r h = elim (Bool-cases (is_empty (strip r.external_reference))) [
    | inl empty ↦ rw empty tt
    | inr given ↦
        rw given (elim (Option-cases (find_payment (strip r.external_reference) s.payments)) [
          | inr (existing, e) ↦ rw (e, record_payment) (open-Counts s.next_closure s.contract h)
          | inl fresh ↦
              rw (fresh, record_payment)
                (elim (Bool-cases (is_active s.contract.status)) [
                  | inr inactive ↦ rw inactive tt
                  | inl active ↦ rw active (elim (Bool-cases (leb_ℤ (money r.amount) (pos 0))) [
                    | inl low ↦ rw low tt
                    | inr high ↦
                        rw high
                          (elim (Bool-cases
                            (ltb_ℤ (total_outstanding s.contract) (money r.amount))) [
                              | inl over ↦ rw over tt
                              | inr within ↦ rw within (close-Counts acc _ _ s.next_closure _ _ h)
                            ])
                  ])
                ])
        ])
  ]

  module _ (config : ClosureConfig) where
    pub settle_contract-Counts :
        (s : Store acc col) (r : SettleRequest)
        → IfOk (λ (s', c). StoreCounts s s') (settle_contract acc col config s r)
    unfolding settle_contract settle_for
    settle_contract-Counts s r =
        elim (Result-cases (build_settlement_quote config r.now s.contract r.rebate)) [
          | inl (e, k) ↦ rw (k, settle_contract) tt
          | inr (q, k) ↦
              rw (k, settle_contract)
                (elim (Bool-cases (eqb_ℤ (money r.amount) q.final_payoff_amount)) [
                  | inr other ↦ rw other tt
                  | inl same ↦
                      rw same
                        (elim (Option-cases
                          (find_payment (strip r.external_reference) s.payments)) [
                            | inr (p, taken) ↦ rw (taken, settle_contract) tt
                            | inl free ↦ rw (free, settle_contract) (refl, refl)
                          ])
                ])
        ]

    pub cancel_contract-Counts :
        (now : ℕ) (actor_id : Option ℕ) (d : Desk acc col)
        → IfOk
            (λ (d', c). StoreCounts d.store d'.store)
            (cancel_contract acc col config now actor_id d)
    unfolding cancel_contract cancelled
    cancel_contract-Counts now actor_id d = elim (Bool-cases (is_closed d.store.contract.status)) [
      | inl closed ↦ rw closed tt
      | inr not_closed ↦ rw not_closed (elim (Bool-cases (is_active d.store.contract.status)) [
        | inl active ↦ rw active tt
        | inr inactive ↦ rw inactive (refl, refl)
      ])
    ]

    pub return_contract-Counts :
        (now : ℕ) (actor_id : Option ℕ) (d : Desk acc col)
        → IfOk
            (λ (d', c). StoreCounts d.store d'.store)
            (return_contract acc col config now actor_id d)
    unfolding return_contract returned
    return_contract-Counts now actor_id d = elim (Bool-cases (is_closed d.store.contract.status)) [
      | inl closed ↦ rw closed tt
      | inr not_closed ↦ rw not_closed (elim (Bool-cases (is_active d.store.contract.status)) [
        | inr inactive ↦ rw inactive tt
        | inl active ↦
            rw active
              (elim (Result-cases (build_settlement_quote config now d.store.contract no_request)) [
                | inl (e, k) ↦ rw (k, return_contract) tt
                | inr (q, k) ↦ rw (k, return_contract) (refl, refl)
              ])
      ])
    ]

  module _ (ecl : Provisioning) where
    pub confirm_delivery-Counts :
        (now : ℕ) (d : Desk acc col) (a : ecl.Assessments)
        → IsOpen d.store.contract
        → IfOk (λ (d', b). StoreCounts d.store d'.store) (confirm_delivery acc col ecl now d a)
    unfolding confirm_delivery delivered
    confirm_delivery-Counts now d a (status, closure) =
        elim (Bool-cases (is_created d.store.contract.status)) [
          | inr other ↦ rw other tt
          | inl created ↦ rw created (closure, omega arith)
        ]
