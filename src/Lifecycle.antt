-- ===== src/Lifecycle.antt =====
-- The life of a contract across app/services/offers.py, app/services/payments.py and
-- app/services/closure.py: delivery, payments and the four endings, in any order.
pub mod Open
pub mod Runs
use retail_credit_platform.Common.{
  ℕ, ◌+◌, ◌≡◌, refl, sym, subst, ◌∙◌, ap, Bool, true, false, not, Option, none, some, arith,
  Bool-cases, Option-cases, inl, inr, if◌then◌else◌, ◌⊎◌, leb_ℤ, ltb_ℤ, eqb_ℤ, pos,
}
use retail_credit_platform.Common.Rounding.{money}
use retail_credit_platform.Common.Result.{Result, ok, err, Result-cases}
use retail_credit_platform.Common.Text.{strip, is_empty}
use retail_credit_platform.Contract.{
  InstallmentContract, ContractStatus, ContractClosure, is_active, is_closed,
}
use retail_credit_platform.Accounting.{Accounting}
use retail_credit_platform.Closure.{close_if_fully_repaid, has_closure, is_fully_repaid}
use retail_credit_platform.Closure.Quote.{
  ClosureConfig, ClosureError, SettlementQuote, build_settlement_quote,
}
use retail_credit_platform.Closure.Endings.{
  Desk, SettleRequest, CancellationResult, ReturnResult, settle_for, settle_contract, cancelled,
  cancel_contract, returned, return_contract, no_request,
}
use retail_credit_platform.Payments.Record.{
  Collections, Store, PaymentRequest, PaymentOutcome, record_payment, settle_payment, find_payment,
  total_outstanding,
}
use retail_credit_platform.Offers.Delivery.{Provisioning, confirm_delivery, delivered, is_created}

module _ (acc : Accounting) (col : Collections) (ecl : Provisioning) (config : ClosureConfig) where
  -- One call that goes through.
  pub data Step : Desk acc col → Desk acc col → Type 1 where
    pays :
        {d : Desk acc col} {s' : Store acc col} (r : PaymentRequest) (o : PaymentOutcome acc col)
        → record_payment acc col d.store r ≡ ok (s', o)
        → Step d (record d { store = s' })
    settles :
        {d : Desk acc col} {s' : Store acc col} (r : SettleRequest) (c : ContractClosure)
        → settle_contract acc col config d.store r ≡ ok (s', c)
        → Step d (record d { store = s' })
    cancels :
        {d d' : Desk acc col} (now : ℕ) (actor_id : Option ℕ) (result : CancellationResult)
        → cancel_contract acc col config now actor_id d ≡ ok (d', result)
        → Step d d'
    returns :
        {d d' : Desk acc col} (now : ℕ) (actor_id : Option ℕ) (result : ReturnResult)
        → return_contract acc col config now actor_id d ≡ ok (d', result)
        → Step d d'
    delivers :
        {d d' : Desk acc col} (now : ℕ) (a a' : ecl.Assessments)
        → confirm_delivery acc col ecl now d a ≡ ok (d', a')
        → Step d d'

  pub data Run : Desk acc col → Desk acc col → Type 1 where
    stop : {d : Desk acc col} → Run d d
    next : {d e f : Desk acc col} → Step d e → Run e f → Run d f

-- What holds of a result, if there is one.
abbrev pub IfOk {ℓ κ ν} : {E : Type ℓ} {A : Type κ} → (A → Type ν) → Result E A → Type ν
IfOk P (ok x) = P x
IfOk P (err e) = Unit

pub at_ok {ℓ κ ν} :
    {E : Type ℓ} {A : Type κ} (P : A → Type ν) {r : Result E A} (x : A) → r ≡ ok x → IfOk P r → P x
at_ok P x e h = subst (λ r. IfOk P r) e h
