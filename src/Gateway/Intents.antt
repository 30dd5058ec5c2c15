-- ===== src/Gateway/Intents.antt =====
-- app/services/payment_intents.py: what a customer can pay, the intent that a request creates, and the
-- opening of its checkout session.
use mathlib.Core.Option
use retail_credit_platform.Common.{
  ℕ, ◌+◌, ◌*◌, ℤ, pos, ◌+ℤ◌, ltb_ℤ, leb_ℤ, Bool, true, false, not, ◌||◌, Option, none, some, List,
  [], ◌∷◌, ◌++◌, keep, sum_by, if◌then◌else◌,
}
use retail_credit_platform.Common.Rounding.{Decimal, money}
use retail_credit_platform.Common.Result.{Result, ok, err}
use retail_credit_platform.Common.Text.{Text, strip, is_empty, text_eq}
use retail_credit_platform.Common.Sorting.{sort_by}
use retail_credit_platform.Contract.{
  Installment, InstallmentContract, is_active, is_overdue, total_due, principal_outstanding,
  profit_outstanding,
}
use retail_credit_platform.Contract.Receivable.{build_receivable}
use retail_credit_platform.Gateway.{PaymentIntentStatus, PaymentPurpose, PaymentIntent, same_status}

pub record PaymentOptions : Type 0 where
  pub contract_id : ℕ
  pub next_installment_amount : Option ℤ
  pub next_installment_due_date : Option ℕ
  pub overdue_amount : ℤ
  pub late_fees_outstanding : ℤ
  pub total_outstanding : ℤ
  pub minimum_partial_amount : ℤ
  pub can_pay_current_installment : Bool
  pub can_pay_overdue : Bool
  pub can_pay_full_outstanding : Bool
  pub can_pay_partial : Bool

-- The installments with principal or profit left, in order.
unfoldable pub unpaid_installments : InstallmentContract → List Installment
unpaid_installments contract =
    sort_by (λ i. i.sequence_number)
      (keep (λ i. ltb_ℤ (pos 0) (principal_outstanding i) || ltb_ℤ (pos 0) (profit_outstanding i))
        contract.installments)

abbrev pub first_of : List Installment → Option Installment
first_of [] = none
first_of (i ∷ is) = some i

abbrev pub has_value : Option Installment → Bool
has_value none = false
has_value (some _) = true

unfoldable pub compute_payment_options :
    (minimum_partial : Decimal) → InstallmentContract → PaymentOptions
unfolding unpaid_installments
compute_payment_options minimum_partial contract =
    let receivable = build_receivable contract [] in
    let live = unpaid_installments contract in
    let next_installment = first_of live in
    let overdue_amount =
      sum_by (λ i. principal_outstanding i +ℤ profit_outstanding i)
        (keep (λ i. is_overdue i.status) live) in
    let total = receivable.outstanding_receivable +ℤ receivable.outstanding_late_fees in
    let minimum = money minimum_partial in
    record {
      contract_id = contract.id;
      next_installment_amount = Option.map total_due next_installment;
      next_installment_due_date = Option.map (λ i. i.due_date) next_installment;
      overdue_amount = overdue_amount;
      late_fees_outstanding = receivable.outstanding_late_fees;
      total_outstanding = total;
      minimum_partial_amount = minimum;
      can_pay_current_installment = has_value next_installment;
      can_pay_overdue = ltb_ℤ (pos 0) overdue_amount;
      can_pay_full_outstanding = ltb_ℤ (pos 0) total;
      can_pay_partial = ltb_ℤ minimum total;
    }

pub data IntentError : Type 0 where
  idempotency_key_required contract_not_active no_customer no_upcoming_installment no_overdue_amount
        amount_required below_minimum amount_not_positive exceeds_outstanding not_initiated :
      IntentError
  gateway_failed : Text → IntentError

unfoldable pub resolve_requested_amount :
    PaymentOptions → PaymentPurpose → Option Decimal → Result IntentError ℤ
resolve_requested_amount options PaymentPurpose.current_installment amount =
    elim options.next_installment_amount [ none ↦ err no_upcoming_installment | some due ↦ ok due ]
resolve_requested_amount options PaymentPurpose.overdue_amount amount =
    if leb_ℤ options.overdue_amount (pos 0)
    then err no_overdue_amount
    else ok options.overdue_amount
resolve_requested_amount options PaymentPurpose.full_outstanding amount =
    ok options.total_outstanding
resolve_requested_amount options PaymentPurpose.partial none = err amount_required
resolve_requested_amount options PaymentPurpose.partial (some amount) =
    if ltb_ℤ (money amount) options.minimum_partial_amount
    then err below_minimum
    else ok (money amount)

-- The table of intents, with the number that the database gives to the next one.
pub record Intents : Type 0 where
  pub rows : List PaymentIntent
  pub next_intent : ℕ

pub record IntentOutcome : Type 0 where
  pub intent : PaymentIntent
  pub replayed : Bool

unfoldable pub find_by_key : Text → List PaymentIntent → Option PaymentIntent
find_by_key key [] = none
find_by_key key (i ∷ is) = if text_eq i.idempotency_key key then some i else find_by_key key is

pub record IntentRequest : Type 0 where
  pub purpose : PaymentPurpose
  pub amount : Option Decimal
  pub actor_id : ℕ
  pub idempotency_key : Text

-- `format_reference` for intents, the customer who owns the contract and the configured minimum of a
-- partial payment are arguments.
module _ (format_reference : ℕ → Text) (minimum_partial : Decimal)
    (owner : InstallmentContract → Option ℕ) where
  unfoldable pub new_intent :
      Intents → InstallmentContract → IntentRequest → (customer_id : ℕ) → ℤ → PaymentIntent
  new_intent t contract r customer_id requested = record {
    id = t.next_intent;
    payment_reference = format_reference t.next_intent;
    idempotency_key = strip r.idempotency_key;
    customer_id = customer_id;
    contract_id = contract.id;
    requested_amount = requested;
    payment_purpose = r.purpose;
    status = PaymentIntentStatus.initiated;
    gateway_session_id = none;
    expires_at = none;
    created_by = r.actor_id;
  }

  unfoldable pub create_intent :
      Intents → InstallmentContract → IntentRequest → Result IntentError (Intents × IntentOutcome)
  unfolding new_intent
  create_intent t contract r =
      let key = strip r.idempotency_key in
      let options = compute_payment_options minimum_partial contract in
      if is_empty key then err idempotency_key_required else elim (find_by_key key t.rows) [
        | some existing ↦ ok (t, record { intent = existing; replayed = true })
        | none ↦
            if not (is_active contract.status)
            then err contract_not_active
            else elim (owner contract) [
              | none ↦ err no_customer
              | some customer_id ↦ elim (resolve_requested_amount options r.purpose r.amount) [
                | err e ↦ err e
                | ok requested ↦
                    if leb_ℤ requested (pos 0)
                    then err amount_not_positive
                    else if ltb_ℤ options.total_outstanding requested
                    then err exceeds_outstanding
                    else let intent = new_intent t contract r customer_id requested in
                      ok (
                        record { rows = t.rows ++ intent ∷ []; next_intent = t.next_intent + 1 },
                        record { intent = intent; replayed = false },
                      )
              ]
            ]
      ]

-- `create_checkout` on an intent: `answer` is what the gateway returned, a session token or an error,
-- `minutes` the configured time to expiry, and `now` is in seconds.
unfoldable pub create_checkout :
    (answer : Result Text Text) (now minutes : ℕ) → PaymentIntent → Result IntentError PaymentIntent
create_checkout answer now minutes intent =
    if not (same_status intent.status PaymentIntentStatus.initiated)
    then err not_initiated
    else elim answer [
      | err message ↦ err (gateway_failed message)
      | ok token ↦ ok (record intent {
        gateway_session_id = some token;
        expires_at = some (now + minutes * 60);
        status = PaymentIntentStatus.pending;
      })
    ]
