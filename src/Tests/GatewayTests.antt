-- ===== src/Tests/GatewayTests.antt =====
-- app/services/gateway_webhooks.py and payment_intents.py on one intent of 10.00.
use retail_credit_platform.Contract.Receivable.{build_receivable, principal_of, profit_of}
use retail_credit_platform.Common.Sorting.{sort_by}
use retail_credit_platform.Contract.{
  InstallmentContract, sum_outstanding, charges_of, principal_outstanding, profit_outstanding,
  total_due,
}
use retail_credit_platform.Common.{
  ◌⊎◌, inl, ℕ, ◌≡◌, ◌↔◌, ◌≤◌, refl, ℤ, pos, ◌+ℤ◌, ◌-ℤ◌, true, false, Option, none, some, List, [],
  ◌∷◌, All, length, inr, ◌*ℤ◌, sum_by,
}
use retail_credit_platform.Common.Rounding.{Decimal, money, round_half_up}
use retail_credit_platform.Common.Result.{ok, err}
use retail_credit_platform.Common.Text.{strip, strip_left, is_space, text_eq}
use retail_credit_platform.Gateway.{
  PaymentIntentStatus, PaymentPurpose, PaymentIntent, WebhookProcessingStatus, status_value,
  to_status, can_transition,
}
use retail_credit_platform.Gateway.Graph.{
  Runs, stay, move, Climbs, has_settled, settles, is_terminal, Runs_lem, is_terminal_iff,
}
use retail_credit_platform.Gateway.Intents.{
  create_checkout, IntentRequest, Intents, create_intent, compute_payment_options,
  resolve_requested_amount, find_by_key, exceeds_outstanding,
}
use retail_credit_platform.Gateway.Webhooks.{
  Payload, Verdict, Finance, WebhookEvent, bad_signature, Tables, find_event, bump, bumped,
  find_intent, set_status, new_event, acknowledge, apply_status, process_webhook,
}
use retail_credit_platform.Gateway.Redelivery.{process_webhook_again}
use retail_credit_platform.Gateway.Effect.{Effect, process_webhook-Effect}
use retail_credit_platform.Gateway.Checkout.{Opens, create_checkout-Opens}
use retail_credit_platform.Gateway.Lawful.{
  HasHistory, statuses, IsLawful, deliver_all, deliver_all_lem,
}
use retail_credit_platform.Gateway.Requests.{Answers, create_intent-Answers}
use retail_credit_platform.Tests.PaymentTests.{sold, overdue_one}

-- The money received in all, and no operation that raises.
abbrev till : Finance
till = record {
  State = ℤ;
  Raised = Unit;
  apply_final_allocation = λ i x now s. ok (s +ℤ i.requested_amount);
  apply_reversal = λ i st now s. ok (s -ℤ pos 1000);
}

abbrev pub intent_one : PaymentIntent
intent_one = record {
  id = 1;
  payment_reference = 80 ∷ 73 ∷ 45 ∷ 49 ∷ [];
  idempotency_key = 107 ∷ 49 ∷ [];
  customer_id = 4;
  contract_id = 7;
  requested_amount = pos 1000;
  payment_purpose = PaymentPurpose.partial;
  status = PaymentIntentStatus.captured;
  gateway_session_id = none;
  expires_at = none;
  created_by = 5;
}

abbrev open_one : PaymentIntent
open_one = record intent_one { status = PaymentIntentStatus.pending }

abbrev tables : PaymentIntent → Tables till
tables i = record {
  intents = i ∷ [];
  transactions = [];
  next_transaction = 1;
  webhook_events = [];
  finance = pos 0;
}

-- An event with this number that claims this status.
abbrev event : ℕ → PaymentIntentStatus → Payload
event n status = record {
  gateway_event_id = 101 ∷ n ∷ [];
  event_type = [];
  payment_reference = 80 ∷ 73 ∷ 45 ∷ 49 ∷ [];
  claimed_status = some (status_value status);
  gateway_transaction_reference = none;
  malformed = false;
  authorized_amount = none;
  captured_amount = none;
  settled_amount = none;
  gateway_fee = none;
  settlement_timestamp = none;
  failure_code = none;
  failure_reason = none;
  payload_hash = [];
}

abbrev verified : Verdict
verified = record { valid = true; reason = []; stale = false }

abbrev forged : Verdict
forged = record { valid = false; reason = []; stale = false }

abbrev settled_status : Option PaymentIntentStatus
settled_status = some PaymentIntentStatus.settled

-- The same settlement under two event numbers and once more under the first pays once.
settles_once :
    (deliver_all till settled_status
      ((1, event 49 PaymentIntentStatus.settled, verified)
        ∷ (2, event 50 PaymentIntentStatus.settled, verified)
        ∷ (3, event 49 PaymentIntentStatus.settled, verified)
        ∷ [])
      (tables intent_one)).finance
    ≡ pos 1000
unfolding deliver_all process_webhook find_event find_intent to_status can_transition apply_status
    new_event strip strip_left is_space text_eq bump set_status ◌+ℤ◌
settles_once = refl

-- A forged delivery under the number of a genuine event: the genuine one is never applied.
forged_first :
    (deliver_all till settled_status
      ((1, event 49 PaymentIntentStatus.settled, forged)
        ∷ (2, event 49 PaymentIntentStatus.settled, verified)
        ∷ [])
      (tables intent_one)).finance
    ≡ pos 0
unfolding deliver_all process_webhook find_event find_intent to_status can_transition apply_status
    new_event strip strip_left is_space text_eq bump set_status ◌+ℤ◌
forged_first = refl

abbrev refund_walk : List PaymentIntentStatus
refund_walk =
    PaymentIntentStatus.pending ∷ PaymentIntentStatus.authorized ∷ PaymentIntentStatus.captured
    ∷ PaymentIntentStatus.settled ∷ PaymentIntentStatus.refunded ∷ []

walked : Runs PaymentIntentStatus.initiated refund_walk PaymentIntentStatus.refunded
unfolding can_transition
walked =
    move refl (move refl (move refl (move refl (move refl (stay PaymentIntentStatus.refunded)))))

Runs_lem_example :
    (length refund_walk ≤ 6)
    × Climbs refund_walk
    × ((has_settled PaymentIntentStatus.refunded ≡ false) ⊎ (settles refund_walk ≡ true))
Runs_lem_example = Runs_lem walked

is_terminal_iff_example :
    (is_terminal PaymentIntentStatus.expired ≡ true)
    ↔ ((t : PaymentIntentStatus) → can_transition PaymentIntentStatus.expired t ≡ false)
is_terminal_iff_example = is_terminal_iff PaymentIntentStatus.expired

abbrev refused_event : WebhookEvent till
refused_event =
    new_event till (event 49 PaymentIntentStatus.settled) false
      WebhookProcessingStatus.rejected_signature (some (bad_signature []))

process_webhook_again_example :
    process_webhook till settled_status 2
      (event 49 PaymentIntentStatus.settled)
      verified
      (acknowledge till (tables intent_one) refused_event 401 none).0
    ≡ ok (
      record (acknowledge till (tables intent_one) refused_event 401 none).0 {
        webhook_events =
            bump till
              (strip (event 49 PaymentIntentStatus.settled).gateway_event_id)
              (acknowledge till (tables intent_one) refused_event 401 none).0.webhook_events;
      },
      record { webhook_event = bumped till refused_event; http_status = 200; intent = none },
    )
unfolding process_webhook find_event strip strip_left is_space text_eq
process_webhook_again_example =
    process_webhook_again till settled_status settled_status 1 2
      (event 49 PaymentIntentStatus.settled) (event 49 PaymentIntentStatus.settled) forged verified
      (tables intent_one) (acknowledge till (tables intent_one) refused_event 401 none).0
      (acknowledge till (tables intent_one) refused_event 401 none).1 refl refl

process_webhook-Effect_example :
    Effect till settled_status 1
      (event 49 PaymentIntentStatus.settled)
      true
      false
      (tables intent_one)
      (process_webhook till settled_status 1
        (event 49 PaymentIntentStatus.settled)
        verified
        (tables intent_one))
process_webhook-Effect_example =
    process_webhook-Effect till settled_status 1 (event 49 PaymentIntentStatus.settled) verified
      (tables intent_one)

open_one-IsLawful : IsLawful till (tables open_one)
unfolding statuses
open_one-IsLawful = record {
  unique = (tt, tt);
  histories = (
    record {
      start = PaymentIntentStatus.pending;
      opened = inr refl;
      runs = stay PaymentIntentStatus.pending;
    },
    tt,
  );
}

abbrev deliveries : List (ℕ × Payload × Verdict)
deliveries =
    (1, event 48 PaymentIntentStatus.authorized, verified)
    ∷ (2, event 49 PaymentIntentStatus.captured, verified)
    ∷ (3, event 50 PaymentIntentStatus.settled, verified)
    ∷ (4, event 51 PaymentIntentStatus.settled, verified)
    ∷ []

deliver_all_lem_example :
    let t' = deliver_all till settled_status deliveries (tables open_one) in
    IsLawful till t' × All (λ i. Climbs (statuses i.id t'.transactions)) t'.intents
deliver_all_lem_example =
    deliver_all_lem till settled_status deliveries (tables open_one) open_one-IsLawful

abbrev request : IntentRequest
request = record {
  purpose = PaymentPurpose.full_outstanding;
  amount = none;
  actor_id = 5;
  idempotency_key = 107 ∷ [];
}

abbrev no_intents : Intents
no_intents = record { rows = []; next_intent = 1 }

abbrev least : Decimal
least = record { coefficient = pos 5; places = 0 }

create_intent-Answers_example :
    Answers
      (λ n. n ∷ [])
      least
      (λ c. some 4)
      no_intents
      sold
      request
      (create_intent (λ n. n ∷ []) least (λ c. some 4) no_intents sold request)
create_intent-Answers_example =
    create_intent-Answers (λ n. n ∷ []) least (λ c. some 4) no_intents sold request

-- The last installment with 120.00 due and 80.00 of it paid.
abbrev nearly_paid : InstallmentContract
nearly_paid = record sold {
  installments = record overdue_one { principal_paid = pos 8_000; late_fee_charges = [] } ∷ [];
}

abbrev current_request : IntentRequest
current_request = record request { purpose = PaymentPurpose.current_installment }

-- The payment of the current installment is offered, and then refused as too much.
offers_current : (compute_payment_options least nearly_paid).can_pay_current_installment ≡ true
unfolding compute_payment_options principal_outstanding profit_outstanding sort_by ◌-ℤ◌
offers_current = refl

refuses_current :
    create_intent (λ n. n ∷ []) least (λ c. some 4) no_intents nearly_paid current_request
    ≡ err exceeds_outstanding
unfolding create_intent compute_payment_options resolve_requested_amount find_by_key
    build_receivable principal_of profit_of sum_outstanding charges_of principal_outstanding
    profit_outstanding total_due sum_by sort_by money round_half_up strip strip_left is_space ◌+ℤ◌
    ◌-ℤ◌ ◌*ℤ◌
refuses_current = refl

-- The intent before its checkout session.
abbrev new_one : PaymentIntent
new_one = record intent_one { status = PaymentIntentStatus.initiated }

new_one-HasHistory : HasHistory [] new_one
unfolding statuses
new_one-HasHistory = record {
  start = PaymentIntentStatus.initiated;
  opened = inl refl;
  runs = stay PaymentIntentStatus.initiated;
}

create_checkout-Opens_example : Opens [] new_one (create_checkout (ok (116 ∷ [])) 100 30 new_one)
create_checkout-Opens_example =
    create_checkout-Opens (ok (116 ∷ [])) 100 30 [] new_one new_one-HasHistory
