-- ===== src/Gateway.antt =====
-- app/models/payment_gateway.py: payment intents, what the gateway reported on them, and the graph of
-- their statuses.
pub mod Graph
pub mod Intents
pub mod Webhooks
pub mod Redelivery
pub mod Effect
pub mod Lawful
pub mod Checkout
pub mod Requests
use retail_credit_platform.Common.{
  ℕ, ℤ, Bool, true, false, ◌==◌, Option, none, some, List, [], ◌∷◌, any, if◌then◌else◌,
}
use retail_credit_platform.Common.Text.{Text, text_eq}

pub data PaymentIntentStatus : Type 0 where
  initiated pending authorized captured settled failed cancelled expired reversed partially_refunded
        refunded chargeback :
      PaymentIntentStatus

-- The position of a status in its declaration, to compare statuses with.
abbrev pub status_code : PaymentIntentStatus → ℕ
status_code PaymentIntentStatus.initiated = 0
status_code PaymentIntentStatus.pending = 1
status_code PaymentIntentStatus.authorized = 2
status_code PaymentIntentStatus.captured = 3
status_code PaymentIntentStatus.settled = 4
status_code PaymentIntentStatus.failed = 5
status_code PaymentIntentStatus.cancelled = 6
status_code PaymentIntentStatus.expired = 7
status_code PaymentIntentStatus.reversed = 8
status_code PaymentIntentStatus.partially_refunded = 9
status_code PaymentIntentStatus.refunded = 10
status_code PaymentIntentStatus.chargeback = 11

abbrev pub same_status : PaymentIntentStatus → PaymentIntentStatus → Bool
same_status s t = status_code s == status_code t

-- The texts of the statuses, as code points: their names in capitals.
abbrev pub status_value : PaymentIntentStatus → Text
status_value PaymentIntentStatus.initiated = 73 ∷ 78 ∷ 73 ∷ 84 ∷ 73 ∷ 65 ∷ 84 ∷ 69 ∷ 68 ∷ []
status_value PaymentIntentStatus.pending = 80 ∷ 69 ∷ 78 ∷ 68 ∷ 73 ∷ 78 ∷ 71 ∷ []
status_value PaymentIntentStatus.authorized = 65 ∷ 85 ∷ 84 ∷ 72 ∷ 79 ∷ 82 ∷ 73 ∷ 90 ∷ 69 ∷ 68 ∷ []
status_value PaymentIntentStatus.captured = 67 ∷ 65 ∷ 80 ∷ 84 ∷ 85 ∷ 82 ∷ 69 ∷ 68 ∷ []
status_value PaymentIntentStatus.settled = 83 ∷ 69 ∷ 84 ∷ 84 ∷ 76 ∷ 69 ∷ 68 ∷ []
status_value PaymentIntentStatus.failed = 70 ∷ 65 ∷ 73 ∷ 76 ∷ 69 ∷ 68 ∷ []
status_value PaymentIntentStatus.cancelled = 67 ∷ 65 ∷ 78 ∷ 67 ∷ 69 ∷ 76 ∷ 76 ∷ 69 ∷ 68 ∷ []
status_value PaymentIntentStatus.expired = 69 ∷ 88 ∷ 80 ∷ 73 ∷ 82 ∷ 69 ∷ 68 ∷ []
status_value PaymentIntentStatus.reversed = 82 ∷ 69 ∷ 86 ∷ 69 ∷ 82 ∷ 83 ∷ 69 ∷ 68 ∷ []
status_value PaymentIntentStatus.partially_refunded =
    80 ∷ 65 ∷ 82 ∷ 84 ∷ 73 ∷ 65 ∷ 76 ∷ 76 ∷ 89 ∷ 95 ∷ 82 ∷ 69 ∷ 70 ∷ 85 ∷ 78 ∷ 68 ∷ 69 ∷ 68 ∷ []
status_value PaymentIntentStatus.refunded = 82 ∷ 69 ∷ 70 ∷ 85 ∷ 78 ∷ 68 ∷ 69 ∷ 68 ∷ []
status_value PaymentIntentStatus.chargeback = 67 ∷ 72 ∷ 65 ∷ 82 ∷ 71 ∷ 69 ∷ 66 ∷ 65 ∷ 67 ∷ 75 ∷ []

abbrev pub all_statuses : List PaymentIntentStatus
all_statuses =
    PaymentIntentStatus.initiated ∷ PaymentIntentStatus.pending ∷ PaymentIntentStatus.authorized
    ∷ PaymentIntentStatus.captured ∷ PaymentIntentStatus.settled ∷ PaymentIntentStatus.failed
    ∷ PaymentIntentStatus.cancelled ∷ PaymentIntentStatus.expired ∷ PaymentIntentStatus.reversed
    ∷ PaymentIntentStatus.partially_refunded ∷ PaymentIntentStatus.refunded
    ∷ PaymentIntentStatus.chargeback ∷ []

abbrev pub status_among : Text → List PaymentIntentStatus → Option PaymentIntentStatus
status_among value [] = none
status_among value (s ∷ ss) =
    if text_eq (status_value s) value then some s else status_among value ss

-- `PaymentIntentStatus(str(value))`, with `none` for its `ValueError` and for the value `None`.
unfoldable pub to_status : Option Text → Option PaymentIntentStatus
to_status none = none
to_status (some value) = status_among value all_statuses

-- `PAYMENT_INTENT_TRANSITIONS`
abbrev pub transitions : PaymentIntentStatus → List PaymentIntentStatus
transitions PaymentIntentStatus.initiated =
    PaymentIntentStatus.pending ∷ PaymentIntentStatus.cancelled ∷ PaymentIntentStatus.expired ∷ []
transitions PaymentIntentStatus.pending =
    PaymentIntentStatus.authorized ∷ PaymentIntentStatus.failed ∷ PaymentIntentStatus.cancelled
    ∷ PaymentIntentStatus.expired ∷ []
transitions PaymentIntentStatus.authorized =
    PaymentIntentStatus.captured ∷ PaymentIntentStatus.failed ∷ PaymentIntentStatus.expired ∷ []
transitions PaymentIntentStatus.captured =
    PaymentIntentStatus.settled ∷ PaymentIntentStatus.failed ∷ []
transitions PaymentIntentStatus.settled =
    PaymentIntentStatus.reversed ∷ PaymentIntentStatus.partially_refunded
    ∷ PaymentIntentStatus.refunded ∷ PaymentIntentStatus.chargeback ∷ []
transitions PaymentIntentStatus.failed = []
transitions PaymentIntentStatus.cancelled = []
transitions PaymentIntentStatus.expired = []
transitions PaymentIntentStatus.reversed = []
transitions PaymentIntentStatus.partially_refunded = PaymentIntentStatus.refunded ∷ []
transitions PaymentIntentStatus.refunded = []
transitions PaymentIntentStatus.chargeback = []

-- `TERMINAL_STATUSES`
abbrev pub terminal_statuses : List PaymentIntentStatus
terminal_statuses =
    PaymentIntentStatus.failed ∷ PaymentIntentStatus.cancelled ∷ PaymentIntentStatus.expired
    ∷ PaymentIntentStatus.reversed ∷ PaymentIntentStatus.refunded ∷ PaymentIntentStatus.chargeback
    ∷ []

unfoldable pub can_transition : PaymentIntentStatus → PaymentIntentStatus → Bool
can_transition current target =
    if same_status current target
    then false
    else any (λ t. same_status t target) (transitions current)

pub data PaymentPurpose : Type 0 where
  current_installment overdue_amount full_outstanding partial : PaymentPurpose

pub record PaymentIntent : Type 0 where
  pub id : ℕ
  pub payment_reference : Text
  pub idempotency_key : Text
  pub customer_id : ℕ
  pub contract_id : ℕ
  pub requested_amount : ℤ
  pub payment_purpose : PaymentPurpose
  pub status : PaymentIntentStatus
  pub gateway_session_id : Option Text
  pub expires_at : Option ℕ
  pub created_by : ℕ

pub record GatewayTransaction : Type 0 where
  pub id : ℕ
  pub payment_intent_id : ℕ
  pub gateway_transaction_reference : Text
  pub gateway_status : PaymentIntentStatus
  pub authorized_amount : Option ℤ
  pub captured_amount : Option ℤ
  pub settled_amount : Option ℤ
  pub gateway_fee : Option ℤ
  pub settlement_timestamp : Option ℕ
  pub failure_code : Option Text
  pub failure_reason : Option Text

pub data WebhookProcessingStatus : Type 0 where
  received processed duplicate rejected_signature rejected_stale rejected_out_of_order failed :
      WebhookProcessingStatus
