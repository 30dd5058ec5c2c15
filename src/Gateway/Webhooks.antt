-- ===== src/Gateway/Webhooks.antt =====
-- app/services/gateway_webhooks.py: the handling of a webhook that the gateway sends.
use retail_credit_platform.Common.{
  ℕ, ◌+◌, ℤ, Bool, true, false, not, Option, none, some, List, [], ◌∷◌, ◌++◌, if◌then◌else◌, any,
}
use retail_credit_platform.Common.Result.{Result, ok, err}
use retail_credit_platform.Common.Text.{Text, strip, is_empty, text_eq}
use retail_credit_platform.Gateway.{
  PaymentIntentStatus, PaymentIntent, GatewayTransaction, WebhookProcessingStatus, same_status,
  to_status, can_transition,
}

-- What the payload of a webhook carries, as `json.loads` and the parsing of the amounts and times
-- leave it; `malformed` says that one of the amounts is no number, so that parsing it raises.
pub record Payload : Type 0 where
  pub gateway_event_id : Text
  pub event_type : Text
  pub payment_reference : Text
  pub claimed_status : Option Text
  pub gateway_transaction_reference : Option Text
  pub malformed : Bool
  pub authorized_amount : Option ℤ
  pub captured_amount : Option ℤ
  pub settled_amount : Option ℤ
  pub gateway_fee : Option ℤ
  pub settlement_timestamp : Option ℕ
  pub failure_code : Option Text
  pub failure_reason : Option Text
  pub payload_hash : Text

-- What app/services/webhook_security.py finds: whether the signature is valid, else why not, and
-- whether its time is outside the replay window.
pub record Verdict : Type 0 where
  pub valid : Bool
  pub reason : Text
  pub stale : Bool

-- What settling a payment or taking it back does, as webhooks see it: a state, and two operations on it
-- that may raise.
pub record Finance : Type 1 where
  pub State : Type 0
  pub Raised : Type 0
  pub apply_final_allocation :
      PaymentIntent → GatewayTransaction → (now : ℕ) → State → Result Raised State
  pub apply_reversal : PaymentIntent → PaymentIntentStatus → (now : ℕ) → State → Result Raised State

pub data WebhookError : Type 0 where
  gateway_event_id_required : WebhookError

module _ (fin : Finance) where
  pub data FailureReason : Type 0 where
    bad_signature : Text → FailureReason
    outside_window no_intent unrecognised_status malformed_amount bad_configuration : FailureReason
    not_permitted : (current target : PaymentIntentStatus) → FailureReason
    raised : fin.Raised → FailureReason

  pub record WebhookEvent : Type 0 where
    pub gateway_event_id : Text
    pub event_type : Text
    pub payment_reference : Text
    pub claimed_status : Option Text
    pub payload_hash : Text
    pub signature_valid : Bool
    pub processing_status : WebhookProcessingStatus
    pub retry_count : ℕ
    pub failure_reason : Option FailureReason

  -- The tables that the handler reads and writes.
  pub record Tables : Type 0 where
    pub intents : List PaymentIntent
    pub transactions : List GatewayTransaction
    pub next_transaction : ℕ
    pub webhook_events : List WebhookEvent
    pub finance : fin.State

  pub record WebhookOutcome : Type 0 where
    pub webhook_event : WebhookEvent
    pub http_status : ℕ
    pub intent : Option PaymentIntent

  unfoldable pub find_event : Text → List WebhookEvent → Option WebhookEvent
  find_event id [] = none
  find_event id (e ∷ es) = if text_eq e.gateway_event_id id then some e else find_event id es

  abbrev pub bumped : WebhookEvent → WebhookEvent
  bumped e = record e { retry_count = e.retry_count + 1 }

  -- `existing.retry_count += 1` on the row that is found.
  unfoldable pub bump : Text → List WebhookEvent → List WebhookEvent
  bump id [] = []
  bump id (e ∷ es) = if text_eq e.gateway_event_id id then bumped e ∷ es else e ∷ bump id es

  unfoldable pub find_intent : Text → List PaymentIntent → Option PaymentIntent
  find_intent reference [] = none
  find_intent reference (i ∷ is) =
      if text_eq i.payment_reference reference then some i else find_intent reference is

  -- `intent.status = target_status` on the row that is found.
  unfoldable pub set_status : Text → PaymentIntentStatus → List PaymentIntent → List PaymentIntent
  set_status reference target [] = []
  set_status reference target (i ∷ is) =
      if text_eq i.payment_reference reference
      then record i { status = target } ∷ is
      else i ∷ set_status reference target is

  -- `str(value) if value else None`
  abbrev pub if_given : Option Text → Option Text
  if_given none = none
  if_given (some []) = none
  if_given (some (c ∷ cs)) = some (c ∷ cs)

  unfoldable pub new_event :
      Payload → Bool → WebhookProcessingStatus → Option FailureReason → WebhookEvent
  new_event p valid status reason = record {
    gateway_event_id = strip p.gateway_event_id;
    event_type = p.event_type;
    payment_reference = p.payment_reference;
    claimed_status = if_given p.claimed_status;
    payload_hash = p.payload_hash;
    signature_valid = valid;
    processing_status = status;
    retry_count = 0;
    failure_reason = reason;
  }

  abbrev pub failed_event : Payload → FailureReason → WebhookEvent
  failed_event p reason = new_event p true WebhookProcessingStatus.failed (some reason)

  -- The event is recorded with its outcome, and nothing else changes.
  unfoldable pub acknowledge :
      Tables → WebhookEvent → (http_status : ℕ) → Option PaymentIntent → Tables × WebhookOutcome
  acknowledge t e http_status intent = (
    record t { webhook_events = t.webhook_events ++ e ∷ [] },
    record { webhook_event = e; http_status = http_status; intent = intent },
  )

  -- `value or fallback`: an empty text is false in Python.
  abbrev pub or_else : Option Text → Text → Text
  or_else none fallback = fallback
  or_else (some []) fallback = fallback
  or_else (some (c ∷ cs)) fallback = c ∷ cs

  unfoldable pub new_transaction :
      Tables → Payload → PaymentIntent → PaymentIntentStatus → GatewayTransaction
  new_transaction t p intent target = record {
    id = t.next_transaction;
    payment_intent_id = intent.id;
    gateway_transaction_reference =
        or_else p.gateway_transaction_reference (strip p.gateway_event_id);
    gateway_status = target;
    authorized_amount = p.authorized_amount;
    captured_amount = p.captured_amount;
    settled_amount = p.settled_amount;
    gateway_fee = p.gateway_fee;
    settlement_timestamp = p.settlement_timestamp;
    failure_code = p.failure_code;
    failure_reason = p.failure_reason;
  }

  -- `_REVERSAL_STATUSES`
  abbrev pub is_reversal : PaymentIntentStatus → Bool
  is_reversal s =
      any (λ t. same_status t s)
        (PaymentIntentStatus.reversed ∷ PaymentIntentStatus.refunded
          ∷ PaymentIntentStatus.chargeback ∷ [])

  -- The financial effect of the new status. The configured final status is read here, and a
  -- configuration that names no status raises.
  unfoldable pub apply_status :
      (final_status : Option PaymentIntentStatus) (now : ℕ)
      → PaymentIntent
      → GatewayTransaction
      → PaymentIntentStatus
      → fin.State
      → Result FailureReason fin.State
  apply_status none now intent transaction target state = err bad_configuration
  apply_status (some final) now intent transaction target state =
      let settled = fin.apply_final_allocation intent transaction now state in
      let reversed = fin.apply_reversal intent target now state in
      if same_status target final
      then as_reason settled
      else if is_reversal target
      then as_reason reversed
      else ok state
    where
      as_reason : Result fin.Raised fin.State → Result FailureReason fin.State
      as_reason (ok s) = ok s
      as_reason (err e) = err (raised e)

  -- Step 5: the amounts are parsed; the transaction row, the new status and its effect, or a roll-back of them.
  unfoldable pub apply_event :
      (final_status : Option PaymentIntentStatus) (now : ℕ)
      → Tables
      → Payload
      → PaymentIntent
      → PaymentIntentStatus
      → Tables × WebhookOutcome
  unfolding new_transaction acknowledge
  apply_event final_status now t p intent target =
      let transaction = new_transaction t p intent target in
      let moved = record intent { status = target } in
      if p.malformed
      then acknowledge t (failed_event p malformed_amount) 500 none
      else elim (apply_status final_status now moved transaction target t.finance) [
        | err reason ↦ acknowledge t (failed_event p reason) 500 none
        | ok state ↦
            acknowledge
              (record t {
                intents = set_status p.payment_reference target t.intents;
                transactions = t.transactions ++ transaction ∷ [];
                next_transaction = t.next_transaction + 1;
                finance = state;
              })
              (new_event p true WebhookProcessingStatus.processed none) 200 (some moved)
      ]

  -- Step 4: the intent and the status that a verified event claims.
  unfoldable pub resolve_event :
      (final_status : Option PaymentIntentStatus) (now : ℕ)
      → Tables
      → Payload
      → Tables × WebhookOutcome
  unfolding apply_event
  resolve_event final_status now t p = elim (find_intent p.payment_reference t.intents) [
    | none ↦ acknowledge t (failed_event p no_intent) 200 none
    | some intent ↦ elim (to_status p.claimed_status) [
      | none ↦ acknowledge t (failed_event p unrecognised_status) 200 (some intent)
      | some target ↦
          if not (can_transition intent.status target)
          then acknowledge t
              (new_event p true WebhookProcessingStatus.rejected_out_of_order
                (some (not_permitted intent.status target)))
              200 (some intent)
          else apply_event final_status now t p intent target
    ]
  ]

  unfoldable pub process_webhook :
      (final_status : Option PaymentIntentStatus) (now : ℕ)
      → Payload
      → Verdict
      → Tables
      → Result WebhookError (Tables × WebhookOutcome)
  unfolding resolve_event
  process_webhook final_status now p v t =
      let id = strip p.gateway_event_id in
      let resolved = resolve_event final_status now t p in
      if is_empty id then err gateway_event_id_required else elim (find_event id t.webhook_events) [
        | some existing ↦ ok (
          record t { webhook_events = bump id t.webhook_events },
          record { webhook_event = bumped existing; http_status = 200; intent = none },
        )
        | none ↦
            if not v.valid
            then ok (
                acknowledge t
                  (new_event p false WebhookProcessingStatus.rejected_signature
                    (some (bad_signature v.reason)))
                  401 none)
            else if v.stale
            then ok (
                acknowledge t
                  (new_event p true WebhookProcessingStatus.rejected_stale (some outside_window))
                  400 none)
            else ok resolved
      ]
