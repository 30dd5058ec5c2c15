-- ===== src/Gateway/Effect.antt =====
-- What a webhook can change at all, and under which conditions.
use retail_credit_platform.Common.{
  ℕ, ◌≡◌, refl, Bool, true, false, Option, none, some, [], ◌∷◌, ◌++◌, Bool-cases, Option-cases, inl,
  inr, ◌⊎◌,
}
use retail_credit_platform.Common.Result.{Result, ok, err, Result-cases}
use retail_credit_platform.Common.Text.{strip, is_empty}
use retail_credit_platform.Gateway.{PaymentIntentStatus, PaymentIntent, to_status, can_transition}
use retail_credit_platform.Gateway.Webhooks.{
  Payload, Verdict, Finance, FailureReason, WebhookEvent, Tables, WebhookOutcome, WebhookError,
  find_event, find_intent, set_status, new_transaction, apply_status, apply_event, resolve_event,
  process_webhook,
}

module _ (fin : Finance) (final_status : Option PaymentIntentStatus) (now : ℕ) (p : Payload) where
  -- A verified, new event that moves its intent along the graph, and whose effect did not raise.
  pub record Applied (is_valid is_stale : Bool) (t t' : Tables fin) : Type 0 where
    pub intent : PaymentIntent
    pub target : PaymentIntentStatus
    pub fresh : find_event fin (strip p.gateway_event_id) t.webhook_events ≡ none
    pub valid : is_valid ≡ true
    pub prompt : is_stale ≡ false
    pub found : find_intent fin p.payment_reference t.intents ≡ some intent
    pub claimed : to_status p.claimed_status ≡ some target
    pub permitted : can_transition intent.status target ≡ true
    pub parsed : p.malformed ≡ false
    pub moved : t'.intents ≡ set_status fin p.payment_reference target t.intents
    pub booked : t'.transactions ≡ t.transactions ++ new_transaction fin t p intent target ∷ []
    pub settled :
        apply_status fin final_status now
          (record intent { status = target })
          (new_transaction fin t p intent target)
          target
          t.finance
        ≡ ok t'.finance

  -- Why a webhook is left without effect.
  pub data Skipped (is_valid is_stale : Bool) (t : Tables fin) : Type 0 where
    was_known :
        (e : WebhookEvent fin)
        → find_event fin (strip p.gateway_event_id) t.webhook_events ≡ some e
        → Skipped is_valid is_stale t
    was_invalid : is_valid ≡ false → Skipped is_valid is_stale t
    was_stale : is_stale ≡ true → Skipped is_valid is_stale t
    lacks_intent :
        find_intent fin p.payment_reference t.intents ≡ none → Skipped is_valid is_stale t
    lacks_status : to_status p.claimed_status ≡ none → Skipped is_valid is_stale t
    is_forbidden :
        (i : PaymentIntent) (target : PaymentIntentStatus)
        → find_intent fin p.payment_reference t.intents ≡ some i
        → to_status p.claimed_status ≡ some target
        → can_transition i.status target ≡ false
        → Skipped is_valid is_stale t
    is_malformed : p.malformed ≡ true → Skipped is_valid is_stale t
    has_raised :
        (i : PaymentIntent) (target : PaymentIntentStatus) (reason : FailureReason fin)
        → find_intent fin p.payment_reference t.intents ≡ some i
        → to_status p.claimed_status ≡ some target
        → apply_status fin final_status now
            (record i { status = target })
            (new_transaction fin t p i target)
            target
            t.finance
          ≡ err reason
        → Skipped is_valid is_stale t

  abbrev pub Unchanged : Tables fin → Tables fin → Type 0
  Unchanged t t' =
      (t'.intents ≡ t.intents) × (t'.transactions ≡ t.transactions) × (t'.finance ≡ t.finance)

  abbrev pub Effect :
      (is_valid is_stale : Bool)
      → Tables fin
      → Result WebhookError (Tables fin × WebhookOutcome fin)
      → Type 0
  Effect is_valid is_stale t (err e) = is_empty (strip p.gateway_event_id) ≡ true
  Effect is_valid is_stale t (ok (t', o)) =
      (Unchanged t t' × Skipped is_valid is_stale t) ⊎ Applied is_valid is_stale t t'

  module _ (t : Tables fin)
      (fresh : find_event fin (strip p.gateway_event_id) t.webhook_events ≡ none) where
    apply_event-Effect :
        (i : PaymentIntent) (target : PaymentIntentStatus)
        → find_intent fin p.payment_reference t.intents ≡ some i
        → to_status p.claimed_status ≡ some target
        → can_transition i.status target ≡ true
        → Effect true false t (ok (apply_event fin final_status now t p i target))
    unfolding apply_event
    apply_event-Effect i target found claimed permitted = elim (Bool-cases p.malformed) [
      | inl bad ↦ rw (bad, apply_event) (inl ((refl, refl, refl), is_malformed refl))
      | inr good ↦
          rw (good, apply_event)
            (elim (Result-cases (
              apply_status fin final_status now (record i { status = target })
                (new_transaction fin t p i target) target t.finance)) [
                  | inl (reason, e) ↦
                      rw (e, apply_event)
                        (inl ((refl, refl, refl), has_raised i target reason found claimed e))
                  | inr (state, e) ↦
                      rw (e, apply_event)
                        (inr (record {
                          intent = i;
                          target = target;
                          fresh = fresh;
                          valid = refl;
                          prompt = refl;
                          found = found;
                          claimed = claimed;
                          permitted = permitted;
                          parsed = refl;
                          moved = refl;
                          booked = refl;
                          settled = e;
                        }))
                ])
    ]

    resolve_event-Effect : Effect true false t (ok (resolve_event fin final_status now t p))
    unfolding resolve_event
    resolve_event-Effect = elim (Option-cases (find_intent fin p.payment_reference t.intents)) [
      | inl e ↦ rw (e, resolve_event) (inl ((refl, refl, refl), lacks_intent e))
      | inr (i, e) ↦
          rw (e, resolve_event)
            (elim (Option-cases (to_status p.claimed_status)) [
              | inl k ↦ rw (k, resolve_event) (inl ((refl, refl, refl), lacks_status k))
              | inr (target, k) ↦
                  rw (k, resolve_event)
                    (elim (Bool-cases (can_transition i.status target)) [
                      | inl can ↦ rw (can, resolve_event) (apply_event-Effect i target e k can)
                      | inr cannot ↦
                          rw (cannot, resolve_event)
                            (inl ((refl, refl, refl), is_forbidden i target e k cannot))
                    ])
            ])
    ]

  -- A webhook is refused with an error only for lack of an event id. Where its event is new, its
  -- signature valid and not stale, its intent known, the status that it claims known and reached from the
  -- intent's by a permitted transition, its amounts numbers, and the financial effect of that status does
  -- not raise, the intent takes that status, one transaction is added, and the effect is the new state. Where one of
  -- these fails, the intents, the transactions and the financial state are left as they were.
  pub process_webhook-Effect :
      (v : Verdict) (t : Tables fin)
      → Effect v.valid v.stale t (process_webhook fin final_status now p v t)
  unfolding process_webhook
  process_webhook-Effect v t =
      let id = strip p.gateway_event_id in
      elim (Bool-cases (is_empty id)) [
        | inl empty ↦ rw (empty, process_webhook) empty
        | inr given ↦
            rw (given, process_webhook)
              (elim (Option-cases (find_event fin id t.webhook_events)) [
                | inr (e, known) ↦
                    rw (known, process_webhook) (inl ((refl, refl, refl), was_known e known))
                | inl fresh ↦
                    rw (fresh, process_webhook)
                      (elim (Bool-cases v.valid) [
                        | inr invalid ↦
                            rw (invalid, process_webhook)
                              (inl ((refl, refl, refl), was_invalid refl))
                        | inl valid ↦
                            rw (valid, process_webhook)
                              (elim (Bool-cases v.stale) [
                                | inl stale ↦
                                    rw (stale, process_webhook)
                                      (inl ((refl, refl, refl), was_stale refl))
                                | inr prompt ↦
                                    rw (prompt, process_webhook) (resolve_event-Effect t fresh)
                              ])
                      ])
              ])
      ]
