-- ===== src/Gateway/Redelivery.antt =====
-- A webhook that is delivered again, and what a webhook can change at all.
use retail_credit_platform.Common.{
  ℕ, ◌≡◌, refl, subst, ap, ◌∙◌, Bool, true, false, Option, none, some, List, [], ◌∷◌, ◌++◌, arith,
  Bool-cases, Option-cases, inl, inr,
}
use retail_credit_platform.Common.Result.{Result, ok, err, Result-cases}
use retail_credit_platform.Common.Text.{Text, strip, is_empty, text_eq, text_eq_refl}
use retail_credit_platform.Gateway.{
  PaymentIntentStatus, PaymentIntent, WebhookProcessingStatus, to_status, can_transition,
}
use retail_credit_platform.Gateway.Webhooks.{
  Payload, Verdict, Finance, FailureReason, WebhookEvent, Tables, WebhookOutcome, WebhookError,
  find_event, bump, bumped, find_intent, new_event, new_transaction, apply_status, apply_event,
  malformed_amount, resolve_event, process_webhook,
}

module _ (fin : Finance) where
  find_event-append :
      (id : Text) (es : List (WebhookEvent fin)) (e : WebhookEvent fin)
      → find_event fin id es ≡ none
      → text_eq e.gateway_event_id id ≡ true
      → find_event fin id (es ++ e ∷ []) ≡ some e
  unfolding find_event
  find_event-append id [] e h k = rw k refl
  find_event-append id (x ∷ es) e h k = ground (arith, find_event-append id es e)

  find_event-bump :
      (id : Text) (es : List (WebhookEvent fin)) (e : WebhookEvent fin)
      → find_event fin id es ≡ some e
      → find_event fin id (bump fin id es) ≡ some (bumped fin e)
  unfolding find_event bump
  find_event-bump id [] e h = ground arith
  find_event-bump id (x ∷ es) e h = ground (arith, find_event-bump id es e)

  -- The row of the event is the one that the outcome shows.
  abbrev Recorded : Payload → Result WebhookError (Tables fin × WebhookOutcome fin) → Type 0
  Recorded p (err e) = Unit
  Recorded p (ok (t, o)) =
      (is_empty (strip p.gateway_event_id) ≡ false)
      × (find_event fin (strip p.gateway_event_id) t.webhook_events ≡ some o.webhook_event)

  new_event-recorded :
      (t : Tables fin) (p : Payload) (valid : Bool) (s : WebhookProcessingStatus)
      (reason : Option (FailureReason fin))
      → find_event fin (strip p.gateway_event_id) t.webhook_events ≡ none
      → let e = new_event fin p valid s reason in
        find_event fin (strip p.gateway_event_id) (t.webhook_events ++ e ∷ []) ≡ some e
  unfolding new_event
  new_event-recorded t p valid s reason h =
      find_event-append (strip p.gateway_event_id) t.webhook_events _ h
        (text_eq_refl (strip p.gateway_event_id))

  module _ (final_status : Option PaymentIntentStatus) (now : ℕ) (p : Payload) (t : Tables fin)
      (given : is_empty (strip p.gateway_event_id) ≡ false)
      (fresh : find_event fin (strip p.gateway_event_id) t.webhook_events ≡ none) where
    apply_event-Recorded :
        (i : PaymentIntent) (target : PaymentIntentStatus)
        → Recorded p (ok (apply_event fin final_status now t p i target))
    unfolding apply_event
    apply_event-Recorded i target = elim (Bool-cases p.malformed) [
      | inl bad ↦
          rw (bad, apply_event)
            (
              given,
              new_event-recorded t (record p { malformed = true }) true
                  WebhookProcessingStatus.failed (some malformed_amount) fresh,
            )
      | inr good ↦
          rw (good, apply_event)
            (elim (Result-cases (
              apply_status fin final_status now (record i { status = target })
                (new_transaction fin t p i target) target t.finance)) [
                  | inl (reason, e) ↦
                      rw (e, apply_event)
                        (
                          given,
                          new_event-recorded t p true WebhookProcessingStatus.failed (some reason)
                              fresh,
                        )
                  | inr (state, e) ↦
                      rw (e, apply_event)
                        (
                          given,
                          new_event-recorded t p true WebhookProcessingStatus.processed none fresh,
                        )
                ])
    ]

    resolve_event-Recorded : Recorded p (ok (resolve_event fin final_status now t p))
    unfolding resolve_event
    resolve_event-Recorded = elim (Option-cases (find_intent fin p.payment_reference t.intents)) [
      | inl e ↦
          rw (e, resolve_event)
            (given, new_event-recorded t p true WebhookProcessingStatus.failed _ fresh)
      | inr (i, e) ↦
          rw (e, resolve_event)
            (elim (Option-cases (to_status p.claimed_status)) [
              | inl k ↦
                  rw (k, resolve_event)
                    (given, new_event-recorded t p true WebhookProcessingStatus.failed _ fresh)
              | inr (target, k) ↦
                  rw (k, resolve_event)
                    (elim (Bool-cases (can_transition i.status target)) [
                      | inl can ↦ rw (can, resolve_event) (apply_event-Recorded i target)
                      | inr cannot ↦
                          rw (cannot, resolve_event)
                            (
                              given,
                              new_event-recorded t p true
                                  WebhookProcessingStatus.rejected_out_of_order _ fresh,
                            )
                    ])
            ])
    ]

  process_webhook-Recorded :
      (final_status : Option PaymentIntentStatus) (now : ℕ) (p : Payload) (v : Verdict)
      (t : Tables fin)
      → Recorded p (process_webhook fin final_status now p v t)
  unfolding process_webhook
  process_webhook-Recorded final_status now p v t =
      let id = strip p.gateway_event_id in
      elim (Bool-cases (is_empty id)) [
        | inl empty ↦ rw (empty, process_webhook) tt
        | inr given ↦
            rw (given, process_webhook)
              (elim (Option-cases (find_event fin id t.webhook_events)) [
                | inr (e, known) ↦
                    rw (known, process_webhook) (given, find_event-bump id t.webhook_events e known)
                | inl fresh ↦
                    rw (fresh, process_webhook)
                      (elim (Bool-cases v.valid) [
                        | inr invalid ↦
                            rw (invalid, process_webhook)
                              (
                                given,
                                new_event-recorded t p false
                                    WebhookProcessingStatus.rejected_signature _ fresh,
                              )
                        | inl valid ↦
                            rw (valid, process_webhook)
                              (elim (Bool-cases v.stale) [
                                | inl stale ↦
                                    rw (stale, process_webhook)
                                      (
                                        given,
                                        new_event-recorded t p true
                                            WebhookProcessingStatus.rejected_stale _ fresh,
                                      )
                                | inr prompt ↦
                                    rw (prompt, process_webhook)
                                      (resolve_event-Recorded final_status now p t given fresh)
                              ])
                      ])
              ])
      ]

  replays :
      (final_status : Option PaymentIntentStatus) (now : ℕ) (p : Payload) (v : Verdict)
      (t : Tables fin) (e : WebhookEvent fin)
      → is_empty (strip p.gateway_event_id) ≡ false
      → find_event fin (strip p.gateway_event_id) t.webhook_events ≡ some e
      → process_webhook fin final_status now p v t
        ≡ ok (
          record t { webhook_events = bump fin (strip p.gateway_event_id) t.webhook_events },
          record { webhook_event = bumped fin e; http_status = 200; intent = none },
        )
  unfolding process_webhook
  replays final_status now p v t e given known = rw (given, known, process_webhook) refl

  -- Once an event was handled, with whatever outcome, every later delivery under its id is acknowledged
  -- with 200, shows the row of the first one with one retry more, and changes nothing else: no intent,
  -- no transaction, no money. This is so for a first delivery that failed or had a bad signature too.
  pub process_webhook_again :
      (final_status final_status' : Option PaymentIntentStatus) (now now' : ℕ) (p p' : Payload)
      (v v' : Verdict) (t t' : Tables fin) (o : WebhookOutcome fin)
      → process_webhook fin final_status now p v t ≡ ok (t', o)
      → strip p'.gateway_event_id ≡ strip p.gateway_event_id
      → process_webhook fin final_status' now' p' v' t'
        ≡ ok (
          record t' { webhook_events = bump fin (strip p.gateway_event_id) t'.webhook_events },
          record { webhook_event = bumped fin o.webhook_event; http_status = 200; intent = none },
        )
  process_webhook_again final_status final_status' now now' p p' v v' t t' o e same =
      let (given, known) =
        subst (λ r. Recorded p r) e (process_webhook-Recorded final_status now p v t) in
      replays final_status' now' p' v' t' o.webhook_event (ap is_empty same ∙ given)
        (ap (λ id. find_event fin id t'.webhook_events) same ∙ known)
      ∙ ap
          (λ id. ok (
            record t' { webhook_events = bump fin id t'.webhook_events },
            record { webhook_event = bumped fin o.webhook_event; http_status = 200; intent = none },
          ))
          same
