-- ===== src/Gateway/Requests.antt =====
-- What a request for a payment intent has done, on every branch.
use retail_credit_platform.Common.{
  ℕ, ◌+◌, ◌≡◌, refl, subst, ℤ, pos, ◌≤ℤ◌, ◌<ℤ◌, ltb_ℤ, leb_ℤ, leb_ℤ→gt, leb_ℤ→le, ltb_ℤ→lt,
  ltb_ℤ→ge, true, false, Option, none, some, [], ◌∷◌, ◌++◌, Bool-cases, Option-cases, inl, inr,
  if◌then◌else◌, ◌⊎◌,
}
use retail_credit_platform.Common.Rounding.{Decimal}
use retail_credit_platform.Common.Result.{Result, ok, err, Result-cases}
use retail_credit_platform.Common.Text.{Text, strip, is_empty}
use retail_credit_platform.Contract.{InstallmentContract, is_active}
use retail_credit_platform.Gateway.{PaymentIntentStatus}
use retail_credit_platform.Gateway.Intents.{
  IntentError, Intents, IntentOutcome, IntentRequest, compute_payment_options,
  resolve_requested_amount, find_by_key, new_intent, create_intent,
}
use retail_credit_platform.Payments.Record.{total_outstanding}

module _ (format_reference : ℕ → Text) (minimum_partial : Decimal)
    (owner : InstallmentContract → Option ℕ) where
  -- An intent that was created for an active contract with a known customer, for a positive amount
  -- within the total outstanding.
  pub record Created (t : Intents) (c : InstallmentContract) (r : IntentRequest) (t' : Intents)
      (o : IntentOutcome) : Type 0 where
    pub fresh : find_by_key (strip r.idempotency_key) t.rows ≡ none
    pub active : is_active c.status ≡ true
    pub owned : owner c ≡ some o.intent.customer_id
    pub resolved :
        resolve_requested_amount (compute_payment_options minimum_partial c) r.purpose r.amount
        ≡ ok o.intent.requested_amount
    pub positive : pos 0 <ℤ o.intent.requested_amount
    pub within : o.intent.requested_amount ≤ℤ total_outstanding c
    pub starts : o.intent.status ≡ PaymentIntentStatus.initiated
    pub numbered : o.intent.id ≡ t.next_intent
    pub appended : t'.rows ≡ t.rows ++ o.intent ∷ []

  -- The refusals, each with its condition.
  pub data Refused (t : Intents) (c : InstallmentContract) (r : IntentRequest)
      : IntentError → Type 0 where
    without_key :
        is_empty (strip r.idempotency_key) ≡ true
        → Refused t c r IntentError.idempotency_key_required
    inactive : is_active c.status ≡ false → Refused t c r IntentError.contract_not_active
    ownerless : owner c ≡ none → Refused t c r IntentError.no_customer
    unresolved :
        {e : IntentError}
        → resolve_requested_amount (compute_payment_options minimum_partial c) r.purpose r.amount
          ≡ err e
        → Refused t c r e
    not_positive :
        {z : ℤ}
        → resolve_requested_amount (compute_payment_options minimum_partial c) r.purpose r.amount
          ≡ ok z
        → z ≤ℤ pos 0
        → Refused t c r IntentError.amount_not_positive
    too_much :
        {z : ℤ}
        → resolve_requested_amount (compute_payment_options minimum_partial c) r.purpose r.amount
          ≡ ok z
        → total_outstanding c <ℤ z
        → Refused t c r IntentError.exceeds_outstanding

  abbrev pub Answers :
      Intents
      → InstallmentContract
      → IntentRequest
      → Result IntentError (Intents × IntentOutcome)
      → Type 0
  Answers t c r (ok (t', o)) =
      ((o.replayed ≡ true)
        × (t' ≡ t)
        × (find_by_key (strip r.idempotency_key) t.rows ≡ some o.intent))
      ⊎ ((o.replayed ≡ false) × Created t c r t' o)
  Answers t c r (err e) = Refused t c r e

  options_total :
      (c : InstallmentContract)
      → (compute_payment_options minimum_partial c).total_outstanding ≡ total_outstanding c
  unfolding compute_payment_options total_outstanding
  options_total c = refl

  created :
      (t : Intents) (c : InstallmentContract) (r : IntentRequest) (customer : ℕ) (z : ℤ)
      → find_by_key (strip r.idempotency_key) t.rows ≡ none
      → is_active c.status ≡ true
      → owner c ≡ some customer
      → resolve_requested_amount (compute_payment_options minimum_partial c) r.purpose r.amount
        ≡ ok z
      → let options = compute_payment_options minimum_partial c in
        let intent = new_intent format_reference minimum_partial owner t c r customer z in
        Answers t c r (
          if leb_ℤ z (pos 0)
          then err IntentError.amount_not_positive
          else if ltb_ℤ options.total_outstanding z
          then err IntentError.exceeds_outstanding
          else ok (
            record { rows = t.rows ++ intent ∷ []; next_intent = t.next_intent + 1 },
            record { intent = intent; replayed = false },
          ))
  unfolding new_intent
  created t c r customer z fresh active owned resolved =
      let options = compute_payment_options minimum_partial c in
      elim (Bool-cases (leb_ℤ z (pos 0))) [
        | inl low ↦ rw low (not_positive resolved (leb_ℤ→le z (pos 0) low))
        | inr high ↦ rw high (elim (Bool-cases (ltb_ℤ options.total_outstanding z)) [
          | inl over ↦ rw over (
              too_much resolved
                (subst (λ k. k <ℤ z) (options_total c) (ltb_ℤ→lt options.total_outstanding z over)))
          | inr covered ↦ rw covered (
              inr (
                refl,
                record {
                  fresh = fresh;
                  active = active;
                  owned = owned;
                  resolved = resolved;
                  positive = leb_ℤ→gt z (pos 0) high;
                  within =
                      subst (λ k. z ≤ℤ k) (options_total c)
                        (ltb_ℤ→ge options.total_outstanding z covered);
                  starts = refl;
                  numbered = refl;
                  appended = refl;
                },
              ))
        ])
      ]

  -- A request for an intent ends in one of these ways, each under its own condition: it is refused for
  -- a missing key, a contract that is not active, a contract without a customer, a purpose that gives
  -- no amount, an amount that is not positive, or one above the total outstanding of the contract; it
  -- replays the intent that has its key, changing nothing; or it adds a new intent in the first status,
  -- for the customer of an active contract and an amount between zero and the total outstanding.
  pub create_intent-Answers :
      (t : Intents) (c : InstallmentContract) (r : IntentRequest)
      → Answers t c r (create_intent format_reference minimum_partial owner t c r)
  unfolding create_intent new_intent
  create_intent-Answers t c r =
      let key = strip r.idempotency_key in
      let options = compute_payment_options minimum_partial c in
      elim (Bool-cases (is_empty key)) [
        | inl empty ↦ rw (empty, create_intent) (without_key empty)
        | inr given ↦
            rw (given, create_intent)
              (elim (Option-cases (find_by_key key t.rows)) [
                | inr (i, e) ↦ rw (e, create_intent) (inl (refl, refl, e))
                | inl fresh ↦
                    rw (fresh, create_intent)
                      (elim (Bool-cases (is_active c.status)) [
                        | inr idle ↦ rw (idle, create_intent) (inactive idle)
                        | inl active ↦
                            rw (active, create_intent)
                              (elim (Option-cases (owner c)) [
                                | inl nobody ↦ rw (nobody, create_intent) (ownerless nobody)
                                | inr (customer, owned) ↦
                                    rw (owned, create_intent)
                                      (elim (Result-cases
                                        (resolve_requested_amount options r.purpose r.amount)) [
                                          | inl (e, h) ↦ rw (h, create_intent) (unresolved h)
                                          | inr (z, h) ↦
                                              rw (h, create_intent)
                                                (created t c r customer z fresh active owned h)
                                        ])
                              ])
                      ])
              ])
      ]
