-- ===== src/Gateway/Lawful.antt =====
-- The transactions of an intent are a walk through the graph of its statuses, whatever webhooks come in.
use retail_credit_platform.Common.{
  ℕ, ◌≡◌, ◌≢◌, refl, sym, subst, ◌∙◌, ◌==◌, Bool, true, Option, none, some, List, [], ◌∷◌, ◌++◌,
  All, arith, Bool-cases, inl, inr, if◌then◌else◌, ◌⊎◌,
}
use retail_credit_platform.Common.Result.{Result, ok, err}
use retail_credit_platform.Common.Text.{Text, text_eq}
use retail_credit_platform.Gateway.{
  PaymentIntentStatus, PaymentIntent, GatewayTransaction, can_transition,
}
use retail_credit_platform.Gateway.Graph.{Runs, Runs-extend, Climbs, Runs-Climbs}
use retail_credit_platform.Gateway.Webhooks.{
  Payload, Verdict, Finance, Tables, WebhookOutcome, WebhookError, find_intent, set_status,
  new_transaction, process_webhook,
}
use retail_credit_platform.Gateway.Effect.{Effect, process_webhook-Effect}

-- The statuses that the transactions of an intent report, oldest first.
unfoldable pub statuses : ℕ → List GatewayTransaction → List PaymentIntentStatus
statuses n [] = []
statuses n (x ∷ xs) =
    if x.payment_intent_id == n then x.gateway_status ∷ statuses n xs else statuses n xs

statuses_own :
    (n : ℕ) (xs : List GatewayTransaction) (x : GatewayTransaction)
    → x.payment_intent_id ≡ n
    → statuses n (xs ++ x ∷ []) ≡ statuses n xs ++ x.gateway_status ∷ []
unfolding statuses
statuses_own n [] x h = ground arith
statuses_own n (y ∷ xs) x h = ground (arith, statuses_own n xs x h)

statuses_other :
    (n : ℕ) (xs : List GatewayTransaction) (x : GatewayTransaction)
    → x.payment_intent_id ≢ n
    → statuses n (xs ++ x ∷ []) ≡ statuses n xs
unfolding statuses
statuses_other n [] x h = ground arith
statuses_other n (y ∷ xs) x h = ground (arith, statuses_other n xs x h)

-- The transactions of an intent lead from the status that it was created or opened with to the one
-- that it has.
pub record HasHistory (xs : List GatewayTransaction) (i : PaymentIntent) : Type 0 where
  pub start : PaymentIntentStatus
  pub opened : (start ≡ PaymentIntentStatus.initiated) ⊎ (start ≡ PaymentIntentStatus.pending)
  pub runs : Runs start (statuses i.id xs) i.status

abbrev pub UniqueIntents : List PaymentIntent → Type 0
UniqueIntents [] = Unit
UniqueIntents (i ∷ is) = All (λ j. j.id ≢ i.id) is × UniqueIntents is

history_kept :
    (xs : List GatewayTransaction) (x : GatewayTransaction) (i : PaymentIntent)
    → x.payment_intent_id ≢ i.id
    → HasHistory xs i
    → HasHistory (xs ++ x ∷ []) i
history_kept xs x i other h = record {
  start = h.start;
  opened = h.opened;
  runs = subst (λ ss. Runs h.start ss i.status) (sym (statuses_other i.id xs x other)) h.runs;
}

history_extended :
    (xs : List GatewayTransaction) (x : GatewayTransaction) (i : PaymentIntent)
    → x.payment_intent_id ≡ i.id
    → can_transition i.status x.gateway_status ≡ true
    → HasHistory xs i
    → HasHistory (xs ++ x ∷ []) (record i { status = x.gateway_status })
history_extended xs x i own permitted h = record {
  start = h.start;
  opened = h.opened;
  runs =
      subst (λ ss. Runs h.start ss x.gateway_status) (sym (statuses_own i.id xs x own))
        (Runs-extend h.runs permitted);
}

module _ (fin : Finance) where
  find_intent-All :
      (P : PaymentIntent → Type 0) (reference : Text) (is : List PaymentIntent) {i : PaymentIntent}
      → find_intent fin reference is ≡ some i
      → All P is
      → P i
  unfolding find_intent
  find_intent-All P reference [] e h = absurd (empty_finds e)
    where
      empty_finds : {i : PaymentIntent} → none ≡ some i → ⊥
      empty_finds e = ground arith
  find_intent-All P reference (j ∷ is) {i} e (h, hs) =
      elim (Bool-cases (text_eq j.payment_reference reference)) [
        | inl here ↦ subst P (the_same (rw here at e)) h
        | inr there ↦ find_intent-All P reference is (rw there at e) hs
      ]
    where
      the_same : {a b : PaymentIntent} → some a ≡ some b → a ≡ b
      the_same e = cc

  -- No other intent has the transaction's number.
  kept_by-All :
      (xs : List GatewayTransaction) (x : GatewayTransaction) (n : ℕ) (is : List PaymentIntent)
      → x.payment_intent_id ≡ n
      → All (λ j. j.id ≢ n) is
      → All (HasHistory xs) is
      → All (HasHistory (xs ++ x ∷ [])) is
  kept_by-All xs x n [] own us h = tt
  kept_by-All xs x n (j ∷ is) own (u, us) (h, hs) =
      (history_kept xs x j (λ e. u (sym e ∙ own)) h, kept_by-All xs x n is own us hs)

  moved-All :
      (xs : List GatewayTransaction) (x : GatewayTransaction) (reference : Text)
      (is : List PaymentIntent) {i : PaymentIntent}
      → find_intent fin reference is ≡ some i
      → UniqueIntents is
      → x.payment_intent_id ≡ i.id
      → can_transition i.status x.gateway_status ≡ true
      → All (HasHistory xs) is
      → All (HasHistory (xs ++ x ∷ [])) (set_status fin reference x.gateway_status is)
  unfolding find_intent set_status
  moved-All xs x reference [] e u own permitted h = tt
  moved-All xs x reference (j ∷ is) {i} e (u, us) own permitted (h, hs) =
      elim (Bool-cases (text_eq j.payment_reference reference)) [
        | inl here ↦
            let same : i ≡ j = the_same (rw here at e) in
            let own_j = subst (λ k. x.payment_intent_id ≡ k.id) same own in
            let permitted_j =
              subst (λ k. can_transition k.status x.gateway_status ≡ true) same permitted in
            rw here
              (history_extended xs x j own_j permitted_j h, kept_by-All xs x j.id is own_j u hs)
        | inr there ↦
            let found = rw there at e in
            let other = find_intent-All (λ k. k.id ≢ j.id) reference is found u in
            rw there (
              history_kept xs x j (λ e. other (sym own ∙ e)) h,
              moved-All xs x reference is found us own permitted hs,
            )
      ]
    where
      the_same : {a b : PaymentIntent} → some a ≡ some b → b ≡ a
      the_same e = cc

  set_status-ids :
      (reference : Text) (target : PaymentIntentStatus) (n : ℕ) (is : List PaymentIntent)
      → All (λ j. j.id ≢ n) is
      → All (λ j. j.id ≢ n) (set_status fin reference target is)
  unfolding set_status
  set_status-ids reference target n [] h = tt
  set_status-ids reference target n (j ∷ is) (h, hs) =
      elim (Bool-cases (text_eq j.payment_reference reference)) [
        | inl here ↦ rw here (h, hs)
        | inr there ↦ rw there (h, set_status-ids reference target n is hs)
      ]

  set_status-UniqueIntents :
      (reference : Text) (target : PaymentIntentStatus) (is : List PaymentIntent)
      → UniqueIntents is
      → UniqueIntents (set_status fin reference target is)
  unfolding set_status
  set_status-UniqueIntents reference target [] u = tt
  set_status-UniqueIntents reference target (j ∷ is) (u, us) =
      elim (Bool-cases (text_eq j.payment_reference reference)) [
        | inl here ↦ rw here (u, us)
        | inr there ↦ rw there (
          set_status-ids reference target j.id is u,
          set_status-UniqueIntents reference target is us,
        )
      ]

  -- Intents with numbers of their own, each with its history.
  pub record IsLawful (t : Tables fin) : Type 0 where
    pub unique : UniqueIntents t.intents
    pub histories : All (HasHistory t.transactions) t.intents

  -- One delivery: the tables after it, which an error leaves as they were.
  unfoldable pub deliver :
      (final_status : Option PaymentIntentStatus) → ℕ × Payload × Verdict → Tables fin → Tables fin
  deliver final_status (now, p, v) t = elim (process_webhook fin final_status now p v t) [
    | err e ↦ t
    | ok r ↦ r.0
  ]

  unfoldable pub deliver_all :
      (final_status : Option PaymentIntentStatus)
      → List (ℕ × Payload × Verdict)
      → Tables fin
      → Tables fin
  unfolding deliver
  deliver_all final_status [] t = t
  deliver_all final_status (d ∷ ds) t = deliver_all final_status ds (deliver final_status d t)

  after : (t : Tables fin) → Result WebhookError (Tables fin × WebhookOutcome fin) → Tables fin
  after t (err e) = t
  after t (ok r) = r.0

  Effect-IsLawful :
      (final_status : Option PaymentIntentStatus) (now : ℕ) (p : Payload) (valid stale : Bool)
      (t : Tables fin) (r : Result WebhookError (Tables fin × WebhookOutcome fin))
      → Effect fin final_status now p valid stale t r
      → IsLawful t
      → IsLawful (after t r)
  unfolding after new_transaction
  Effect-IsLawful final_status now p valid stale t (err e) c h = h
  Effect-IsLawful final_status now p valid stale t (ok (t', o)) (inl ((is, xs, _), _)) h = record {
    unique = subst UniqueIntents (sym is) h.unique;
    histories =
        subst (λ xs. All (HasHistory xs) t'.intents) (sym xs)
          (subst (λ is. All (HasHistory t.transactions) is) (sym is) h.histories);
  }
  Effect-IsLawful final_status now p valid stale t (ok (t', o)) (inr a) h =
      let x = new_transaction fin t p a.intent a.target in
      record {
        unique =
            subst UniqueIntents (sym a.moved)
              (set_status-UniqueIntents p.payment_reference a.target t.intents h.unique);
        histories =
            subst (λ xs. All (HasHistory xs) t'.intents) (sym a.booked)
              (subst (λ is. All (HasHistory (t.transactions ++ x ∷ [])) is) (sym a.moved)
                (moved-All t.transactions x p.payment_reference t.intents a.found h.unique refl
                  a.permitted h.histories));
      }

  deliver_all-IsLawful :
      (final_status : Option PaymentIntentStatus) (ds : List (ℕ × Payload × Verdict))
      (t : Tables fin)
      → IsLawful t
      → IsLawful (deliver_all final_status ds t)
  unfolding deliver_all after
  deliver_all-IsLawful final_status [] t h = h
  deliver_all-IsLawful final_status ((now, p, v) ∷ ds) t h =
      deliver_all-IsLawful final_status ds (deliver final_status (now, p, v) t) (
        Effect-IsLawful final_status now p v.valid v.stale t
          (process_webhook fin final_status now p v t)
          (process_webhook-Effect fin final_status now p v t) h)

  histories_climb :
      (xs : List GatewayTransaction) (is : List PaymentIntent)
      → All (HasHistory xs) is
      → All (λ i. Climbs (statuses i.id xs)) is
  histories_climb xs [] h = tt
  histories_climb xs (i ∷ is) (h, hs) = (Runs-Climbs h.runs, histories_climb xs is hs)

  -- Whatever webhooks are delivered to lawful tables, in whatever order and however often, the tables
  -- are lawful after them, and the transactions of each intent report statuses that each lie further
  -- on than all those before: none is applied twice to an intent.
  pub deliver_all_lem :
      (final_status : Option PaymentIntentStatus) (ds : List (ℕ × Payload × Verdict))
      (t : Tables fin)
      → IsLawful t
      → let t' = deliver_all final_status ds t in
        IsLawful t' × All (λ i. Climbs (statuses i.id t'.transactions)) t'.intents
  deliver_all_lem final_status ds t h =
      let lawful = deliver_all-IsLawful final_status ds t h in
      (lawful, histories_climb _ _ lawful.histories)
