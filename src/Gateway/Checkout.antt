-- ===== src/Gateway/Checkout.antt =====
-- The opening of a checkout session fits the history of its intent.
use retail_credit_platform.Common.{
  ℕ, ◌≤◌, ◌≡◌, refl, sym, subst, true, List, [], arith, Bool-cases, inl, inr,
}
use retail_credit_platform.Common.Result.{Result, ok, err}
use retail_credit_platform.Common.Text.{Text}
use retail_credit_platform.Gateway.{
  PaymentIntentStatus, PaymentIntent, GatewayTransaction, same_status,
}
use retail_credit_platform.Gateway.Graph.{Runs, stay, move, rank, can_transition-rank}
use retail_credit_platform.Gateway.Intents.{IntentError, create_checkout}
use retail_credit_platform.Gateway.Lawful.{HasHistory}

is_initiated :
    (s : PaymentIntentStatus)
    → same_status s PaymentIntentStatus.initiated ≡ true
    → s ≡ PaymentIntentStatus.initiated
is_initiated PaymentIntentStatus.initiated h = refl
is_initiated PaymentIntentStatus.pending h = ground arith
is_initiated PaymentIntentStatus.authorized h = ground arith
is_initiated PaymentIntentStatus.captured h = ground arith
is_initiated PaymentIntentStatus.settled h = ground arith
is_initiated PaymentIntentStatus.failed h = ground arith
is_initiated PaymentIntentStatus.cancelled h = ground arith
is_initiated PaymentIntentStatus.expired h = ground arith
is_initiated PaymentIntentStatus.reversed h = ground arith
is_initiated PaymentIntentStatus.partially_refunded h = ground arith
is_initiated PaymentIntentStatus.refunded h = ground arith
is_initiated PaymentIntentStatus.chargeback h = ground arith

Runs-le :
    {s u : PaymentIntentStatus} {ts : List PaymentIntentStatus} → Runs s ts u → rank s ≤ rank u
Runs-le (stay s) = omega arith
Runs-le (move {s} {t} h r) = omega (arith, can_transition-rank s t h, Runs-le r)

-- Nothing leads to the first status.
Runs-initiated :
    {s u : PaymentIntentStatus} {ts : List PaymentIntentStatus} → Runs s ts u → rank u ≡ 0 → ts ≡ []
Runs-initiated (stay s) e = refl
Runs-initiated (move {s} {t} h r) e =
    absurd (omega (arith, can_transition-rank s t h, Runs-le r, e))

abbrev pub Opens :
    List GatewayTransaction → PaymentIntent → Result IntentError PaymentIntent → Type 0
Opens xs i (ok i') =
    (i.status ≡ PaymentIntentStatus.initiated)
    × (i'.status ≡ PaymentIntentStatus.pending)
    × (i'.id ≡ i.id)
    × (i'.requested_amount ≡ i.requested_amount)
    × HasHistory xs i'
Opens xs i (err e) = Unit

-- A checkout session opens only for an intent in the first status; it moves the intent to the next one,
-- keeps its number and amount, and the transactions of the intent still lead to its status.
pub create_checkout-Opens :
    (answer : Result Text Text) (now minutes : ℕ) (xs : List GatewayTransaction) (i : PaymentIntent)
    → HasHistory xs i
    → Opens xs i (create_checkout answer now minutes i)
unfolding create_checkout
create_checkout-Opens (err message) now minutes xs i h =
    elim (Bool-cases (same_status i.status PaymentIntentStatus.initiated)) [
      | inl first ↦ rw (first, create_checkout) tt
      | inr other ↦ rw (other, create_checkout) tt
    ]
create_checkout-Opens (ok token) now minutes xs i h =
    elim (Bool-cases (same_status i.status PaymentIntentStatus.initiated)) [
      | inl first ↦
          let starts = is_initiated i.status first in
          let none_yet = Runs-initiated h.runs (subst (λ s. rank s ≡ 0) (sym starts) refl) in
          rw (first, create_checkout)
            (
              starts,
              refl,
              refl,
              refl,
              record {
                start = PaymentIntentStatus.pending;
                opened = inr refl;
                runs =
                    subst (λ ss. Runs PaymentIntentStatus.pending ss PaymentIntentStatus.pending)
                      (sym none_yet) (stay PaymentIntentStatus.pending);
              },
            )
      | inr other ↦ rw (other, create_checkout) tt
    ]
