-- ===== src/Gateway/Graph.antt =====
-- The graph of payment intent statuses: it has no way back, it ends where the code says that it ends,
-- and money is taken back only where it had been settled.
use retail_credit_platform.Common.{
  false_or, ◌⊎◌, ℕ, ◌+◌, ◌≤◌, ◌<◌, ◌≡◌, refl, ◌↔◌, Bool, true, false, not, ◌||◌, List, [], ◌∷◌, any,
  All, arith, ltb, leb, if◌then◌else◌, length, ◌++◌,
}
use retail_credit_platform.Gateway.{
  PaymentIntentStatus, same_status, all_statuses, terminal_statuses, can_transition,
}

-- How far a status is from the start.
abbrev pub rank : PaymentIntentStatus → ℕ
rank PaymentIntentStatus.initiated = 0
rank PaymentIntentStatus.pending = 1
rank PaymentIntentStatus.authorized = 2
rank PaymentIntentStatus.captured = 3
rank PaymentIntentStatus.settled = 4
rank PaymentIntentStatus.partially_refunded = 5
rank _ = 6

abbrev pub is_terminal : PaymentIntentStatus → Bool
is_terminal s = any (λ t. same_status t s) terminal_statuses

-- A test that holds for every status.
every : (PaymentIntentStatus → Bool) → Bool
every p = not (any (λ s. not (p s)) all_statuses)

every-at : (p : PaymentIntentStatus → Bool) (s : PaymentIntentStatus) → every p ≡ true → p s ≡ true
unfolding every
every-at p PaymentIntentStatus.initiated h = ground arith
every-at p PaymentIntentStatus.pending h = ground arith
every-at p PaymentIntentStatus.authorized h = ground arith
every-at p PaymentIntentStatus.captured h = ground arith
every-at p PaymentIntentStatus.settled h = ground arith
every-at p PaymentIntentStatus.failed h = ground arith
every-at p PaymentIntentStatus.cancelled h = ground arith
every-at p PaymentIntentStatus.expired h = ground arith
every-at p PaymentIntentStatus.reversed h = ground arith
every-at p PaymentIntentStatus.partially_refunded h = ground arith
every-at p PaymentIntentStatus.refunded h = ground arith
every-at p PaymentIntentStatus.chargeback h = ground arith

-- Both for every pair of statuses.
every_two : (PaymentIntentStatus → PaymentIntentStatus → Bool) → Bool
every_two p = every (λ s. every (p s))

every_two-at :
    (p : PaymentIntentStatus → PaymentIntentStatus → Bool) (s t : PaymentIntentStatus)
    → every_two p ≡ true
    → p s t ≡ true
unfolding every_two
every_two-at p s t h = every-at (p s) t (every-at (λ s. every (p s)) s h)

-- The statuses that only an intent whose money was settled can have.
abbrev pub has_settled : PaymentIntentStatus → Bool
has_settled PaymentIntentStatus.settled = true
has_settled PaymentIntentStatus.partially_refunded = true
has_settled PaymentIntentStatus.reversed = true
has_settled PaymentIntentStatus.refunded = true
has_settled PaymentIntentStatus.chargeback = true
has_settled _ = false

abbrev leads_on : PaymentIntentStatus → PaymentIntentStatus → Bool
leads_on s t = not (can_transition s t) || ltb (rank s) (rank t)

leads_on_all : every_two leads_on ≡ true
unfolding every_two every can_transition
leads_on_all = refl

abbrev settles_first : PaymentIntentStatus → PaymentIntentStatus → Bool
settles_first s t =
    not (can_transition s t)
    || not (has_settled t)
    || (has_settled s || same_status PaymentIntentStatus.settled t)

settles_first_all : every_two settles_first ≡ true
unfolding every_two every can_transition
settles_first_all = refl

abbrev no_exit : PaymentIntentStatus → PaymentIntentStatus → Bool
no_exit s t = not (is_terminal s) || not (can_transition s t)

no_exit_all : every_two no_exit ≡ true
unfolding every_two every can_transition
no_exit_all = refl

-- A status that is not terminal has an exit.
abbrev exits : PaymentIntentStatus → Bool
exits s = is_terminal s || any (λ t. can_transition s t) all_statuses

exits_all : every exits ≡ true
unfolding every can_transition
exits_all = refl

-- Every transition leads further from the start.
pub can_transition-rank : (s t : PaymentIntentStatus) → can_transition s t ≡ true → rank s < rank t
can_transition-rank s t h =
    further (can_transition s t) (rank s) (rank t) h (every_two-at leads_on s t leads_on_all)
  where
    further : (b : Bool) (m n : ℕ) → b ≡ true → not b || ltb m n ≡ true → m < n
    further b m n h k = ground arith

-- The statuses that an intent takes on after the first one, up to the last one.
pub data Runs : PaymentIntentStatus → List PaymentIntentStatus → PaymentIntentStatus → Type 0 where
  stay : (s : PaymentIntentStatus) → Runs s [] s
  move :
      {s t u : PaymentIntentStatus} {ts : List PaymentIntentStatus}
      → can_transition s t ≡ true
      → Runs t ts u
      → Runs s (t ∷ ts) u

pub Runs-extend :
    {s t u : PaymentIntentStatus} {ts : List PaymentIntentStatus}
    → Runs s ts t
    → can_transition t u ≡ true
    → Runs s (ts ++ u ∷ []) u
Runs-extend (stay s) h = move h (stay _)
Runs-extend (move k r) h = move k (Runs-extend r h)

Runs-rank :
    {s u : PaymentIntentStatus} {ts : List PaymentIntentStatus}
    → Runs s ts u
    → rank s + length ts ≤ rank u
Runs-rank (stay s) = omega arith
Runs-rank (move {s} {t} h r) = omega (arith, can_transition-rank s t h, Runs-rank r)

Runs-above :
    {s u : PaymentIntentStatus} {ts : List PaymentIntentStatus}
    → Runs s ts u
    → All (λ t. rank s < rank t) ts
Runs-above (stay s) = tt
Runs-above (move {s} {t} {u} {ts} h r) =
    let first = can_transition-rank s t h in
    (first, weaken (rank s) (rank t) ts first (Runs-above r))
  where
    weaken :
        (m n : ℕ) (ts : List PaymentIntentStatus)
        → m < n
        → All (λ t. n < rank t) ts
        → All (λ t. m < rank t) ts
    weaken m n [] h k = tt
    weaken m n (t ∷ ts) h (k, ks) = (omega arith, weaken m n ts h ks)

-- Each status further on than the one before, so that none comes twice.
abbrev pub Climbs : List PaymentIntentStatus → Type 0
Climbs [] = Unit
Climbs (t ∷ ts) = All (λ u. rank t < rank u) ts × Climbs ts

pub Runs-Climbs :
    {s u : PaymentIntentStatus} {ts : List PaymentIntentStatus} → Runs s ts u → Climbs ts
Runs-Climbs (stay s) = tt
Runs-Climbs (move h r) = (Runs-above r, Runs-Climbs r)

abbrev pub settles : List PaymentIntentStatus → Bool
settles ts = any (λ t. same_status PaymentIntentStatus.settled t) ts

Runs-settles :
    {s u : PaymentIntentStatus} {ts : List PaymentIntentStatus}
    → Runs s ts u
    → has_settled u ≡ true
    → has_settled s || settles ts ≡ true
Runs-settles (stay s) e = rw e refl
Runs-settles (move {s} {t} {u} {ts} h r) e =
    before (can_transition s t) (has_settled s) (has_settled t)
      (same_status PaymentIntentStatus.settled t) (settles ts) h
      (every_two-at settles_first s t settles_first_all) (Runs-settles r e)
  where
    before :
        (c a b d e : Bool)
        → c ≡ true
        → not c || not b || (a || d) ≡ true
        → b || e ≡ true
        → a || (if d then true else e) ≡ true
    before c a b d e h k l = ground arith

rank_le_six : (s : PaymentIntentStatus) → rank s ≤ 6
unfolding every
rank_le_six s = low (rank s) (every-at (λ s. leb (rank s) 6) s low_all)
  where
    low : (n : ℕ) → leb n 6 ≡ true → n ≤ 6
    low n h = ground arith

    low_all : every (λ s. leb (rank s) 6) ≡ true
    low_all = refl

-- From its creation on, an intent changes its status at most six times, each time to one further on
-- than all those before, and it can be reversed, refunded or charged back only after it was settled.
pub Runs_lem :
    {ts : List PaymentIntentStatus} {u : PaymentIntentStatus}
    → Runs PaymentIntentStatus.initiated ts u
    → (length ts ≤ 6) × Climbs ts × ((has_settled u ≡ false) ⊎ (settles ts ≡ true))
Runs_lem {ts} {u} r = (
  omega (arith, Runs-rank r, rank_le_six u),
  Runs-Climbs r,
  false_or (has_settled u) (settles ts) (Runs-settles r),
)

-- The terminal statuses are exactly those that no transition leaves.
pub is_terminal_iff :
    (s : PaymentIntentStatus)
    → (is_terminal s ≡ true) ↔ ((t : PaymentIntentStatus) → can_transition s t ≡ false)
is_terminal_iff s = (
  (λ h t. closed (is_terminal s) (can_transition s t) h (every_two-at no_exit s t no_exit_all)),
  (λ h.
      open_or (is_terminal s) _ (every-at exits s exits_all)
        (none_of (can_transition s) h all_statuses)),
)
  where
    closed : (a b : Bool) → a ≡ true → not a || not b ≡ true → b ≡ false
    closed a b h k = ground arith

    open_or : (a b : Bool) → a || b ≡ true → b ≡ false → a ≡ true
    open_or a b h k = ground arith

    none_of :
        (p : PaymentIntentStatus → Bool)
        → ((t : PaymentIntentStatus) → p t ≡ false)
        → (ts : List PaymentIntentStatus) → any p ts ≡ false
    none_of p h [] = refl
    none_of p h (t ∷ ts) = rw (h t) (none_of p h ts)
