-- ===== src/CollectionCases/Evolved.antt =====
-- Which promises the two evaluations settle, and how.
use retail_credit_platform.Common.{
  ℕ, ◌+◌, ◌≡◌, ◌<◌, refl, sym, ◌∙◌, ap, ◌⊎◌, inl, inr, ℤ, pos, ◌+ℤ◌, ◌≤ℤ◌, ◌<ℤ◌, leb_ℤ, ltb_ℤ,
  leb_ℤ→le, ltb_ℤ→lt, leb, ltb, Bool, true, false, ◌&&◌, ◌==◌, Option, none, some, List, [], ◌∷◌,
  ◌++◌, All, keep, arith, Bool-cases, Option-cases, sum_by, zero_+ℤ, if◌then◌else◌,
}
use retail_credit_platform.Payments.Record.{Payment}
use retail_credit_platform.CollectionCases.{
  CollectionCase, CollectionActivity, CollectionActivityType, PromiseStatus, is_promise, is_pending,
  in_case_of, is_pending_promise, paid_since, paid_on_case, set_statuses, transition_notes, is_met,
  is_broken_by,
}

-- What came in on a contract at a time or after it.
abbrev pub received_since : List Payment → ℕ → ℤ
received_since payments since =
    sum_by (λ p. if ltb p.received_at since then pos 0 else p.amount) payments

paid_since_lem :
    (payments : List Payment) (since : ℕ)
    → paid_since payments since ≡ received_since payments since
unfolding paid_since sum_by
paid_since_lem [] since = refl
paid_since_lem (p ∷ ps) since = elim (Bool-cases (leb since p.received_at)) [
  | inl e ↦ rw (e, not_before _ _ e) (ap (λ z. p.amount +ℤ z) (paid_since_lem ps since))
  | inr e ↦ rw (e, before _ _ e) (paid_since_lem ps since ∙ sym (zero_+ℤ _))
]
  where
    not_before : (a b : ℕ) → leb a b ≡ true → ltb b a ≡ false
    not_before a b e = ground arith

    before : (a b : ℕ) → leb a b ≡ false → ltb b a ≡ true
    before a b e = ground arith

-- What came in on the contract of an activity's case since the activity; nothing without its case.
unfoldable pub received_on_case : (ℕ → List Payment) → List CollectionCase → CollectionActivity → ℤ
received_on_case payments cases a = elim (keep (λ c. c.id == a.collection_case_id) cases) [
  | [] ↦ pos 0
  | ◌∷◌ c cs ↦ received_since (payments c.contract_id) a.created_at
]

paid_on_case_lem :
    (payments : ℕ → List Payment) (cases : List CollectionCase) (a : CollectionActivity)
    → paid_on_case payments cases a ≡ received_on_case payments cases a
unfolding paid_on_case received_on_case
paid_on_case_lem payments [] a = refl
paid_on_case_lem payments (c ∷ cs) a = elim (Bool-cases (c.id == a.collection_case_id)) [
  | inl e ↦ rw (e, received_on_case) (paid_since_lem (payments c.contract_id) a.created_at)
  | inr e ↦ rw (e, received_on_case) (paid_on_case_lem payments cs a)
]

-- A promise that waits for its outcome.
abbrev pub Waits : CollectionActivity → Type 0
Waits a =
    (a.activity_type ≡ CollectionActivityType.promise_to_pay)
    × (a.promise_status ≡ some PromiseStatus.pending)

-- A waiting promise of the contract, of an amount that came in since it was made.
pub record IsCovered (contract_id : ℕ) (payments : List Payment) (cases : List CollectionCase)
    (a : CollectionActivity) : Type 0 where
  pub owed : ℤ
  pub ours : in_case_of contract_id cases a ≡ true
  pub waits : Waits a
  pub promised : a.promised_amount ≡ some owed
  pub covered : owed ≤ℤ received_since payments a.created_at

-- A waiting promise whose date has passed, of more than what came in since it was made.
pub record IsMissed (as_of : ℕ) (payments : ℕ → List Payment) (cases : List CollectionCase)
    (a : CollectionActivity) : Type 0 where
  pub date : ℕ
  pub waits : Waits a
  pub dated : a.promised_date ≡ some date
  pub passed : date < as_of
  pub missed :
      received_on_case payments cases a
      <ℤ elim a.promised_amount [ none ↦ pos 0 | some promised ↦ promised ]

-- An activity takes the status where the condition holds, and stays as it was where it does not.
abbrev pub Takes :
    PromiseStatus → (CollectionActivity → Type 0) → CollectionActivity → CollectionActivity → Type 0
Takes status Condition a b =
    (Condition a × (b ≡ record a { promise_status = some status })) ⊎ (¬ Condition a × (b ≡ a))

-- Every activity goes on as the relation says, in its place, and what comes after is no promise.
abbrev pub Evolves :
    (CollectionActivity → CollectionActivity → Type 0)
    → List CollectionActivity
    → List CollectionActivity
    → Type 0
Evolves R [] bs = All (λ b. b.activity_type ≡ CollectionActivityType.other) bs
Evolves R (a ∷ rest) [] = ⊥
Evolves R (a ∷ rest) (b ∷ bs) = R a b × Evolves R rest bs

is_promise→eq :
    (t : CollectionActivityType) → is_promise t ≡ true → t ≡ CollectionActivityType.promise_to_pay
is_promise→eq t h = ground arith

is_pending→eq : (o : Option PromiseStatus) → is_pending o ≡ true → o ≡ some PromiseStatus.pending
is_pending→eq o h = ground arith

three_true : (a b c : Bool) → (a && b && c) ≡ true → (a ≡ true) × (b ≡ true) × (c ≡ true)
three_true a b c h = ground arith

two_true : (a b : Bool) → (a && b) ≡ true → (a ≡ true) × (b ≡ true)
two_true a b h = ground arith

pub is_met→IsCovered :
    (contract_id : ℕ) (payments : List Payment) (cases : List CollectionCase)
    (a : CollectionActivity)
    → is_met contract_id payments cases a ≡ true
    → IsCovered contract_id payments cases a
unfolding is_met is_pending_promise
is_met→IsCovered contract_id payments cases a h =
    let (ours, pending, met) =
      three_true (in_case_of contract_id cases a) _
        (elim a.promised_amount [
          | none ↦ false
          | some promised ↦ leb_ℤ promised (paid_since payments a.created_at)
        ])
        h in
    let (promise, waiting) =
      two_true (is_promise a.activity_type) (is_pending a.promise_status) pending in
    elim (Option-cases a.promised_amount) [
      | inl e ↦ absurd (never (rw e at met))
      | inr (z, e) ↦ record {
        owed = z;
        ours = ours;
        waits = (is_promise→eq _ promise, is_pending→eq _ waiting);
        promised = e;
        covered = leb_ℤ→le z _ (rw (sym (paid_since_lem payments a.created_at)) (rw e at met));
      }
    ]
  where
    never : false ≡ true → ⊥
    never e = ground arith

pub IsCovered→is_met :
    (contract_id : ℕ) (payments : List Payment) (cases : List CollectionCase)
    (a : CollectionActivity)
    → IsCovered contract_id payments cases a
    → is_met contract_id payments cases a ≡ true
unfolding is_met is_pending_promise
IsCovered→is_met contract_id payments cases a c =
    rw (c.ours, c.waits.0, c.waits.1, c.promised, paid_since_lem payments a.created_at)
      (le→leb_ℤ c.owed _ c.covered)
  where
    le→leb_ℤ : (x y : ℤ) → x ≤ℤ y → leb_ℤ x y ≡ true
    le→leb_ℤ x y h = ground arith

pub is_broken_by→IsMissed :
    (as_of : ℕ) (payments : ℕ → List Payment) (cases : List CollectionCase) (a : CollectionActivity)
    → is_broken_by as_of payments cases a ≡ true
    → IsMissed as_of payments cases a
unfolding is_broken_by is_pending_promise
is_broken_by→IsMissed as_of payments cases a h =
    let (pending, passed, missed) =
      three_true _ (elim a.promised_date [ none ↦ false | some date ↦ ltb date as_of ])
        (ltb_ℤ (paid_on_case payments cases a)
          (elim a.promised_amount [ none ↦ pos 0 | some promised ↦ promised ]))
        h in
    let (promise, waiting) =
      two_true (is_promise a.activity_type) (is_pending a.promise_status) pending in
    elim (Option-cases a.promised_date) [
      | inl e ↦ absurd (never (rw e at passed))
      | inr (d, e) ↦ record {
        date = d;
        waits = (is_promise→eq _ promise, is_pending→eq _ waiting);
        dated = e;
        passed = ltb→lt d as_of (rw e at passed);
        missed = rw (sym (paid_on_case_lem payments cases a)) (
            ltb_ℤ→lt (paid_on_case payments cases a)
              (elim a.promised_amount [ none ↦ pos 0 | some promised ↦ promised ]) missed);
      }
    ]
  where
    never : false ≡ true → ⊥
    never e = ground arith

    ltb→lt : (x y : ℕ) → ltb x y ≡ true → x < y
    ltb→lt x y h = ground arith

pub IsMissed→is_broken_by :
    (as_of : ℕ) (payments : ℕ → List Payment) (cases : List CollectionCase) (a : CollectionActivity)
    → IsMissed as_of payments cases a
    → is_broken_by as_of payments cases a ≡ true
unfolding is_broken_by is_pending_promise
IsMissed→is_broken_by as_of payments cases a c =
    both
      (both (both (ap is_promise c.waits.0) (ap is_pending c.waits.1))
        (rw c.dated (lt→ltb c.date as_of c.passed)))
      (rw (paid_on_case_lem payments cases a) (
        lt→ltb_ℤ (received_on_case payments cases a)
          (elim a.promised_amount [ none ↦ pos 0 | some promised ↦ promised ]) c.missed))
  where
    both : {x y : Bool} → x ≡ true → y ≡ true → (x && y) ≡ true
    both e f = rw (e, f) refl

    lt→ltb : (x y : ℕ) → x < y → ltb x y ≡ true
    lt→ltb x y h = ground arith

    lt→ltb_ℤ : (x y : ℤ) → x <ℤ y → ltb_ℤ x y ≡ true
    lt→ltb_ℤ x y h = ground arith

pub notes_other :
    (test : CollectionActivity → Bool) (actor_id now n : ℕ) (rs : List CollectionActivity)
    → All
        (λ b. b.activity_type ≡ CollectionActivityType.other)
        (transition_notes test actor_id now n rs)
unfolding transition_notes
notes_other test actor_id now n [] = tt
notes_other test actor_id now n (a ∷ rs) = elim (Bool-cases (test a)) [
  | inl e ↦ rw e (refl, notes_other test actor_id now (n + 1) rs)
  | inr e ↦ rw e (notes_other test actor_id now n rs)
]

-- A test that decides the condition moves just the activities for which it holds.
pub set_statuses-Evolves :
    (Condition : CollectionActivity → Type 0) (test : CollectionActivity → Bool)
    (status : PromiseStatus)
    → ((a : CollectionActivity) → test a ≡ true → Condition a)
    → ((a : CollectionActivity) → Condition a → test a ≡ true)
    → (rs notes : List CollectionActivity)
    → All (λ b. b.activity_type ≡ CollectionActivityType.other) notes
    → Evolves (Takes status Condition) rs (set_statuses test status rs ++ notes)
unfolding set_statuses
set_statuses-Evolves Condition test status sound complete [] notes h = h
set_statuses-Evolves Condition test status sound complete (a ∷ rs) notes h =
    let rest = set_statuses-Evolves Condition test status sound complete rs notes h in
    elim (Bool-cases (test a)) [
      | inl e ↦ rw e (inl (sound a e, refl), rest)
      | inr e ↦ rw e (inr ((λ c. never (sym e ∙ complete a c)), refl), rest)
    ]
  where
    never : false ≡ true → ⊥
    never e = ground arith
