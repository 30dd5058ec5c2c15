-- ===== src/CollectionCases/Promises.antt =====
-- What the two evaluations of promises leave.
use retail_credit_platform.Common.{
  ℕ, ◌+◌, ◌≡◌, refl, ap, ◌&&◌, Bool, true, false, some, List, [], ◌∷◌, ◌++◌, All, keep, arith,
  Bool-cases, inl, inr,
}
use retail_credit_platform.Contract.{InstallmentContract}
use retail_credit_platform.Payments.Record.{Payment}
use retail_credit_platform.CollectionCases.{
  CollectionCase, CollectionActivity, PromiseStatus, CaseBook, is_pending, is_promise,
  is_pending_promise, set_statuses, transition_notes, transition_all, is_met,
  evaluate_promises_after_payment, is_broken_by, evaluate_overdue_promises,
}
use retail_credit_platform.CollectionCases.Evolved.{
  IsCovered, IsMissed, Takes, Evolves, is_met→IsCovered, IsCovered→is_met, is_broken_by→IsMissed,
  IsMissed→is_broken_by, notes_other, set_statuses-Evolves,
}

-- A test that only pending promises pass.
abbrev OnlyPending : (CollectionActivity → Bool) → Type 0
OnlyPending test = (a : CollectionActivity) → is_pending_promise a ≡ false → test a ≡ false

-- No activity passes the test.
abbrev NonePasses : (CollectionActivity → Bool) → List CollectionActivity → Type 0
NonePasses test = All (λ a. test a ≡ false)

settled_promise :
    (a : CollectionActivity) (status : PromiseStatus)
    → is_pending (some status) ≡ false
    → is_pending_promise (record a { promise_status = some status }) ≡ false
unfolding is_pending_promise
settled_promise a status h = rw h (and_false (is_promise a.activity_type))
  where
    and_false : (b : Bool) → b && false ≡ false
    and_false true = refl
    and_false false = refl

module _ (test : CollectionActivity → Bool) (status : PromiseStatus) (only : OnlyPending test)
    (decided : is_pending (some status) ≡ false) where
  set_statuses-NonePasses :
      (rs : List CollectionActivity) → NonePasses test (set_statuses test status rs)
  unfolding set_statuses
  set_statuses-NonePasses [] = tt
  set_statuses-NonePasses (a ∷ rs) = elim (Bool-cases (test a)) [
    | inl passes ↦ rw passes (
      only (record a { promise_status = some status }) (settled_promise a status decided),
      set_statuses-NonePasses rs,
    )
    | inr fails ↦ rw fails (fails, set_statuses-NonePasses rs)
  ]

  transition_notes-NonePasses :
      (actor_id now n : ℕ) (rs : List CollectionActivity)
      → NonePasses test (transition_notes test actor_id now n rs)
  unfolding transition_notes is_pending_promise
  transition_notes-NonePasses actor_id now n [] = tt
  transition_notes-NonePasses actor_id now n (a ∷ rs) = elim (Bool-cases (test a)) [
    | inl passes ↦ rw passes (only _ refl, transition_notes-NonePasses actor_id now (n + 1) rs)
    | inr fails ↦ rw fails (transition_notes-NonePasses actor_id now n rs)
  ]

  append-NonePasses :
      (rs qs : List CollectionActivity)
      → NonePasses test rs
      → NonePasses test qs
      → NonePasses test (rs ++ qs)
  append-NonePasses [] qs h k = k
  append-NonePasses (a ∷ rs) qs (h, hs) k = (h, append-NonePasses rs qs hs k)

  transition_all-NonePasses :
      (actor_id now : ℕ) (b : CaseBook)
      → NonePasses test (transition_all test status actor_id now b).0.activities
  unfolding transition_all
  transition_all-NonePasses actor_id now b =
      append-NonePasses (set_statuses test status b.activities) _
        (set_statuses-NonePasses b.activities)
        (transition_notes-NonePasses actor_id now b.next_activity b.activities)

  idle_keep : (rs : List CollectionActivity) → NonePasses test rs → keep test rs ≡ []
  idle_keep [] h = refl
  idle_keep (a ∷ rs) (h, hs) = rw h (idle_keep rs hs)

  idle_set : (rs : List CollectionActivity) → NonePasses test rs → set_statuses test status rs ≡ rs
  unfolding set_statuses
  idle_set [] h = refl
  idle_set (a ∷ rs) (h, hs) = rw h (ap (λ qs. a ∷ qs) (idle_set rs hs))

  idle_notes :
      (actor_id now n : ℕ) (rs : List CollectionActivity)
      → NonePasses test rs
      → transition_notes test actor_id now n rs ≡ []
  unfolding transition_notes
  idle_notes actor_id now n [] h = refl
  idle_notes actor_id now n (a ∷ rs) (h, hs) = rw h (idle_notes actor_id now n rs hs)

  nothing_appended : (rs : List CollectionActivity) → rs ++ [] ≡ rs
  nothing_appended [] = refl
  nothing_appended (a ∷ rs) = ap (λ qs. a ∷ qs) (nothing_appended rs)

  same_length : (n : ℕ) → n + 0 ≡ n
  same_length n = omega arith

  -- Where no activity passes, nothing changes.
  idle :
      (actor_id now : ℕ) (b : CaseBook)
      → NonePasses test b.activities
      → transition_all test status actor_id now b ≡ (b, 0)
  unfolding transition_all
  idle actor_id now b h =
      rw
        (
          idle_set b.activities h,
          idle_notes actor_id now b.next_activity b.activities h,
          idle_keep b.activities h,
          nothing_appended b.activities,
          same_length b.next_activity,
        )
        refl

false_between : (x p y : Bool) → p ≡ false → x && p && y ≡ false
false_between true p y h = rw h refl
false_between false p y h = refl

false_first : (p x y : Bool) → p ≡ false → p && x && y ≡ false
false_first p x y h = rw h refl

met-OnlyPending :
    (contract_id : ℕ) (payments : List Payment) (cases : List CollectionCase)
    → OnlyPending (is_met contract_id payments cases)
unfolding is_met is_pending_promise
met-OnlyPending contract_id payments cases a h = false_between _ (is_pending_promise a) _ h

broken-OnlyPending :
    (as_of : ℕ) (payments : ℕ → List Payment) (cases : List CollectionCase)
    → OnlyPending (is_broken_by as_of payments cases)
unfolding is_broken_by is_pending_promise
broken-OnlyPending as_of payments cases a h = false_first (is_pending_promise a) _ _ h

-- The evaluation that follows a payment, by a user, moves to kept just the waiting promises of the
-- contract that are covered by what came in since they were made; that of overdue promises moves to
-- broken just the waiting ones whose date has passed with less than the promised amount in. Every other
-- activity stays as it was, the cases too, what is logged is no promise, and a second evaluation over the
-- same payments, or on the same day, changes nothing.
pub promises_settled :
    (contract : InstallmentContract) (payments : List Payment) (all_payments : ℕ → List Payment)
    (as_of actor_id now later : ℕ) (b : CaseBook)
    → (let b' = (evaluate_promises_after_payment contract payments (some actor_id) now b).0 in
        Evolves
          (Takes PromiseStatus.kept (IsCovered contract.id payments b.cases))
          b.activities
          b'.activities
        × (b'.cases ≡ b.cases)
        × (evaluate_promises_after_payment contract payments (some actor_id) later b' ≡ (b', 0)))
      × (let b' = (evaluate_overdue_promises as_of all_payments (some actor_id) now b).0 in
          Evolves
            (Takes PromiseStatus.broken (IsMissed as_of all_payments b.cases))
            b.activities
            b'.activities
          × (b'.cases ≡ b.cases)
          × (evaluate_overdue_promises as_of all_payments (some actor_id) later b' ≡ (b', 0)))
unfolding evaluate_promises_after_payment evaluate_overdue_promises transition_all
promises_settled contract payments all_payments as_of actor_id now later b =
    let met = is_met contract.id payments b.cases in
    let met_only = met-OnlyPending contract.id payments b.cases in
    let kept_none = transition_all-NonePasses met PromiseStatus.kept met_only refl actor_id now b in
    let late = is_broken_by as_of all_payments b.cases in
    let late_only = broken-OnlyPending as_of all_payments b.cases in
    let late_none =
      transition_all-NonePasses late PromiseStatus.broken late_only refl actor_id now b in
    (
      (
        set_statuses-Evolves _ met PromiseStatus.kept
            (is_met→IsCovered contract.id payments b.cases)
            (IsCovered→is_met contract.id payments b.cases) b.activities _
            (notes_other met actor_id now b.next_activity b.activities),
        refl,
        idle met PromiseStatus.kept met_only refl actor_id later _ kept_none,
      ),
      (
        set_statuses-Evolves _ late PromiseStatus.broken
            (is_broken_by→IsMissed as_of all_payments b.cases)
            (IsMissed→is_broken_by as_of all_payments b.cases) b.activities _
            (notes_other late actor_id now b.next_activity b.activities),
        refl,
        idle late PromiseStatus.broken late_only refl actor_id later _ late_none,
      ),
    )
