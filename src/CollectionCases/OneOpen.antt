-- ===== src/CollectionCases/OneOpen.antt =====
-- At most one open case for a contract.
use retail_credit_platform.Common.{
  ℕ, ◌+◌, ◌≤◌, ◌≡◌, refl, sym, subst, ℤ, true, false, Option, none, some, List, [], ◌∷◌, ◌++◌, keep,
  length, arith, Bool-cases, Option-cases, inl, inr, if◌then◌else◌,
}
use retail_credit_platform.Common.Result.{Result, ok, err}
use retail_credit_platform.Contract.{InstallmentContract}
use retail_credit_platform.Payments.Record.{Payment}
use retail_credit_platform.CollectionCases.{
  CollectionCase, CollectionCaseStatus, CollectionCaseClosureReason, CollectionActivity,
  CollectionActivityType, PromiseStatus, CaseBook, is_open_of, get_open_case, new_case,
  open_case_if_needed, has_overdue, close_open, close_case_if_cleared, close_case_for_write_off,
  ActivityError, logged, log_activity, is_promise, evaluate_promises_after_payment,
  evaluate_overdue_promises, set_promise_status,
}

abbrev pub open_count : (contract_id : ℕ) → List CollectionCase → ℕ
open_count contract_id cases = length (keep (is_open_of contract_id) cases)

abbrev pub HasOneOpen : CaseBook → Type 0
HasOneOpen b = (contract_id : ℕ) → open_count contract_id b.cases ≤ 1

none_open : (id : ℕ) (cs : List CollectionCase) → get_open_case id cs ≡ none → open_count id cs ≡ 0
unfolding get_open_case
none_open id [] e = refl
none_open id (c ∷ cs) e = elim (Bool-cases (is_open_of id c)) [
  | inl mine ↦ absurd (not_none c (rw mine at e))
  | inr other ↦ rw other (none_open id cs (rw other at e))
]
  where
    not_none : (c : CollectionCase) → some c ≡ none → ⊥
    not_none c e = ground arith

count_append :
    (id : ℕ) (cs : List CollectionCase) (c : CollectionCase)
    → open_count id (cs ++ c ∷ []) ≡ open_count id cs + (if is_open_of id c then 1 else 0)
count_append id [] c = elim (Bool-cases (is_open_of id c)) [
  | inl mine ↦ rw mine refl
  | inr other ↦ rw other refl
]
count_append id (d ∷ cs) c = elim (Bool-cases (is_open_of id d)) [
  | inl mine ↦ rw mine (rw (count_append id cs c) (omega arith))
  | inr other ↦ rw other (count_append id cs c)
]

same_contract : (id n k : ℕ) → is_open_of id (new_case k n) ≡ true → n ≡ id
same_contract id n k e = ground arith

open_case_if_needed-HasOneOpen :
    (n : ℕ) (b : CaseBook) → HasOneOpen b → HasOneOpen (open_case_if_needed n b)
unfolding open_case_if_needed
open_case_if_needed-HasOneOpen n b h = elim (Option-cases (get_open_case n b.cases)) [
  | inr (case, e) ↦ rw (e, open_case_if_needed) h
  | inl e ↦
      rw (e, open_case_if_needed)
        (λ id.
          rw (count_append id b.cases (new_case b.next_case n))
            (elim (Bool-cases (is_open_of id (new_case b.next_case n))) [
              | inr other ↦ rw other (omega (arith, h id))
              | inl mine ↦ rw mine (
                  let alone : open_count id b.cases ≡ 0 =
                    subst (λ k. open_count k b.cases ≡ 0) (same_contract id n b.next_case mine)
                      (none_open n b.cases e) in
                  omega (arith, alone))
            ]))
]

closed_not_open :
    (reason : CollectionCaseClosureReason) (id : ℕ) (c : CollectionCase)
    → is_open_of id (record c { status = CollectionCaseStatus.closed; closed_reason = some reason })
      ≡ false
closed_not_open reason id c = ground arith

close_open_fewer :
    (reason : CollectionCaseClosureReason) (id n : ℕ) (cs : List CollectionCase)
    → open_count id (close_open reason n cs) ≤ open_count id cs
unfolding close_open
close_open_fewer reason id n [] = omega arith
close_open_fewer reason id n (c ∷ cs) = elim (Bool-cases (is_open_of n c)) [
  | inl mine ↦ rw mine (elim (Bool-cases (is_open_of id c)) [
    | inl counted ↦ rw (counted, closed_not_open reason id c) (omega arith)
    | inr uncounted ↦ rw (uncounted, closed_not_open reason id c) (omega arith)
  ])
  | inr other ↦ rw other (elim (Bool-cases (is_open_of id c)) [
    | inl counted ↦ rw counted (omega (arith, close_open_fewer reason id n cs))
    | inr uncounted ↦ rw uncounted (close_open_fewer reason id n cs)
  ])
]

close_open-HasOneOpen :
    (reason : CollectionCaseClosureReason) (n : ℕ) (b : CaseBook)
    → HasOneOpen b
    → HasOneOpen (record b { cases = close_open reason n b.cases })
close_open-HasOneOpen reason n b h id = omega (arith, close_open_fewer reason id n b.cases, h id)

close_case_if_cleared-HasOneOpen :
    (c : InstallmentContract) (b : CaseBook) → HasOneOpen b → HasOneOpen (close_case_if_cleared c b)
unfolding close_case_if_cleared
close_case_if_cleared-HasOneOpen c b h = elim (Bool-cases (has_overdue c)) [
  | inl late ↦ rw late h
  | inr clear ↦ rw clear (close_open-HasOneOpen CollectionCaseClosureReason.cleared c.id b h)
]

-- One call of the workflow.
pub data CaseStep : CaseBook → CaseBook → Type 0 where
  opens : {b : CaseBook} (contract_id : ℕ) → CaseStep b (open_case_if_needed contract_id b)
  clears :
      {b : CaseBook} (contract : InstallmentContract)
      → CaseStep b (close_case_if_cleared contract b)
  writes_off :
      {b : CaseBook} (contract_id : ℕ) → CaseStep b (close_case_for_write_off contract_id b)
  logs :
      {b b' : CaseBook} (created_by now case_id : ℕ) (kind : CollectionActivityType)
      (amount : Option ℤ) (date : Option ℕ)
      → log_activity created_by now kind case_id amount date b ≡ ok b'
      → CaseStep b b'
  keeps_promises :
      {b : CaseBook} (contract : InstallmentContract) (payments : List Payment)
      (actor_id : Option ℕ) (now : ℕ)
      → CaseStep b (evaluate_promises_after_payment contract payments actor_id now b).0
  breaks_promises :
      {b : CaseBook} (as_of : ℕ) (payments : ℕ → List Payment) (actor_id : Option ℕ) (now : ℕ)
      → CaseStep b (evaluate_overdue_promises as_of payments actor_id now b).0
  overrides :
      {b b' : CaseBook} (promise : CollectionActivity) (status : PromiseStatus) (actor_id now : ℕ)
      → set_promise_status promise status actor_id now b ≡ ok b'
      → CaseStep b b'

pub data CaseRun : CaseBook → CaseBook → Type 0 where
  rest : {b : CaseBook} → CaseRun b b
  then_step : {b c d : CaseBook} → CaseStep b c → CaseRun c d → CaseRun b d

-- Activities do not touch the cases.
SameCases : CaseBook → Result ActivityError CaseBook → Type 0
SameCases b (ok c) = c.cases ≡ b.cases
SameCases b (err e) = Unit

log_activity_cases :
    (created_by now case_id : ℕ) (kind : CollectionActivityType) (amount : Option ℤ)
    (date : Option ℕ) (b : CaseBook)
    → SameCases b (log_activity created_by now kind case_id amount date b)
unfolding log_activity SameCases
log_activity_cases created_by now case_id kind amount date b = elim (Bool-cases (is_promise kind)) [
  | inr other ↦ rw other refl
  | inl promise ↦ rw promise (promised amount date)
]
  where
    promised :
        (amount : Option ℤ) (date : Option ℕ)
        → SameCases b (elim amount [
          | none ↦ err ActivityError.promise_incomplete
          | some z ↦ elim date [
            | none ↦ err ActivityError.promise_incomplete
            | some d ↦ ok (
                logged created_by now kind case_id (some z) (some d) (some PromiseStatus.pending) b)
          ]
        ])
    promised none date = tt
    promised (some z) none = tt
    promised (some z) (some d) = refl

set_promise_status_cases :
    (promise : CollectionActivity) (status : PromiseStatus) (actor_id now : ℕ) (b : CaseBook)
    → SameCases b (set_promise_status promise status actor_id now b)
unfolding set_promise_status SameCases
set_promise_status_cases promise status actor_id now b =
    elim (Bool-cases (is_promise promise.activity_type)) [
      | inr other ↦ rw other tt
      | inl promised ↦ rw promised refl
    ]

same_cases :
    (b : CaseBook) {c : CaseBook} (r : Result ActivityError CaseBook)
    → r ≡ ok c
    → SameCases b r
    → c.cases ≡ b.cases
unfolding SameCases
same_cases b r e h = subst (λ x. SameCases b x) e h

same-HasOneOpen : (b c : CaseBook) → c.cases ≡ b.cases → HasOneOpen b → HasOneOpen c
same-HasOneOpen b c e h id = subst (λ cs. open_count id cs ≤ 1) (sym e) (h id)

CaseStep-HasOneOpen : {b c : CaseBook} → CaseStep b c → HasOneOpen b → HasOneOpen c
unfolding close_case_for_write_off evaluate_promises_after_payment evaluate_overdue_promises
CaseStep-HasOneOpen {b} (opens n) h = open_case_if_needed-HasOneOpen n b h
CaseStep-HasOneOpen {b} (clears c) h = close_case_if_cleared-HasOneOpen c b h
CaseStep-HasOneOpen {b} (writes_off n) h =
    close_open-HasOneOpen CollectionCaseClosureReason.written_off n b h
CaseStep-HasOneOpen {b} {c} (logs created_by now case_id kind amount date e) h =
    same-HasOneOpen b c
      (same_cases b _ e (log_activity_cases created_by now case_id kind amount date b)) h
CaseStep-HasOneOpen (keeps_promises c ps none now) h = h
CaseStep-HasOneOpen (keeps_promises c ps (some actor) now) h = h
CaseStep-HasOneOpen (breaks_promises d ps none now) h = h
CaseStep-HasOneOpen (breaks_promises d ps (some actor) now) h = h
CaseStep-HasOneOpen {b} {c} (overrides p st actor now e) h =
    same-HasOneOpen b c (same_cases b _ e (set_promise_status_cases p st actor now b)) h

-- Whatever calls of the collections workflow go through, in whatever order, from cases of which at most
-- one is open for each contract: at most one is open for each contract at the end.
pub CaseRun-HasOneOpen : {b c : CaseBook} → CaseRun b c → HasOneOpen b → HasOneOpen c
CaseRun-HasOneOpen rest h = h
CaseRun-HasOneOpen (then_step step run) h = CaseRun-HasOneOpen run (CaseStep-HasOneOpen step h)
