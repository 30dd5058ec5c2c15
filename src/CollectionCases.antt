-- ===== src/CollectionCases.antt =====
-- app/models/collections.py and app/services/collections.py: collection cases, their activities, and
-- promises to pay. Reasons, notes, the times of a case and the audit log are left out.
pub mod Evolved
pub mod OneOpen
pub mod Promises
use retail_credit_platform.Common.{
  ℕ, ◌+◌, ℤ, pos, leb_ℤ, ltb_ℤ, leb, ltb, ◌==◌, ◌&&◌, Bool, true, false, not, Option, none, some,
  List, [], ◌∷◌, ◌++◌, keep, any, length, sum_by, if◌then◌else◌,
}
use retail_credit_platform.Common.Result.{Result, ok, err}
use retail_credit_platform.Contract.{Installment, InstallmentContract, is_overdue}
use retail_credit_platform.Payments.Record.{Payment, Collections}

pub data CollectionCaseStatus : Type 0 where
  opened closed : CollectionCaseStatus

pub data CollectionActivityType : Type 0 where
  call sms email visit promise_to_pay other : CollectionActivityType

pub data CollectionCaseClosureReason : Type 0 where
  cleared written_off : CollectionCaseClosureReason

pub data PromiseStatus : Type 0 where
  pending kept broken partially_kept : PromiseStatus

pub record CollectionCase : Type 0 where
  pub id : ℕ
  pub contract_id : ℕ
  pub status : CollectionCaseStatus
  pub closed_reason : Option CollectionCaseClosureReason

pub record CollectionActivity : Type 0 where
  pub id : ℕ
  pub collection_case_id : ℕ
  pub created_by : ℕ
  pub activity_type : CollectionActivityType
  pub created_at : ℕ
  pub promised_amount : Option ℤ
  pub promised_date : Option ℕ
  pub promise_status : Option PromiseStatus

pub record CaseBook : Type 0 where
  pub cases : List CollectionCase
  pub activities : List CollectionActivity
  pub next_case : ℕ
  pub next_activity : ℕ

abbrev pub is_open : CollectionCaseStatus → Bool
is_open CollectionCaseStatus.opened = true
is_open CollectionCaseStatus.closed = false

abbrev pub is_promise : CollectionActivityType → Bool
is_promise CollectionActivityType.promise_to_pay = true
is_promise _ = false

abbrev pub is_pending : Option PromiseStatus → Bool
is_pending (some PromiseStatus.pending) = true
is_pending _ = false

abbrev pub is_open_of : (contract_id : ℕ) → CollectionCase → Bool
is_open_of contract_id c = c.contract_id == contract_id && is_open c.status

-- The open case of a contract: the database keeps it unique.
unfoldable pub get_open_case : (contract_id : ℕ) → List CollectionCase → Option CollectionCase
get_open_case contract_id [] = none
get_open_case contract_id (c ∷ cs) =
    if is_open_of contract_id c then some c else get_open_case contract_id cs

abbrev pub new_case : (id contract_id : ℕ) → CollectionCase
new_case id contract_id = record {
  id = id;
  contract_id = contract_id;
  status = CollectionCaseStatus.opened;
  closed_reason = none;
}

unfoldable pub open_case_if_needed : (contract_id : ℕ) → CaseBook → CaseBook
unfolding get_open_case
open_case_if_needed contract_id b = elim (get_open_case contract_id b.cases) [
  | some case ↦ b
  | none ↦ record b {
    cases = b.cases ++ new_case b.next_case contract_id ∷ [];
    next_case = b.next_case + 1;
  }
]

unfoldable pub has_overdue : InstallmentContract → Bool
has_overdue contract = any (λ i. is_overdue i.status) contract.installments

-- The open case that is found is closed.
unfoldable pub close_open :
    CollectionCaseClosureReason → (contract_id : ℕ) → List CollectionCase → List CollectionCase
close_open reason contract_id [] = []
close_open reason contract_id (c ∷ cs) =
    if is_open_of contract_id c
    then record c { status = CollectionCaseStatus.closed; closed_reason = some reason } ∷ cs
    else c ∷ close_open reason contract_id cs

unfoldable pub close_case_if_cleared : InstallmentContract → CaseBook → CaseBook
unfolding has_overdue close_open
close_case_if_cleared contract b =
    if has_overdue contract
    then b
    else record b { cases = close_open CollectionCaseClosureReason.cleared contract.id b.cases }

unfoldable pub close_case_for_write_off : (contract_id : ℕ) → CaseBook → CaseBook
unfolding close_open
close_case_for_write_off contract_id b = record b {
  cases = close_open CollectionCaseClosureReason.written_off contract_id b.cases;
}

pub data ActivityError : Type 0 where
  promise_incomplete not_a_promise : ActivityError

abbrev pub logged :
    (created_by now : ℕ)
    → CollectionActivityType
    → (case_id : ℕ) → Option ℤ
    → Option ℕ
    → Option PromiseStatus
    → CaseBook
    → CaseBook
logged created_by now kind case_id amount date status b = record b {
  activities =
      b.activities
      ++ record {
        id = b.next_activity;
        collection_case_id = case_id;
        created_by = created_by;
        activity_type = kind;
        created_at = now;
        promised_amount = amount;
        promised_date = date;
        promise_status = status;
      }
        ∷ [];
  next_activity = b.next_activity + 1;
}

unfoldable pub log_activity :
    (created_by now : ℕ)
    → CollectionActivityType
    → (case_id : ℕ) → Option ℤ
    → Option ℕ
    → CaseBook
    → Result ActivityError CaseBook
log_activity created_by now kind case_id amount date b =
    if is_promise kind
    then elim amount [
      | none ↦ err promise_incomplete
      | some z ↦ elim date [
        | none ↦ err promise_incomplete
        | some d ↦
            ok (logged created_by now kind case_id (some z) (some d) (some PromiseStatus.pending) b)
      ]
    ]
    else ok (logged created_by now kind case_id none none none b)

-- All payments of the contract count, the reversed ones and their reversals too.
unfoldable pub paid_since : List Payment → (since : ℕ) → ℤ
paid_since payments since = sum_by (λ p. p.amount) (keep (λ p. leb since p.received_at) payments)

abbrev pub in_case_of : (contract_id : ℕ) → List CollectionCase → CollectionActivity → Bool
in_case_of contract_id cases a =
    any (λ c. c.id == a.collection_case_id && c.contract_id == contract_id) cases

unfoldable pub is_pending_promise : CollectionActivity → Bool
is_pending_promise a = is_promise a.activity_type && is_pending a.promise_status

-- `_transition_promise` on each activity for which the test holds: its status is changed, and an
-- activity is logged for the transition.
unfoldable pub set_statuses :
    (CollectionActivity → Bool) → PromiseStatus → List CollectionActivity → List CollectionActivity
set_statuses test status [] = []
set_statuses test status (a ∷ rest) =
    (if test a then record a { promise_status = some status } else a)
    ∷ set_statuses test status rest

unfoldable pub transition_notes :
    (CollectionActivity → Bool)
    → (actor_id now next_id : ℕ) → List CollectionActivity
    → List CollectionActivity
transition_notes test actor_id now next_id [] = []
transition_notes test actor_id now next_id (a ∷ rest) =
    let later = transition_notes test actor_id now (next_id + 1) rest in
    let same = transition_notes test actor_id now next_id rest in
    if test a
    then record {
      id = next_id;
      collection_case_id = a.collection_case_id;
      created_by = actor_id;
      activity_type = CollectionActivityType.other;
      created_at = now;
      promised_amount = none;
      promised_date = none;
      promise_status = none;
    }
      ∷ later
    else same

unfoldable pub transition_all :
    (CollectionActivity → Bool) → PromiseStatus → (actor_id now : ℕ) → CaseBook → CaseBook × ℕ
unfolding set_statuses transition_notes
transition_all test status actor_id now b =
    let count = length (keep test b.activities) in
    (
      record b {
        activities =
            set_statuses test status b.activities
            ++ transition_notes test actor_id now b.next_activity b.activities;
        next_activity = b.next_activity + count;
      },
      count,
    )

-- Whether `evaluate_promises_after_payment` keeps a promise.
unfoldable pub is_met :
    (contract_id : ℕ) → List Payment → List CollectionCase → CollectionActivity → Bool
unfolding is_pending_promise paid_since
is_met contract_id payments cases a =
    in_case_of contract_id cases a && is_pending_promise a && elim a.promised_amount [
      | none ↦ false
      | some promised ↦ leb_ℤ promised (paid_since payments a.created_at)
    ]

unfoldable pub evaluate_promises_after_payment :
    InstallmentContract → List Payment → Option ℕ → (now : ℕ) → CaseBook → CaseBook × ℕ
unfolding is_met transition_all
evaluate_promises_after_payment contract payments none now b = (b, 0)
evaluate_promises_after_payment contract payments (some actor_id) now b =
    transition_all (is_met contract.id payments b.cases) PromiseStatus.kept actor_id now b

-- What was paid on the contract of the activity's case, with what was paid on each contract.
unfoldable pub paid_on_case : (ℕ → List Payment) → List CollectionCase → CollectionActivity → ℤ
unfolding paid_since
paid_on_case payments [] a = pos 0
paid_on_case payments (c ∷ cs) a =
    if c.id == a.collection_case_id
    then paid_since (payments c.contract_id) a.created_at
    else paid_on_case payments cs a

-- Whether `evaluate_overdue_promises` breaks a promise.
unfoldable pub is_broken_by :
    (as_of : ℕ) → (ℕ → List Payment) → List CollectionCase → CollectionActivity → Bool
unfolding is_pending_promise paid_on_case
is_broken_by as_of payments cases a =
    is_pending_promise a
    && elim a.promised_date [ none ↦ false | some date ↦ ltb date as_of ]
    && ltb_ℤ (paid_on_case payments cases a)
        (elim a.promised_amount [ none ↦ pos 0 | some promised ↦ promised ])

unfoldable pub evaluate_overdue_promises :
    (as_of : ℕ) → (ℕ → List Payment) → Option ℕ → (now : ℕ) → CaseBook → CaseBook × ℕ
unfolding is_broken_by transition_all
evaluate_overdue_promises as_of payments none now b = (b, 0)
evaluate_overdue_promises as_of payments (some actor_id) now b =
    transition_all (is_broken_by as_of payments b.cases) PromiseStatus.broken actor_id now b

-- The manual override, of the activity under a number.
unfoldable pub set_promise_status :
    CollectionActivity
    → PromiseStatus
    → (actor_id now : ℕ) → CaseBook
    → Result ActivityError CaseBook
unfolding transition_all
set_promise_status promise status actor_id now b =
    if not (is_promise promise.activity_type)
    then err not_a_promise
    else ok (transition_all (λ a. a.id == promise.id) status actor_id now b).0

-- The workflow that payments and reversals call.
unfoldable pub case_workflow : Collections
unfolding evaluate_promises_after_payment close_case_if_cleared open_case_if_needed
case_workflow = record {
  Cases = CaseBook;
  evaluate_promises_after_payment = λ contract payments actor_id now b.
      (evaluate_promises_after_payment contract payments actor_id now b).0;
  close_case_if_cleared = λ contract actor_id b. close_case_if_cleared contract b;
  open_case_if_needed = λ contract actor_id b. open_case_if_needed contract.id b;
}
