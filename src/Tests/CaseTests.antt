-- ===== src/Tests/CaseTests.antt =====
-- app/services/collections.py on one case with one promise of 5.00.
use retail_credit_platform.Common.{ℕ, ◌≡◌, refl, pos, ◌+ℤ◌, sum_by, some, List, [], ◌∷◌, arith}
use retail_credit_platform.Contract.Receivable.{PaymentReconciliationStatus}
use retail_credit_platform.Payments.Record.{Payment, PaymentStatus, PaymentSource}
use retail_credit_platform.CollectionCases.{
  CollectionActivity, CollectionActivityType, PromiseStatus, CaseBook, new_case,
  open_case_if_needed, paid_since, evaluate_promises_after_payment, evaluate_overdue_promises,
}
use retail_credit_platform.CollectionCases.OneOpen.{
  HasOneOpen, opens, rest, then_step, CaseRun-HasOneOpen,
}
use retail_credit_platform.CollectionCases.Promises.{promises_settled}
use retail_credit_platform.CollectionCases.Evolved.{IsCovered, IsMissed, Takes, Evolves}
use retail_credit_platform.Tests.PaymentTests.{sold}

abbrev paid : PaymentStatus → Payment
paid status = record {
  id = 1;
  contract_id = 7;
  amount = pos 300;
  external_reference = 112 ∷ [];
  received_at = 50;
  status = status;
  reconciliation_status = PaymentReconciliationStatus.unreconciled;
  allocated_amount = pos 300;
  unallocated_amount = pos 0;
  source = PaymentSource.gateway;
  payment_intent_id = some 1;
}

-- A payment of 3.00 that was taken back, with its reversal, counts as 6.00 received.
reversed_counts_twice :
    paid_since (paid PaymentStatus.reversed ∷ paid PaymentStatus.reversed ∷ []) 40 ≡ pos 600
unfolding paid_since sum_by ◌+ℤ◌
reversed_counts_twice = refl

abbrev no_cases : CaseBook
no_cases = record { cases = []; activities = []; next_case = 1; next_activity = 1 }

CaseRun-HasOneOpen_example : HasOneOpen (open_case_if_needed 7 (open_case_if_needed 7 no_cases))
CaseRun-HasOneOpen_example =
    CaseRun-HasOneOpen (then_step (opens 7) (then_step (opens 7) rest)) (λ id. omega arith)

abbrev promise : CollectionActivity
promise = record {
  id = 1;
  collection_case_id = 1;
  created_by = 5;
  activity_type = CollectionActivityType.promise_to_pay;
  created_at = 40;
  promised_amount = some (pos 500);
  promised_date = some 60;
  promise_status = some PromiseStatus.pending;
}

abbrev one_case : CaseBook
one_case = record {
  cases = new_case 1 7 ∷ [];
  activities = promise ∷ [];
  next_case = 2;
  next_activity = 2;
}

abbrev received : List Payment
received = paid PaymentStatus.applied ∷ []

abbrev received_on : ℕ → List Payment
received_on id = received

promises_settled_example :
    (let b' = (evaluate_promises_after_payment sold received (some 5) 50 one_case).0 in
      Evolves
        (Takes PromiseStatus.kept (IsCovered 7 received one_case.cases))
        one_case.activities
        b'.activities
      × (b'.cases ≡ one_case.cases)
      × (evaluate_promises_after_payment sold received (some 5) 70 b' ≡ (b', 0)))
    × (let b' = (evaluate_overdue_promises 65 received_on (some 5) 50 one_case).0 in
        Evolves
          (Takes PromiseStatus.broken (IsMissed 65 received_on one_case.cases))
          one_case.activities
          b'.activities
        × (b'.cases ≡ one_case.cases)
        × (evaluate_overdue_promises 65 received_on (some 5) 70 b' ≡ (b', 0)))
promises_settled_example = promises_settled sold received received_on 65 5 50 70 one_case
