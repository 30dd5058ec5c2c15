-- ===== src/Tests/OverdueTests.antt =====
-- app/services/overdue.py on the contract of two installments, 31 days after the second was due.
use retail_credit_platform.Common.{
  ℕ, List, ◌≡◌, refl, pos, ◌+ℤ◌, ◌-ℤ◌, ◌*ℤ◌, some, [], ◌∷◌, sum_by, All,
}
use retail_credit_platform.Common.Rounding.{money_times, round_half_up}
use retail_credit_platform.Common.Sorting.{sort_by}
use retail_credit_platform.Contract.{
  InstallmentStatus, charges_of, is_fully_paid, principal_outstanding, profit_outstanding,
}
use retail_credit_platform.Payments.Record.{Payment, Store}
use retail_credit_platform.CollectionCases.{
  case_workflow, get_open_case, open_case_if_needed, evaluate_overdue_promises,
}
use retail_credit_platform.Overdue.{OverdueConfig, charged_total, assess_overdue, assess_rows}
use retail_credit_platform.Overdue.Capped.{ChargedOnce}
use retail_credit_platform.Overdue.Assessed.{Charged, assess_overdue_lem}
use retail_credit_platform.Tests.PaymentTests.{listed, sold, overdue_one, pending_one}

-- One per cent after 5 days, and at most 6.50 for a contract.
abbrev config : OverdueConfig
config = record {
  late_fee_grace_days = 5;
  late_fee_rate = record { coefficient = pos 1; places = 2 };
  late_fee_max_per_contract = record { coefficient = pos 650; places = 2 };
}

abbrev with_cases : Store listed case_workflow
unfolding case_workflow
with_cases = record {
  contract = sold;
  payments = [];
  allocations = [];
  ledger = [];
  books = [];
  cases = record { cases = []; activities = []; next_case = 1; next_activity = 1 };
  next_payment = 1;
  next_allocation = 1;
  next_closure = 1;
}

abbrev no_others : ℕ → List Payment
no_others id = []

-- The second installment gets a fee of 1.10, one case is opened.
assessed_late : (assess_overdue listed config 91 91 2 no_others (some 5) with_cases).1 ≡ record {
  installments_marked_overdue = 1;
  late_fees_assessed = 1;
  late_fees_skipped_contract_cap = 0;
  total_late_fee_amount = pos 110;
  collection_cases_opened = 1;
  promises_broken = 0;
}
unfolding with_cases assess_overdue assess_rows sort_by charges_of charged_total sum_by ◌+ℤ◌ ◌*ℤ◌
    money_times round_half_up case_workflow get_open_case open_case_if_needed
    evaluate_overdue_promises is_fully_paid principal_outstanding profit_outstanding ◌-ℤ◌
assessed_late = refl

-- An installment that was written off in full gets a fee of 1.10 too.
written_off_charged :
    (assess_overdue listed config 91 91 2 no_others (some 5) (record with_cases {
      contract = record sold {
        installments =
            overdue_one
            ∷ record pending_one {
              principal_written_off = pos 10_000;
              profit_written_off = pos 1000;
              status = InstallmentStatus.written_off;
            }
            ∷ [];
      };
    })).1.total_late_fee_amount
    ≡ pos 110
unfolding with_cases assess_overdue assess_rows sort_by charges_of charged_total sum_by ◌+ℤ◌ ◌*ℤ◌
    money_times round_half_up case_workflow get_open_case open_case_if_needed
    evaluate_overdue_promises is_fully_paid principal_outstanding profit_outstanding ◌-ℤ◌
written_off_charged = refl

assess_overdue_lem_example :
    All ChargedOnce
      (assess_overdue listed config 91 91 2 no_others (some 5) with_cases).0.contract.installments
    × Charged config with_cases.contract.installments
        (assess_overdue listed config 91 91 2 no_others (some 5) with_cases).0.contract.installments
        (assess_overdue listed config 91 91 2 no_others (some 5) with_cases).1.total_late_fee_amount
unfolding with_cases case_workflow
assess_overdue_lem_example =
    assess_overdue_lem listed config 91 91 2 no_others (some 5) with_cases (refl, (refl, tt))
