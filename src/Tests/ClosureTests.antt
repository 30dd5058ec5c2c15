-- ===== src/Tests/ClosureTests.antt =====
-- app/services/closure.py on the contract of the payment tests, with a tenth of the profit waived.
use retail_credit_platform.Common.{
  ◌≡◌, refl, pos, sum_by, ◌+ℤ◌, ◌-ℤ◌, ◌*ℤ◌, true, none, [], ◌∷◌, arith, All,
}
use retail_credit_platform.Common.Rounding.{Decimal, money_times, round_half_up}
use retail_credit_platform.Common.Text.{strip, text_eq}
use retail_credit_platform.Contract.{
  ContractStatus, InstallmentStatus, is_paid, principal_outstanding, late_fee_outstanding,
  sum_outstanding, charge_outstanding,
}
use retail_credit_platform.Closure.Quote.{
  ClosureConfig, Rebate, given, build_settlement_quote, quote_of, outside_unit,
}
use retail_credit_platform.Closure.Endings.{
  Desk, SettleRequest, settle_contract, close_out_schedule, no_request, returned, return_contract,
}
use retail_credit_platform.Closure.Quoted.{Quotes, build_settlement_quote-Quotes}
use retail_credit_platform.Closure.Settled.{written_off, close_out_schedule-outstanding}
use retail_credit_platform.Closure.Settlement.{IsOwed, Settles, settle_contract-Settles}
use retail_credit_platform.Contract.Receivable.{PaymentReconciliationStatus}
use retail_credit_platform.Payments.Record.{
  Payment, PaymentStatus, PaymentSource, record_payment, total_outstanding, find_payment, Store,
}
use retail_credit_platform.Offers.Delivery.{Provisioning, confirm_delivery, delivered}
use retail_credit_platform.Lifecycle.{Step, pays, returns, delivers, stop, next}
use retail_credit_platform.Lifecycle.Open.{Counts}
use retail_credit_platform.Lifecycle.Runs.{Run-closed, Run-Counts}
use retail_credit_platform.Tests.PaymentTests.{
  listed, counted, opened, sold, overdue_one, pending_one, asks,
}

abbrev tenth : Decimal
tenth = record { coefficient = pos 1; places = 1 }

abbrev config : ClosureConfig
config = record {
  early_settlement_profit_rebate_pct = tenth;
  settlement_quote_validity_days = 7;
  down_payment_refund_pct_cancellation = record { coefficient = pos 1; places = 0 };
  down_payment_refund_pct_return = tenth;
  ownership_transfers_on_delivery = true;
}

build_settlement_quote-Quotes_example :
    Quotes tenth sold no_request (build_settlement_quote config 50 sold no_request)
unfolding outside_unit
build_settlement_quote-Quotes_example =
    build_settlement_quote-Quotes config 50 sold no_request refl (omega arith)

close_out_schedule-outstanding_example :
    (total_outstanding (close_out_schedule sold) ≡ pos 0 -ℤ written_off sold)
    × ((close_out_schedule sold).unearned_profit_balance ≡ pos 0)
    × All (λ i. is_paid i.status ≡ true) (close_out_schedule sold).installments
close_out_schedule-outstanding_example = close_out_schedule-outstanding sold

-- 200.00 of principal, 4.00 of late fees and 27.00 of profit.
abbrev pays_off : SettleRequest
pays_off = record {
  amount = record { coefficient = pos 23_100; places = 2 };
  external_reference = 115 ∷ [];
  actor_id = none;
  rebate = no_request;
  now = 50;
}

-- The second installment was written off in full, so that 122.00 settle the contract.
abbrev partly_gone : Store listed counted
partly_gone = record opened {
  contract = record sold {
    unearned_profit_balance = pos 2000;
    installments =
        overdue_one
        ∷ record pending_one {
          principal_written_off = pos 10_000;
          profit_written_off = pos 1000;
          status = InstallmentStatus.written_off;
        }
        ∷ [];
  };
}

abbrev pays_rest : SettleRequest
pays_rest = record pays_off { amount = record { coefficient = pos 12_200; places = 2 } }

partly_gone-IsOwed : All IsOwed partly_gone.contract.installments
unfolding principal_outstanding late_fee_outstanding sum_outstanding charge_outstanding sum_by ◌+ℤ◌
    ◌-ℤ◌
partly_gone-IsOwed = (
  record { principal_nonneg = omega arith; late_fee_nonneg = omega arith },
  (record { principal_nonneg = omega arith; late_fee_nonneg = omega arith }, tt),
)

settle_contract-Settles_example :
    Settles listed counted config partly_gone pays_rest
      (settle_contract listed counted config partly_gone pays_rest)
unfolding outside_unit
settle_contract-Settles_example =
    settle_contract-Settles listed counted config partly_gone pays_rest refl (omega arith)
      partly_gone-IsOwed

abbrev no_provisions : Provisioning
no_provisions = record { Assessments = Unit; initial_assessment = λ c a. a }

abbrev unsold : Desk listed counted
unsold = record {
  store = record opened { contract = record sold { status = ContractStatus.created } };
  order = record { product_id = 1; sale_price = pos 23_500; down_payment_amount = pos 500 };
  products = [];
}

abbrev handed_over : Desk listed counted
handed_over = delivered listed counted no_provisions 10 unsold

abbrev waived : Rebate
waived = record { pct = given tenth; amount = pos 300 }

abbrev taken_back : Desk listed counted
taken_back = returned listed counted config 50 none handed_over (quote_of config 50 sold waived)

delivers_it : Step listed counted no_provisions config unsold handed_over
unfolding confirm_delivery
delivers_it = delivers 10 tt tt refl

returns_it : Step listed counted no_provisions config handed_over taken_back
unfolding return_contract build_settlement_quote delivered money_times round_half_up ◌*ℤ◌
returns_it = returns 50 none _ refl

Run-Counts_example : Counts 1 taken_back.store.contract taken_back.store.next_closure
unfolding delivered
Run-Counts_example =
    Run-Counts listed counted no_provisions config (next delivers_it (next returns_it stop))
      (refl, refl)

-- The desk after the return, with a payment that is sent again.
abbrev paid_before : Payment
paid_before = record {
  id = 1;
  contract_id = 7;
  amount = pos 100;
  external_reference = 112 ∷ 49 ∷ [];
  received_at = 40;
  status = PaymentStatus.applied;
  reconciliation_status = PaymentReconciliationStatus.unreconciled;
  allocated_amount = pos 100;
  unallocated_amount = pos 0;
  source = PaymentSource.staff;
  payment_intent_id = none;
}

abbrev shut : Desk listed counted
shut = record unsold {
  store = record opened {
    contract = record sold { status = ContractStatus.closed };
    payments = paid_before ∷ [];
  };
}

sends_again : Step listed counted no_provisions config shut shut
unfolding record_payment strip find_payment text_eq
sends_again =
    pays (asks 100) (record { payment = paid_before; replayed = true; closure = none }) refl

Run-closed_example : shut.store ≡ shut.store
Run-closed_example = Run-closed listed counted no_provisions config (next sends_again stop) refl
