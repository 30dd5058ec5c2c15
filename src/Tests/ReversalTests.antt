-- ===== src/Tests/ReversalTests.antt =====
-- app/services/payment_reversal.py: 10.00 paid through the gateway on the contract of the payment tests,
-- and taken back.
use retail_credit_platform.Common.{◌≡◌, refl, pos, some, All, arith}
use retail_credit_platform.Common.Result.{ok}
use retail_credit_platform.Common.Text.{strip, text_eq}
use retail_credit_platform.Gateway.{PaymentIntentStatus}
use retail_credit_platform.Payments.Record.{
  Payment, PaymentSource, PaymentRequest, Store, settle_payment, find_payment,
}
use retail_credit_platform.Reversal.{reverse_settled_payment}
use retail_credit_platform.Reversal.Rows.{IsPayable}
use retail_credit_platform.Reversal.RoundTrip.{Restores, settle_then_reverse}
use retail_credit_platform.Tests.PaymentTests.{
  listed, counted, opened, sold, asks, sold-IsInOrder, within_total,
}
use retail_credit_platform.Tests.GatewayTests.{intent_one}

abbrev online : PaymentRequest
online = record (asks 1_000) {
  source = PaymentSource.gateway;
  payment_intent_id = some intent_one.id;
}

sold-IsPayable : All IsPayable sold.installments
sold-IsPayable = (
  record { nonneg = (omega arith, tt); unwaived = ((λ e. absurd (ground arith)), tt) },
  (record { nonneg = tt; unwaived = tt }, tt),
)

settle_then_reverse_example :
    (x : Store listed counted × Payment) × (reverse_settled_payment listed counted
        (settle_payment listed counted opened online (pos 1_000)).0
        intent_one
        PaymentIntentStatus.reversed
        5
        60
      ≡ ok x)
    × Restores listed counted opened x.0
unfolding settle_payment find_payment strip text_eq
settle_then_reverse_example =
    settle_then_reverse listed counted opened online (pos 1_000) intent_one
      PaymentIntentStatus.reversed 5 60 sold-IsInOrder.well_formed sold-IsPayable tt (omega arith)
      (within_total 1_000 (omega arith)) refl refl refl refl
