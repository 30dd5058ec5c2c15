-- ===== src/Offers/Delivery.antt =====
-- app/services/offers.py: `confirm_delivery`.
use retail_credit_platform.Common.{ℕ, ℤ, Bool, true, false, not, if◌then◌else◌}
use retail_credit_platform.Common.Result.{Result, ok, err}
use retail_credit_platform.Contract.{InstallmentContract, ContractStatus}
use retail_credit_platform.Accounting.{
  Accounting, EventDraft, AccountingEventType, ReferencePrefix, SourceTable,
}
use retail_credit_platform.Payments.Record.{Collections}
use retail_credit_platform.Closure.Endings.{Desk}

abbrev pub is_created : ContractStatus → Bool
is_created ContractStatus.created = true
is_created _ = false

pub data DeliveryError : Type 0 where
  not_created : DeliveryError

-- The provisioning of expected credit loss as its clients see it: it keeps assessments of its own.
pub record Provisioning : Type 1 where
  pub Assessments : Type 0
  pub initial_assessment : InstallmentContract → Assessments → Assessments

abbrev pub delivery_event :
    ReferencePrefix → AccountingEventType → InstallmentContract → ℤ → (now : ℕ) → EventDraft
delivery_event prefix event_type contract amount now = record {
  event_type = event_type;
  event_reference = record { prefix = prefix; number = contract.id };
  contract_id = contract.id;
  amount = amount;
  event_date = now;
  source_table = SourceTable.sales_order;
  source_id = contract.sales_order_id;
}

module _ (acc : Accounting) (col : Collections) (ecl : Provisioning) where
  unfoldable pub delivered : (now : ℕ) → Desk acc col → Desk acc col
  delivered now d =
      let s = d.store in
      let contract = record s.contract { status = ContractStatus.active } in
      let activated =
        acc.emit
          (delivery_event ReferencePrefix.contract_activated AccountingEventType.contract_activated
            contract d.order.sale_price now)
          s.books in
      let books =
        acc.emit
          (delivery_event ReferencePrefix.down_payment_received
            AccountingEventType.down_payment_received contract d.order.down_payment_amount now)
          activated in
      record d { store = record s { contract = contract; books = books } }

  unfoldable pub confirm_delivery :
      (now : ℕ)
      → Desk acc col
      → ecl.Assessments
      → Result DeliveryError (Desk acc col × ecl.Assessments)
  unfolding delivered
  confirm_delivery now d assessments =
      if not (is_created d.store.contract.status)
      then err not_created
      else ok (delivered now d, ecl.initial_assessment (delivered now d).store.contract assessments)
