-- ===== src/Closure/Endings.antt =====
-- app/services/closure.py: early settlement, cancellation and return.
use retail_credit_platform.Common.{
  ℕ, ◌+◌, ℤ, pos, ◌+ℤ◌, ◌-ℤ◌, ltb_ℤ, eqb_ℤ, ◌==◌, Bool, true, false, not, Option, none, some, List,
  [], ◌∷◌, ◌++◌, map, if◌then◌else◌,
}
use retail_credit_platform.Common.Rounding.{Decimal, money, money_times}
use retail_credit_platform.Common.Result.{Result, ok, err}
use retail_credit_platform.Common.Text.{Text, strip}
use retail_credit_platform.Contract.{
  LateFeeCharge, LateFeeStatus, Installment, InstallmentStatus, InstallmentContract, ContractStatus,
  ContractClosure, ClosureReason, SalesOrder, is_active, is_waived,
}
use retail_credit_platform.Contract.Receivable.{PaymentReconciliationStatus}
use retail_credit_platform.Ledger.{
  LedgerEntry, LedgerEntryType, LedgerRelatedAction, ReferenceType, record_entry,
}
use retail_credit_platform.Accounting.{
  Accounting, EventDraft, AccountingEventType, ReferencePrefix, SourceTable,
}
use retail_credit_platform.Payments.Record.{
  Collections, Store, Payment, PaymentStatus, PaymentSource, find_payment,
}
use retail_credit_platform.Closure.Quote.{
  ClosureConfig, ClosureError, RebateRequest, SettlementQuote, build_settlement_quote,
  unless_closed,
}

unfoldable pub settle_charge : LateFeeCharge → LateFeeCharge
settle_charge c = elim (is_waived c.status) [
  | true ↦ c
  | false ↦ record c { amount_paid = c.amount; status = LateFeeStatus.paid }
]

unfoldable pub settle_installment : Installment → Installment
unfolding settle_charge
settle_installment i = record i {
  principal_paid = i.principal_component;
  profit_paid = i.profit_component;
  status = InstallmentStatus.paid;
  late_fee_charges = map settle_charge i.late_fee_charges;
}

unfoldable pub close_out_schedule : InstallmentContract → InstallmentContract
unfolding settle_installment
close_out_schedule contract = record contract {
  installments = map settle_installment contract.installments;
  unearned_profit_balance = pos 0;
}

-- The contract once its closure is added.
abbrev pub ended : ContractClosure → InstallmentContract → InstallmentContract
ended closure contract = record contract { status = ContractStatus.closed; closure = some closure }

-- `_emit_closure_event` for a closure that was added at `now`.
abbrev pub ending_event :
    AccountingEventType
    → ReferencePrefix
    → (contract_id : ℕ) → ContractClosure
    → (now : ℕ) → EventDraft
ending_event event_type prefix contract_id closure now = record {
  event_type = event_type;
  event_reference = record { prefix = prefix; number = closure.id };
  contract_id = contract_id;
  amount = elim closure.financial_adjustment [ none ↦ pos 0 | some z ↦ z ];
  event_date = now;
  source_table = SourceTable.contract_closure;
  source_id = closure.id;
}

module _ (contract_id closure_id : ℕ) (created_by : Option ℕ) (action : LedgerRelatedAction) where
  abbrev pub closure_entry : LedgerEntryType → ℤ → LedgerEntry
  closure_entry entry_type amount = record {
    contract_id = contract_id;
    entry_type = entry_type;
    amount = amount;
    related_action = action;
    reference_type = ReferenceType.contract_closure;
    reference_id = closure_id;
    created_by = created_by;
  }

  -- The loop over the parts of a payoff: those above zero are recorded.
  unfoldable pub record_parts : List (LedgerEntryType × ℤ) → List LedgerEntry → List LedgerEntry
  record_parts [] ledger = ledger
  record_parts ((entry_type, amount) ∷ parts) ledger = record_parts parts (
      if ltb_ℤ (pos 0) amount
      then record_entry (closure_entry entry_type amount) ledger
      else ledger)

abbrev pub settlement_parts : SettlementQuote → List (LedgerEntryType × ℤ)
settlement_parts q =
    (LedgerEntryType.principal_paid, q.outstanding_principal)
    ∷ (LedgerEntryType.late_fee_paid, q.outstanding_late_fees)
    ∷ (LedgerEntryType.profit_recognized, q.profit_still_charged)
    ∷ (LedgerEntryType.profit_rebated, q.profit_rebate_amount)
    ∷ []

abbrev pub return_parts : SettlementQuote → List (LedgerEntryType × ℤ)
return_parts q =
    (LedgerEntryType.return_principal_cleared, q.outstanding_principal)
    ∷ (LedgerEntryType.return_late_fee_cleared, q.outstanding_late_fees)
    ∷ (LedgerEntryType.return_profit_retained, q.profit_still_charged)
    ∷ (LedgerEntryType.return_profit_waived, q.profit_rebate_amount)
    ∷ []

pub record Product : Type 0 where
  pub id : ℕ
  pub stock_quantity : Option ℤ

-- `_release_stock`, of the product that the contract's order names.
unfoldable pub release_stock : SalesOrder → List Product → List Product
release_stock order [] = []
release_stock order (p ∷ ps) =
    (if p.id == order.product_id
      then record p {
        stock_quantity = some (elim p.stock_quantity [ none ↦ pos 0 | some z ↦ z ] +ℤ pos 1);
      }
      else p)
    ∷ release_stock order ps

pub record CancellationResult : Type 0 where
  pub closure : ContractClosure
  pub down_payment_amount : ℤ
  pub refund_pct : Decimal
  pub down_payment_refund : ℤ

pub record ReturnResult : Type 0 where
  pub closure : ContractClosure
  pub quote : SettlementQuote
  pub down_payment_amount : ℤ
  pub refund_pct : Decimal
  pub down_payment_refund : ℤ
  pub net_adjustment : ℤ
  pub ownership_transfers_on_delivery : Bool

-- The arguments of `settle_contract`.
pub record SettleRequest : Type 0 where
  pub amount : Decimal
  pub external_reference : Text
  pub actor_id : Option ℕ
  pub rebate : RebateRequest
  pub now : ℕ

abbrev pub no_request : RebateRequest
no_request = record { pct = none; amount = none }

module _ (acc : Accounting) (col : Collections) where
  -- A contract that is sold at a desk: its rows, its order, and the products.
  pub record Desk : Type 0 where
    pub store : Store acc col
    pub order : SalesOrder
    pub products : List Product

module _ (acc : Accounting) (col : Collections) (config : ClosureConfig) where
  unfoldable pub settlement_payment : Store acc col → SettleRequest → Payment
  settlement_payment s r = record {
    id = s.next_payment;
    contract_id = s.contract.id;
    amount = money r.amount;
    external_reference = strip r.external_reference;
    received_at = r.now;
    status = PaymentStatus.applied;
    reconciliation_status = PaymentReconciliationStatus.unreconciled;
    allocated_amount = money r.amount;
    unallocated_amount = pos 0;
    source = PaymentSource.staff;
    payment_intent_id = none;
  }

  abbrev pub settlement_closure : Store acc col → ContractClosure
  settlement_closure s = record {
    id = s.next_closure;
    reason = ClosureReason.early_settlement;
    financial_adjustment = none;
  }

  -- What follows the check of the amount.
  unfoldable pub settle_for : Store acc col → SettleRequest → SettlementQuote → Store acc col
  unfolding settlement_payment close_out_schedule
  settle_for s r quote =
      let closure = settlement_closure s in
      record s {
        contract = ended closure (close_out_schedule s.contract);
        payments = s.payments ++ settlement_payment s r ∷ [];
        ledger =
            record_parts s.contract.id closure.id r.actor_id LedgerRelatedAction.settlement
              (settlement_parts quote) s.ledger;
        books =
            acc.emit
              (ending_event AccountingEventType.early_settlement ReferencePrefix.early_settlement
                s.contract.id closure r.now)
              s.books;
        next_payment = s.next_payment + 1;
        next_closure = s.next_closure + 1;
      }

  -- The database keeps the references of a contract's payments apart, and refuses a second one.
  unfoldable pub settle_contract :
      Store acc col → SettleRequest → Result ClosureError (Store acc col × ContractClosure)
  unfolding settle_for
  settle_contract s r = elim (build_settlement_quote config r.now s.contract r.rebate) [
    | err e ↦ err e
    | ok quote ↦
        if not (eqb_ℤ (money r.amount) quote.final_payoff_amount)
        then err ClosureError.amount_mismatch
        else elim (find_payment (strip r.external_reference) s.payments) [
          | some taken ↦ err ClosureError.reference_taken
          | none ↦ ok (settle_for s r quote, settlement_closure s)
        ]
  ]

  abbrev pub cancellation_refund : Desk acc col → ℤ
  cancellation_refund d =
      money_times d.order.down_payment_amount config.down_payment_refund_pct_cancellation

  abbrev pub cancellation_closure : Desk acc col → ContractClosure
  cancellation_closure d = record {
    id = d.store.next_closure;
    reason = ClosureReason.cancellation;
    financial_adjustment = some (cancellation_refund d);
  }

  unfoldable pub cancelled : (now : ℕ) (actor_id : Option ℕ) → Desk acc col → Desk acc col
  cancelled now actor_id d =
      let s = d.store in
      let closure = cancellation_closure d in
      record d {
        store = record s {
          contract = ended closure (record s.contract { unearned_profit_balance = pos 0 });
          ledger =
              record_parts s.contract.id closure.id actor_id LedgerRelatedAction.cancellation
                ((LedgerEntryType.refund_issued, cancellation_refund d) ∷ []) s.ledger;
          books =
              acc.emit
                (ending_event AccountingEventType.cancellation ReferencePrefix.cancellation
                  s.contract.id closure now)
                s.books;
          next_closure = s.next_closure + 1;
        };
        products = release_stock d.order d.products;
      }

  -- Of the statuses only `created` passes both guards.
  unfoldable pub cancel_contract :
      (now : ℕ) (actor_id : Option ℕ)
      → Desk acc col
      → Result ClosureError (Desk acc col × CancellationResult)
  unfolding cancelled
  cancel_contract now actor_id d = unless_closed d.store.contract (
      if is_active d.store.contract.status
      then err ClosureError.already_delivered
      else ok (
        cancelled now actor_id d,
        record {
          closure = cancellation_closure d;
          down_payment_amount = d.order.down_payment_amount;
          refund_pct = config.down_payment_refund_pct_cancellation;
          down_payment_refund = cancellation_refund d;
        },
      ))

  abbrev pub return_refund : Desk acc col → ℤ
  return_refund d = money_times d.order.down_payment_amount config.down_payment_refund_pct_return

  abbrev pub net_adjustment : Desk acc col → SettlementQuote → ℤ
  net_adjustment d quote = return_refund d -ℤ quote.final_payoff_amount

  abbrev pub return_closure : Desk acc col → SettlementQuote → ContractClosure
  return_closure d quote = record {
    id = d.store.next_closure;
    reason = ClosureReason.return;
    financial_adjustment = some (net_adjustment d quote);
  }

  unfoldable pub record_adjustment :
      (contract_id closure_id : ℕ) (actor_id : Option ℕ) → ℤ → List LedgerEntry → List LedgerEntry
  record_adjustment contract_id closure_id actor_id amount ledger =
      if not (eqb_ℤ amount (pos 0))
      then record_entry
          (closure_entry contract_id closure_id actor_id LedgerRelatedAction.return
            LedgerEntryType.refund_issued amount)
          ledger
      else ledger

  unfoldable pub returned :
      (now : ℕ) (actor_id : Option ℕ) → Desk acc col → SettlementQuote → Desk acc col
  unfolding close_out_schedule record_adjustment
  returned now actor_id d quote =
      let s = d.store in
      let closure = return_closure d quote in
      record d {
        store = record s {
          contract = ended closure (close_out_schedule s.contract);
          ledger = record_adjustment s.contract.id closure.id actor_id (net_adjustment d quote) (
              record_parts s.contract.id closure.id actor_id LedgerRelatedAction.return
                (return_parts quote) s.ledger);
          books =
              acc.emit
                (ending_event AccountingEventType.return ReferencePrefix.return s.contract.id
                  closure now)
                s.books;
          next_closure = s.next_closure + 1;
        };
        products = release_stock d.order d.products;
      }

  -- Of the statuses only `active` passes the guards, the quote's among them.
  unfoldable pub return_contract :
      (now : ℕ) (actor_id : Option ℕ)
      → Desk acc col
      → Result ClosureError (Desk acc col × ReturnResult)
  unfolding returned
  return_contract now actor_id d = unless_closed d.store.contract (
      if not (is_active d.store.contract.status)
      then err ClosureError.not_delivered
      else elim (build_settlement_quote config now d.store.contract no_request) [
        | err e ↦ err e
        | ok quote ↦ ok (
          returned now actor_id d quote,
          record {
            closure = return_closure d quote;
            quote = quote;
            down_payment_amount = d.order.down_payment_amount;
            refund_pct = config.down_payment_refund_pct_return;
            down_payment_refund = return_refund d;
            net_adjustment = net_adjustment d quote;
            ownership_transfers_on_delivery = config.ownership_transfers_on_delivery;
          },
        )
      ])
