-- ===== src/Accounting.antt =====
-- app/models/accounting.py: the accounting events, and the face that the accounting boundary shows to
-- the services that emit them.
use retail_credit_platform.Common.{
  ℕ, ℤ, ◌≡◌, Bool, ◌==◌, ◌&&◌, List, [], ◌∷◌, ◌++◌, if◌then◌else◌, any,
}

pub data AccountingEventType : Type 0 where
  contract_activated down_payment_received payment_received profit_recognized late_fee_charged
        late_fee_waived early_settlement cancellation return contract_closed ecl_provision_movement
        ecl_provision_created ecl_provision_increased ecl_provision_released
        ecl_provision_override_adjustment payment_reversed refund_completed gateway_fee_recognized
        settlement_difference write_off_executed partial_write_off_executed recovery_received
        recovery_adjustment :
      AccountingEventType

-- The position of a type in its declaration, to compare types with.
abbrev pub event_type_code : AccountingEventType → ℕ
event_type_code AccountingEventType.contract_activated = 0
event_type_code AccountingEventType.down_payment_received = 1
event_type_code AccountingEventType.payment_received = 2
event_type_code AccountingEventType.profit_recognized = 3
event_type_code AccountingEventType.late_fee_charged = 4
event_type_code AccountingEventType.late_fee_waived = 5
event_type_code AccountingEventType.early_settlement = 6
event_type_code AccountingEventType.cancellation = 7
event_type_code AccountingEventType.return = 8
event_type_code AccountingEventType.contract_closed = 9
event_type_code AccountingEventType.ecl_provision_movement = 10
event_type_code AccountingEventType.ecl_provision_created = 11
event_type_code AccountingEventType.ecl_provision_increased = 12
event_type_code AccountingEventType.ecl_provision_released = 13
event_type_code AccountingEventType.ecl_provision_override_adjustment = 14
event_type_code AccountingEventType.payment_reversed = 15
event_type_code AccountingEventType.refund_completed = 16
event_type_code AccountingEventType.gateway_fee_recognized = 17
event_type_code AccountingEventType.settlement_difference = 18
event_type_code AccountingEventType.write_off_executed = 19
event_type_code AccountingEventType.partial_write_off_executed = 20
event_type_code AccountingEventType.recovery_received = 21
event_type_code AccountingEventType.recovery_adjustment = 22

-- The texts that the code puts before the number in an `event_reference`. No two of them are the
-- same and none ends in a digit, so a reference is this prefix with its number.
pub data ReferencePrefix : Type 0 where
  contract_activated down_payment_received payment_received profit_recognized late_fee_charged
        early_settlement cancellation return normal_closure gateway_reversal gateway_fee :
      ReferencePrefix

abbrev pub prefix_code : ReferencePrefix → ℕ
prefix_code ReferencePrefix.contract_activated = 0
prefix_code ReferencePrefix.down_payment_received = 1
prefix_code ReferencePrefix.payment_received = 2
prefix_code ReferencePrefix.profit_recognized = 3
prefix_code ReferencePrefix.late_fee_charged = 4
prefix_code ReferencePrefix.early_settlement = 5
prefix_code ReferencePrefix.cancellation = 6
prefix_code ReferencePrefix.return = 7
prefix_code ReferencePrefix.normal_closure = 8
prefix_code ReferencePrefix.gateway_reversal = 9
prefix_code ReferencePrefix.gateway_fee = 10

pub record EventReference : Type 0 where
  pub prefix : ReferencePrefix
  pub number : ℕ

unfoldable pub same_reference : EventReference → EventReference → Bool
same_reference a b = prefix_code a.prefix == prefix_code b.prefix && a.number == b.number

pub data SourceTable : Type 0 where
  payment contract_closure late_fee_charge sales_order gateway_transaction write_off_execution :
      SourceTable

-- What a service hands to `accounting.emit`.
pub record EventDraft : Type 0 where
  pub event_type : AccountingEventType
  pub event_reference : EventReference
  pub contract_id : ℕ
  pub amount : ℤ
  pub event_date : ℕ
  pub source_table : SourceTable
  pub source_id : ℕ

unfoldable pub already_emitted : EventReference → List EventDraft → Bool
already_emitted r events = any (λ e. same_reference e.event_reference r) events

-- The accounting boundary as its clients see it: books, what was emitted into them, and `emit`, which
-- adds an event once for each reference and never takes one away.
pub record Accounting : Type 1 where
  pub Books : Type 0
  pub events : Books → List EventDraft
  pub emit : EventDraft → Books → Books
  pub events_emit :
      (d : EventDraft) (b : Books)
      → events (emit d b)
        ≡ (if already_emitted d.event_reference (events b) then events b else events b ++ d ∷ [])
