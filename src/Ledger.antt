-- ===== src/Ledger.antt =====
-- app/models/ledger.py and app/services/ledger.py: the append-only ledger.
use retail_credit_platform.Common.{ℕ, ℤ, Option, List, [], ◌∷◌, ◌++◌}

pub data LedgerEntryType : Type 0 where
  principal_scheduled principal_paid profit_scheduled profit_recognized profit_rebated
        late_fee_charged late_fee_paid late_fee_waived down_payment_received refund_issued
        principal_written_off profit_written_off late_fee_written_off return_principal_cleared
        return_late_fee_cleared return_profit_retained return_profit_waived :
      LedgerEntryType

pub data LedgerRelatedAction : Type 0 where
  origination payment settlement cancellation return waiver reversal write_off : LedgerRelatedAction

-- The row that caused an entry.
pub data ReferenceType : Type 0 where
  payment contract_closure late_fee_charge approval_request write_off_execution : ReferenceType

pub record LedgerEntry : Type 0 where
  pub contract_id : ℕ
  pub entry_type : LedgerEntryType
  pub amount : ℤ
  pub related_action : LedgerRelatedAction
  pub reference_type : ReferenceType
  pub reference_id : ℕ
  pub created_by : Option ℕ

-- `record_entry`: an entry is appended, never changed. (Its amount is in whole cents already.)
unfoldable pub record_entry : LedgerEntry → List LedgerEntry → List LedgerEntry
record_entry entry ledger = ledger ++ entry ∷ []
