-- ===== src/Journal.antt =====
-- app/models/gl.py and app/services/gl_journal.py: account mappings, and the journal that an accounting
-- event gets from the mapping in effect on its date.
pub mod Sources
pub mod Generate
pub mod Balance
pub mod Books
pub mod Posting
pub mod Posted
use retail_credit_platform.Common.{ℕ, ℤ, Bool, true, false, Option, List}
use retail_credit_platform.Common.Rounding.{Decimal}
use retail_credit_platform.Common.Text.{Text}
use retail_credit_platform.Accounting.{AccountingEventType, SourceTable}

pub data PostingSide : Type 0 where
  debit credit : PostingSide

pub data EventClassification : Type 0 where
  postable summary_only reserved : EventClassification

pub data AmountSource : Type 0 where
  event_amount absolute_event_amount cash_price down_payment financed_principal
        total_contractual_profit gross_installment_receivable payment_principal payment_profit
        payment_late_fee closure_ledger_principal closure_ledger_late_fee
        closure_ledger_profit_recognized closure_ledger_profit_rebated closure_ledger_payoff_total
        closure_ledger_return_principal closure_ledger_return_late_fee
        closure_ledger_return_profit_retained closure_ledger_return_profit_waived
        written_off_principal written_off_profit written_off_late_fee provision_used
        write_off_expense_excess :
      AmountSource

pub record ChartOfAccount : Type 0 where
  pub id : ℕ
  pub account_code : Text
  pub account_name : Text

pub record EventAccountMappingLine : Type 0 where
  pub line_sequence : ℕ
  pub posting_side : PostingSide
  pub account : ChartOfAccount
  pub amount_source : AmountSource
  pub multiplier : Decimal
  pub reverse_on_negative : Bool
  pub is_active : Bool

-- Dates are day numbers here.
pub record EventAccountMapping : Type 0 where
  pub id : ℕ
  pub account_event_type : AccountingEventType
  pub version : ℕ
  pub classification : EventClassification
  pub effective_from : ℕ
  pub effective_to : Option ℕ
  pub lines : List EventAccountMappingLine

-- The columns of an accounting event that journal generation reads.
pub record AccountingEvent : Type 0 where
  pub id : ℕ
  pub event_type : AccountingEventType
  pub contract_id : Option ℕ
  pub amount : ℤ
  pub event_date : ℕ
  pub source_table : Option SourceTable
  pub source_id : Option ℕ

pub data JournalStatus : Type 0 where
  unmapped ready posted failed : JournalStatus

pub record GlJournalLine : Type 0 where
  pub line_sequence : ℕ
  pub posting_side : PostingSide
  pub account_id : ℕ
  pub account_code_snapshot : Text
  pub account_name_snapshot : Text
  pub amount : ℤ
  pub amount_source : AmountSource

pub data JournalError : Type 0 where
  no_mapping no_pair not_balanced : JournalError
  source_missing negative_amount : (line_sequence : ℕ) → JournalError
  rejected : Text → JournalError

pub record GlJournal : Type 0 where
  pub accounting_event_id : ℕ
  pub mapping_version_id : Option ℕ
  pub journal_status : JournalStatus
  pub event_date : ℕ
  pub total_debit : ℤ
  pub total_credit : ℤ
  pub is_balanced : Bool
  pub external_gl_reference : Option Text
  pub error_message : Option JournalError
  pub retry_count : ℕ
  pub lines : List GlJournalLine

abbrev pub is_debit : PostingSide → Bool
is_debit PostingSide.debit = true
is_debit PostingSide.credit = false

abbrev pub is_ready : JournalStatus → Bool
is_ready JournalStatus.ready = true
is_ready _ = false

abbrev pub flip : PostingSide → PostingSide
flip PostingSide.debit = PostingSide.credit
flip PostingSide.credit = PostingSide.debit

abbrev pub is_posted : JournalStatus → Bool
is_posted JournalStatus.posted = true
is_posted _ = false
