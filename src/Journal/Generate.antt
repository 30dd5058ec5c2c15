-- ===== src/Journal/Generate.antt =====
-- `_resolve_mapping_for`, `_build_lines` and `generate_journal`.
use retail_credit_platform.Common.{
  ℕ, ◌+◌, ℤ, pos, ◌-ℤ◌, ltb_ℤ, leb, ltb, ◌==◌, Bool, true, false, not, ◌&&◌, ◌||◌, Option, none,
  some, List, [], ◌∷◌, ◌++◌, keep, sum_by, any, if◌then◌else◌, eqb_ℤ,
}
use retail_credit_platform.Common.Rounding.{money_times}
use retail_credit_platform.Common.Result.{Result, ok, err}
use retail_credit_platform.Common.Sorting.{sort_by}
use retail_credit_platform.Accounting.{AccountingEventType, event_type_code}
use retail_credit_platform.Journal.{
  PostingSide, EventClassification, AmountSource, ChartOfAccount, EventAccountMappingLine,
  EventAccountMapping, AccountingEvent, JournalStatus, JournalError, GlJournal, GlJournalLine,
  is_debit, flip,
}
use retail_credit_platform.Journal.Sources.{Sources, resolve}

pub record ResolvedLine : Type 0 where
  pub posting_side : PostingSide
  pub account : ChartOfAccount
  pub amount : ℤ
  pub amount_source : AmountSource

-- Whether a mapping is in effect for a type of event on a day.
unfoldable pub is_effective : AccountingEventType → (day : ℕ) → EventAccountMapping → Bool
is_effective kind day m =
    event_type_code m.account_event_type == event_type_code kind
    && leb m.effective_from day
    && elim m.effective_to [ none ↦ true | some last ↦ leb day last ]

-- The first mapping of the greatest version.
unfoldable pub latest : List EventAccountMapping → Option EventAccountMapping
latest [] = none
latest (m ∷ ms) = elim (latest ms) [
  | none ↦ some m
  | some other ↦ if ltb m.version other.version then some other else some m
]

unfoldable pub resolve_mapping_for :
    List EventAccountMapping → AccountingEventType → (day : ℕ) → Option EventAccountMapping
unfolding latest
resolve_mapping_for mappings kind day = latest (keep (is_effective kind day) mappings)

abbrev pub resolved : EventAccountMappingLine → PostingSide → ℤ → ResolvedLine
resolved line side amount = record {
  posting_side = side;
  account = line.account;
  amount = amount;
  amount_source = line.amount_source;
}

module _ (src : Sources) (event : AccountingEvent) where
  -- One round of the loop: the line that is added, if any, or the error.
  unfoldable pub resolve_line : EventAccountMappingLine → Result JournalError (Option ResolvedLine)
  resolve_line line = elim (resolve src event line.amount_source) [
    | none ↦ err (JournalError.source_missing line.line_sequence)
    | some raw ↦
        let amount = money_times raw line.multiplier in
        if ltb_ℤ amount (pos 0)
        then (if not line.reverse_on_negative
            then err (JournalError.negative_amount line.line_sequence)
            else ok (some (resolved line (flip line.posting_side) (pos 0 -ℤ amount))))
        else if eqb_ℤ amount (pos 0)
        then ok none
        else ok (some (resolved line line.posting_side amount))
  ]

  -- The loop ends at the first error.
  unfoldable pub resolve_lines :
      List EventAccountMappingLine → Result JournalError (List ResolvedLine)
  unfolding resolve_line
  resolve_lines [] = ok []
  resolve_lines (line ∷ lines) = elim (resolve_line line) [
    | err e ↦ err e
    | ok none ↦ resolve_lines lines
    | ok (some r) ↦ elim (resolve_lines lines) [ err e ↦ err e | ok rs ↦ ok (r ∷ rs) ]
  ]

  unfoldable pub build_lines : EventAccountMapping → Result JournalError (List ResolvedLine)
  unfolding resolve_lines
  build_lines mapping =
      resolve_lines (sort_by (λ l. l.line_sequence) (keep (λ l. l.is_active) mapping.lines))

abbrev pub on_debit : ResolvedLine → Bool
on_debit l = is_debit l.posting_side

abbrev pub on_credit : ResolvedLine → Bool
on_credit l = not (is_debit l.posting_side)

unfoldable pub debit_total : List ResolvedLine → ℤ
debit_total ls = sum_by (λ l. l.amount) (keep on_debit ls)

unfoldable pub credit_total : List ResolvedLine → ℤ
credit_total ls = sum_by (λ l. l.amount) (keep on_credit ls)

-- `enumerate(resolved_lines, start=1)`
unfoldable pub journal_lines : ℕ → List ResolvedLine → List GlJournalLine
journal_lines i [] = []
journal_lines i (l ∷ ls) =
    record {
      line_sequence = i;
      posting_side = l.posting_side;
      account_id = l.account.id;
      account_code_snapshot = l.account.account_code;
      account_name_snapshot = l.account.account_name;
      amount = l.amount;
      amount_source = l.amount_source;
    }
    ∷ journal_lines (i + 1) ls

-- A journal without lines.
abbrev pub bare_journal : AccountingEvent → Option ℕ → JournalStatus → JournalError → GlJournal
bare_journal event mapping status error = record {
  accounting_event_id = event.id;
  mapping_version_id = mapping;
  journal_status = status;
  event_date = event.event_date;
  total_debit = pos 0;
  total_credit = pos 0;
  is_balanced = false;
  external_gl_reference = none;
  error_message = some error;
  retry_count = 0;
  lines = [];
}

unfoldable pub ready_journal : AccountingEvent → ℕ → List ResolvedLine → GlJournal
unfolding journal_lines debit_total credit_total
ready_journal event mapping ls = record {
  accounting_event_id = event.id;
  mapping_version_id = some mapping;
  journal_status = JournalStatus.ready;
  event_date = event.event_date;
  total_debit = debit_total ls;
  total_credit = credit_total ls;
  is_balanced = true;
  external_gl_reference = none;
  error_message = none;
  retry_count = 0;
  lines = journal_lines 1 ls;
}

-- The journal of the lines that a mapping resolves to.
unfoldable pub close_journal :
    AccountingEvent → ℕ → Result JournalError (List ResolvedLine) → GlJournal
unfolding ready_journal
close_journal event mapping (err e) = bare_journal event (some mapping) JournalStatus.failed e
close_journal event mapping (ok ls) =
    if not (any on_debit ls) || not (any on_credit ls)
    then bare_journal event (some mapping) JournalStatus.failed JournalError.no_pair
    else if not (eqb_ℤ (debit_total ls) (credit_total ls))
    then bare_journal event (some mapping) JournalStatus.failed JournalError.not_balanced
    else ready_journal event mapping ls

abbrev pub is_postable : EventClassification → Bool
is_postable EventClassification.postable = true
is_postable _ = false

unfoldable pub find_journal : ℕ → List GlJournal → Option GlJournal
find_journal id [] = none
find_journal id (j ∷ js) = if j.accounting_event_id == id then some j else find_journal id js

-- `generate_journal`: the journals after it, and the one it returns. `day_of` is the calendar day of a
-- moment.
unfoldable pub generate_journal :
    (day_of : ℕ → ℕ)
    → List EventAccountMapping
    → Sources
    → AccountingEvent
    → List GlJournal
    → List GlJournal × Option GlJournal
unfolding find_journal close_journal build_lines resolve_mapping_for
generate_journal day_of mappings src event journals = elim (find_journal event.id journals) [
  | some existing ↦ (journals, some existing)
  | none ↦ elim (resolve_mapping_for mappings event.event_type (day_of event.event_date)) [
    | none ↦
        let journal = bare_journal event none JournalStatus.unmapped JournalError.no_mapping in
        (journals ++ journal ∷ [], some journal)
    | some mapping ↦
        if not (is_postable mapping.classification)
        then (journals, none)
        else let journal = close_journal event mapping.id (build_lines src event mapping) in
          (journals ++ journal ∷ [], some journal)
  ]
]
