-- ===== src/Journal/Books.antt =====
-- app/services/accounting.py: the books, with `emit`, `post_pending` and `retry_failed_posting`.
use retail_credit_platform.Common.{
  ℕ, ◌+◌, Bool, true, false, not, ◌==◌, ◌||◌, Option, none, some, List, [], ◌∷◌, ◌++◌, map,
  if◌then◌else◌,
}
use retail_credit_platform.Common.Result.{Result, ok, err}
use retail_credit_platform.Common.Text.{Text}
use retail_credit_platform.Accounting.{EventDraft, already_emitted}
use retail_credit_platform.Journal.{
  EventAccountMapping, AccountingEvent, JournalStatus, JournalError, GlJournal, is_ready,
}
use retail_credit_platform.Journal.Sources.{Sources}
use retail_credit_platform.Journal.Generate.{generate_journal}

pub data AccountingStatus : Type 0 where
  pending posted failed : AccountingStatus

-- A row of `accounting_events`.
pub record EventRow : Type 0 where
  pub id : ℕ
  pub draft : EventDraft
  pub accounting_status : AccountingStatus
  pub external_gl_reference : Option Text
  pub error_message : Option JournalError
  pub retry_count : ℕ

pub record Books : Type 0 where
  pub rows : List EventRow
  pub next_event : ℕ
  pub journals : List GlJournal

unfoldable pub drafts : List EventRow → List EventDraft
drafts = map (λ r. r.draft)

abbrev pub new_row : ℕ → EventDraft → EventRow
new_row id d = record {
  id = id;
  draft = d;
  accounting_status = AccountingStatus.pending;
  external_gl_reference = none;
  error_message = none;
  retry_count = 0;
}

abbrev pub event_of : EventRow → AccountingEvent
event_of r = record {
  id = r.id;
  event_type = r.draft.event_type;
  contract_id = some r.draft.contract_id;
  amount = r.draft.amount;
  event_date = r.draft.event_date;
  source_table = some r.draft.source_table;
  source_id = some r.draft.source_id;
}

-- The calendar day of a moment, the mappings that were approved by the time of an event, and the other
-- tables as its journal's generation finds them.
module _ (day_of : ℕ → ℕ) (mappings : ℕ → List EventAccountMapping) (tables : ℕ → Sources) where
  -- `emit`; `emit_unscoped` differs in the columns of the contract only.
  unfoldable pub emit : EventDraft → Books → Books
  emit d b =
      let row = new_row b.next_event d in
      if already_emitted d.event_reference (drafts b.rows) then b else record {
        rows = b.rows ++ row ∷ [];
        next_event = b.next_event + 1;
        journals =
            (generate_journal day_of (mappings b.next_event) (tables b.next_event) (event_of row)
              b.journals).0;
      }

pub record PostingSummary : Type 0 where
  pub events_considered : ℕ
  pub posted : ℕ
  pub failed : ℕ

abbrev pub no_postings : PostingSummary
no_postings = record { events_considered = 0; posted = 0; failed = 0 }

abbrev pub count_posting : Bool → PostingSummary → PostingSummary
count_posting true s = record s {
  events_considered = s.events_considered + 1;
  posted = s.posted + 1;
}
count_posting false s = record s {
  events_considered = s.events_considered + 1;
  failed = s.failed + 1;
}

pub data RetryError : Type 0 where
  not_eligible : RetryError

abbrev pub is_failed : JournalStatus → Bool
is_failed JournalStatus.failed = true
is_failed _ = false

-- What the provider answers for a journal: its reference, or why it is rejected.
module _ (post_journal : GlJournal → Result Text Text) where
  -- `_post_one_journal`, on the journal and on its event, and whether the provider accepted it.
  unfoldable pub posted_journal : GlJournal → GlJournal
  posted_journal j = elim (post_journal j) [
    | ok reference ↦ record j {
      journal_status = JournalStatus.posted;
      external_gl_reference = some reference;
      error_message = none;
    }
    | err message ↦ record j {
      journal_status = JournalStatus.failed;
      error_message = some (JournalError.rejected message);
      retry_count = j.retry_count + 1;
    }
  ]

  abbrev pub is_accepted : GlJournal → Bool
  is_accepted j = elim (post_journal j) [ ok reference ↦ true | err message ↦ false ]

  unfoldable pub posted_event : GlJournal → EventRow → EventRow
  posted_event j r = elim (post_journal j) [
    | ok reference ↦ record r {
      accounting_status = AccountingStatus.posted;
      external_gl_reference = some reference;
      error_message = none;
    }
    | err message ↦ record r {
      accounting_status = AccountingStatus.failed;
      error_message = some (JournalError.rejected message);
      retry_count = r.retry_count + 1;
    }
  ]

  unfoldable pub post_event_of : GlJournal → List EventRow → List EventRow
  unfolding posted_event
  post_event_of j [] = []
  post_event_of j (r ∷ rs) =
      (if r.id == j.accounting_event_id then posted_event j r else r) ∷ post_event_of j rs

  -- The journals, in the order of their numbers: each that is ready is posted.
  unfoldable pub post_journals : List GlJournal → List GlJournal
  unfolding posted_journal
  post_journals [] = []
  post_journals (j ∷ js) =
      (if is_ready j.journal_status then posted_journal j else j) ∷ post_journals js

  unfoldable pub post_events : List GlJournal → List EventRow → List EventRow
  unfolding post_event_of
  post_events [] rows = rows
  post_events (j ∷ js) rows =
      post_events js (if is_ready j.journal_status then post_event_of j rows else rows)

  unfoldable pub summarise_postings : List GlJournal → PostingSummary
  summarise_postings [] = no_postings
  summarise_postings (j ∷ js) =
      let rest = summarise_postings js in
      if is_ready j.journal_status then count_posting (is_accepted j) rest else rest

  unfoldable pub post_pending : Books → Books × PostingSummary
  unfolding post_journals post_events summarise_postings
  post_pending b = (
    record b { rows = post_events b.journals b.rows; journals = post_journals b.journals },
    summarise_postings b.journals,
  )

  -- `retry_failed_posting` on the journal of an event.
  unfoldable pub repost : ℕ → List GlJournal → List GlJournal
  unfolding posted_journal
  repost id [] = []
  repost id (j ∷ js) = (if j.accounting_event_id == id then posted_journal j else j) ∷ repost id js

  unfoldable pub retry_failed_posting : GlJournal → Books → Result RetryError (Books × Bool)
  unfolding repost post_event_of
  retry_failed_posting j b =
      if not (is_failed j.journal_status) || not j.is_balanced
      then err not_eligible
      else ok (
        record b {
          rows = post_event_of j b.rows;
          journals = repost j.accounting_event_id b.journals;
        },
        is_accepted j,
      )
