-- ===== src/Tests/JournalTests.antt =====
-- app/services/gl_journal.py and app/services/accounting.py on the mapping of a received payment: the
-- whole amount is debited to the bank and credited to the receivables.
use retail_credit_platform.Common.{
  ℕ, ◌≡◌, refl, pos, ◌*ℤ◌, ◌-ℤ◌, ◌+ℤ◌, true, false, none, List, [], ◌∷◌, map, sum_by,
}
use retail_credit_platform.Common.Rounding.{money_times, round_half_up}
use retail_credit_platform.Common.Result.{Result, ok}
use retail_credit_platform.Common.Text.{Text}
use retail_credit_platform.Common.Sorting.{sort_by}
use retail_credit_platform.Accounting.{
  AccountingEventType, EventDraft, ReferencePrefix, SourceTable,
}
use retail_credit_platform.Journal.{
  PostingSide, EventClassification, AmountSource, EventAccountMapping, EventAccountMappingLine,
  AccountingEvent, GlJournal, JournalStatus,
}
use retail_credit_platform.Journal.Sources.{Sources, resolve}
use retail_credit_platform.Journal.Generate.{generate_journal}
use retail_credit_platform.Journal.Balance.{Adds, generate_journal-Adds}
use retail_credit_platform.Journal.Books.{Books, emit, event_of, new_row}
use retail_credit_platform.Journal.Posting.{IsSoundBooks, emit-IsSoundBooks}
use retail_credit_platform.Journal.Posted.{IsPosted, post_pending-IsPosted}

abbrev line : ℕ → PostingSide → EventAccountMappingLine
line n side = record {
  line_sequence = n;
  posting_side = side;
  account = record { id = n; account_code = 49 ∷ []; account_name = 65 ∷ [] };
  amount_source = AmountSource.event_amount;
  multiplier = record { coefficient = pos 1; places = 0 };
  reverse_on_negative = false;
  is_active = true;
}

abbrev received_mapping : EventAccountMapping
received_mapping = record {
  id = 1;
  account_event_type = AccountingEventType.payment_received;
  version = 1;
  classification = EventClassification.postable;
  effective_from = 0;
  effective_to = none;
  lines = line 1 PostingSide.debit ∷ line 2 PostingSide.credit ∷ [];
}

abbrev bare_tables : Sources
bare_tables = record {
  contract = λ id. none;
  sales_order = λ id. none;
  write_off_execution = λ id. none;
  allocations = [];
  ledger = [];
}

abbrev received : EventDraft
received = record {
  event_type = AccountingEventType.payment_received;
  event_reference = record { prefix = ReferencePrefix.payment_received; number = 1 };
  contract_id = 7;
  amount = pos 1_000;
  event_date = 45;
  source_table = SourceTable.payment;
  source_id = 1;
}

abbrev event : AccountingEvent
event = event_of (new_row 1 received)

abbrev no_books : Books
no_books = record { rows = []; next_event = 1; journals = [] }

abbrev statuses : List GlJournal → List JournalStatus
statuses js = map (λ j. j.journal_status) js

-- The mapping gives a journal that is ready.
journal_ready :
    statuses (generate_journal (λ t. t) (received_mapping ∷ []) bare_tables event []).0
    ≡ JournalStatus.ready ∷ []
unfolding generate_journal resolve money_times round_half_up sort_by sum_by ◌+ℤ◌ ◌-ℤ◌ ◌*ℤ◌
    retail_credit_platform.Journal.Generate.is_effective
journal_ready = refl

generate_journal-Adds_example :
    Adds event [] (generate_journal (λ t. t) (received_mapping ∷ []) bare_tables event []).0
generate_journal-Adds_example =
    generate_journal-Adds (λ t. t) (received_mapping ∷ []) bare_tables event []

abbrev all_mappings : ℕ → List EventAccountMapping
all_mappings n = received_mapping ∷ []

abbrev all_tables : ℕ → Sources
all_tables n = bare_tables

no_books_sound : IsSoundBooks no_books
no_books_sound = record { sound = tt; unique = tt; emitted = tt }

abbrev one_event : Books
one_event = emit (λ t. t) all_mappings all_tables received no_books

emit-IsSoundBooks_example : IsSoundBooks (emit (λ t. t) all_mappings all_tables received no_books)
emit-IsSoundBooks_example =
    emit-IsSoundBooks (λ t. t) all_mappings all_tables received no_books no_books_sound

abbrev accepts : GlJournal → Result Text Text
accepts j = ok (71 ∷ [])

post_pending-IsPosted_example : IsPosted accepts one_event
post_pending-IsPosted_example =
    post_pending-IsPosted accepts one_event
      (emit-IsSoundBooks (λ t. t) all_mappings all_tables received no_books no_books_sound)
