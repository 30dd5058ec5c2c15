-- ===== src/Journal/Posting.antt =====
-- The books keep the contract of the accounting boundary, and stay sound whatever is emitted and posted.
use retail_credit_platform.Common.{
  ℕ, ◌+◌, ◌<◌, ◌≡◌, ◌≢◌, refl, sym, subst, ap, ◌∙◌, List, [], ◌∷◌, ◌++◌, All, arith, Bool-cases,
  inl, inr, if◌then◌else◌,
}
use retail_credit_platform.Accounting.{Accounting, EventDraft, already_emitted}
use retail_credit_platform.Journal.{EventAccountMapping, GlJournal}
use retail_credit_platform.Journal.Sources.{Sources}
use retail_credit_platform.Journal.Balance.{IsSound, Adds, generate_journal-Adds}
use retail_credit_platform.Journal.Books.{EventRow, Books, drafts, new_row, event_of, emit}

drafts-append :
    (rs : List EventRow) (r : EventRow) → drafts (rs ++ r ∷ []) ≡ drafts rs ++ r.draft ∷ []
unfolding drafts
drafts-append [] r = refl
drafts-append (x ∷ rs) r = ap (λ ds. x.draft ∷ ds) (drafts-append rs r)

module _ (day_of : ℕ → ℕ) (mappings : ℕ → List EventAccountMapping) (tables : ℕ → Sources) where
  -- `emit` adds the event to the emitted ones exactly when no event has its reference, and keeps all
  -- that were there.
  pub emit_adds_once :
      (d : EventDraft) (b : Books)
      → drafts (emit day_of mappings tables d b).rows ≡ (
          if already_emitted d.event_reference (drafts b.rows)
          then drafts b.rows
          else drafts b.rows ++ d ∷ [])
  unfolding emit
  emit_adds_once d b = elim (Bool-cases (already_emitted d.event_reference (drafts b.rows))) [
    | inl known ↦ rw known refl
    | inr fresh ↦ rw fresh (drafts-append b.rows (new_row b.next_event d))
  ]

  -- The boundary that the payment services take.
  unfoldable pub general_ledger : Accounting
  general_ledger = record {
    Books = Books;
    events = λ b. drafts b.rows;
    emit = emit day_of mappings tables;
    events_emit = emit_adds_once;
  }

-- No two journals of one event.
abbrev pub UniqueEvents : List GlJournal → Type 0
UniqueEvents [] = Unit
UniqueEvents (j ∷ js) =
    All (λ k. k.accounting_event_id ≢ j.accounting_event_id) js × UniqueEvents js

-- Sound journals, at most one for each event that was emitted.
pub record IsSoundBooks (b : Books) : Type 0 where
  pub sound : All IsSound b.journals
  pub unique : UniqueEvents b.journals
  pub emitted : All (λ j. j.accounting_event_id < b.next_event) b.journals

All-snoc {ℓ κ} :
    {A : Type ℓ} (P : A → Type κ) (xs : List A) (x : A) → All P xs → P x → All P (xs ++ x ∷ [])
All-snoc P [] x h p = (p, tt)
All-snoc P (y ∷ xs) x (h, hs) p = (h, All-snoc P xs x hs p)

UniqueEvents-snoc :
    (js : List GlJournal) (j : GlJournal)
    → UniqueEvents js
    → All (λ k. k.accounting_event_id ≢ j.accounting_event_id) js
    → UniqueEvents (js ++ j ∷ [])
UniqueEvents-snoc [] j u h = (tt, tt)
UniqueEvents-snoc (k ∷ js) j (u, us) (h, hs) = (
  All-snoc (λ i. i.accounting_event_id ≢ k.accounting_event_id) js j u (λ e. h (sym e)),
  UniqueEvents-snoc js j us hs,
)

not_yet :
    (n : ℕ) (js : List GlJournal)
    → All (λ j. j.accounting_event_id < n) js
    → All (λ j. j.accounting_event_id ≢ n) js
not_yet n [] h = tt
not_yet n (j ∷ js) (h, hs) = ((λ e. omega (arith, e, h)), not_yet n js hs)

one_more :
    (n : ℕ) (js : List GlJournal)
    → All (λ j. j.accounting_event_id < n) js
    → All (λ j. j.accounting_event_id < n + 1) js
one_more n [] h = tt
one_more n (j ∷ js) (h, hs) = (omega arith, one_more n js hs)

Adds-IsSoundBooks :
    (b : Books) (r : EventRow) (js : List GlJournal)
    → r.id ≡ b.next_event
    → IsSoundBooks b
    → Adds (event_of r) b.journals js
    → IsSoundBooks
        (record { rows = b.rows ++ r ∷ []; next_event = b.next_event + 1; journals = js })
Adds-IsSoundBooks b r js id h (inl e) = record {
  sound = subst (λ ks. All IsSound ks) (sym e) h.sound;
  unique = subst UniqueEvents (sym e) h.unique;
  emitted =
      subst (λ ks. All (λ j. j.accounting_event_id < b.next_event + 1) ks) (sym e)
        (one_more b.next_event b.journals h.emitted);
}
Adds-IsSoundBooks b r js id h (inr (j, e, own, unposted, s)) =
    let number = own ∙ id in
    record {
      sound = subst (λ ks. All IsSound ks) (sym e) (All-snoc IsSound b.journals j h.sound s);
      unique = subst UniqueEvents (sym e) (
          UniqueEvents-snoc b.journals j h.unique (
            subst (λ n. All (λ k. k.accounting_event_id ≢ n) b.journals) (sym number)
              (not_yet b.next_event b.journals h.emitted)));
      emitted =
          subst (λ ks. All (λ j. j.accounting_event_id < b.next_event + 1) ks) (sym e)
            (All-snoc (λ j. j.accounting_event_id < b.next_event + 1) b.journals j
              (one_more b.next_event b.journals h.emitted) (omega (arith, number)));
    }

-- Emitting an event keeps the books sound: every journal balances or is empty and unposted, and no
-- event has two journals.
pub emit-IsSoundBooks :
    (day_of : ℕ → ℕ) (mappings : ℕ → List EventAccountMapping) (tables : ℕ → Sources)
    (d : EventDraft) (b : Books)
    → IsSoundBooks b
    → IsSoundBooks (emit day_of mappings tables d b)
unfolding emit
emit-IsSoundBooks day_of mappings tables d b h =
    let row = new_row b.next_event d in
    elim (Bool-cases (already_emitted d.event_reference (drafts b.rows))) [
      | inl known ↦ rw known h
      | inr fresh ↦ rw fresh (
          Adds-IsSoundBooks b row _ refl h (
            generate_journal-Adds day_of (mappings b.next_event) (tables b.next_event)
              (event_of row) b.journals))
    ]
