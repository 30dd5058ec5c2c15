-- ===== src/Journal/Posted.antt =====
-- app/services/accounting.py: the posting job. What is ready is posted once, and the books stay sound.
use retail_credit_platform.Common.{
  ℕ, ◌+◌, ◌<◌, ◌≡◌, ◌≢◌, refl, sym, subst, ap, true, false, List, [], ◌∷◌, All, arith, Bool-cases,
  inl, inr,
}
use retail_credit_platform.Common.Result.{Result, Result-cases}
use retail_credit_platform.Common.Text.{Text}
use retail_credit_platform.Journal.{JournalStatus, GlJournal, is_ready}
use retail_credit_platform.Journal.Balance.{Balances, IsSound, is_unsettled}
use retail_credit_platform.Journal.Books.{
  EventRow, Books, posted_journal, post_journals, post_events, summarise_postings, post_pending,
  no_postings,
}
use retail_credit_platform.Journal.Posting.{UniqueEvents, IsSoundBooks}

-- Nothing is left for the job.
abbrev pub NoneReady : List GlJournal → Type 0
NoneReady js = All (λ j. is_ready j.journal_status ≡ false) js

module _ (post_journal : GlJournal → Result Text Text) where
  posted_journal-number :
      (j : GlJournal) → (posted_journal post_journal j).accounting_event_id ≡ j.accounting_event_id
  unfolding posted_journal
  posted_journal-number j = elim (Result-cases (post_journal j)) [
    | inl (m, e) ↦ rw (e, posted_journal) refl
    | inr (r, e) ↦ rw (e, posted_journal) refl
  ]

  posted_journal-Balances : (j : GlJournal) → Balances j → Balances (posted_journal post_journal j)
  unfolding posted_journal
  posted_journal-Balances j h = elim (Result-cases (post_journal j)) [
    | inl (m, e) ↦
        rw (e, posted_journal)
          (record {
            flagged = h.flagged;
            debits = h.debits;
            credits = h.credits;
            equal = h.equal;
            above_zero = h.above_zero;
            positive = h.positive;
          })
    | inr (r, e) ↦
        rw (e, posted_journal)
          (record {
            flagged = h.flagged;
            debits = h.debits;
            credits = h.credits;
            equal = h.equal;
            above_zero = h.above_zero;
            positive = h.positive;
          })
  ]

  posted_journal-unready :
      (j : GlJournal) → is_ready (posted_journal post_journal j).journal_status ≡ false
  unfolding posted_journal
  posted_journal-unready j = elim (Result-cases (post_journal j)) [
    | inl (m, e) ↦ rw (e, posted_journal) refl
    | inr (r, e) ↦ rw (e, posted_journal) refl
  ]

  ready-Balances : (j : GlJournal) → is_ready j.journal_status ≡ true → IsSound j → Balances j
  ready-Balances j e (inl h) = h
  ready-Balances j e (inr h) = absurd (clash j.journal_status e h.unsettled)
    where
      clash : (s : JournalStatus) → is_ready s ≡ true → is_unsettled s ≡ true → ⊥
      clash JournalStatus.unmapped e h = ground arith
      clash JournalStatus.ready e h = ground arith
      clash JournalStatus.posted e h = ground arith
      clash JournalStatus.failed e h = ground arith

  post_journals-IsSound :
      (js : List GlJournal) → All IsSound js → All IsSound (post_journals post_journal js)
  unfolding post_journals
  post_journals-IsSound [] h = tt
  post_journals-IsSound (j ∷ js) (h, hs) = elim (Bool-cases (is_ready j.journal_status)) [
    | inl ready ↦
        rw ready
          (inl (posted_journal-Balances j (ready-Balances j ready h)), post_journals-IsSound js hs)
    | inr other ↦ rw other (h, post_journals-IsSound js hs)
  ]

  -- What holds of the numbers of the journals holds after posting.
  post_journals-numbers :
      (P : ℕ → Type 0) (js : List GlJournal)
      → All (λ j. P j.accounting_event_id) js
      → All (λ j. P j.accounting_event_id) (post_journals post_journal js)
  unfolding post_journals
  post_journals-numbers P [] h = tt
  post_journals-numbers P (j ∷ js) (h, hs) = elim (Bool-cases (is_ready j.journal_status)) [
    | inl ready ↦
        rw ready (subst P (sym (posted_journal-number j)) h, post_journals-numbers P js hs)
    | inr other ↦ rw other (h, post_journals-numbers P js hs)
  ]

  post_journals_unique :
      (js : List GlJournal) → UniqueEvents js → UniqueEvents (post_journals post_journal js)
  unfolding post_journals
  post_journals_unique [] u = tt
  post_journals_unique (j ∷ js) (u, us) =
      let rest = post_journals-numbers (λ n. n ≢ j.accounting_event_id) js u in
      elim (Bool-cases (is_ready j.journal_status)) [
        | inl ready ↦ rw ready (
          subst (λ n. All (λ k. k.accounting_event_id ≢ n) (post_journals post_journal js))
              (sym (posted_journal-number j)) rest,
          post_journals_unique js us,
        )
        | inr other ↦ rw other (rest, post_journals_unique js us)
      ]

  post_pending-IsSoundBooks :
      (b : Books) → IsSoundBooks b → IsSoundBooks (post_pending post_journal b).0
  unfolding post_pending
  post_pending-IsSoundBooks b h = record {
    sound = post_journals-IsSound b.journals h.sound;
    unique = post_journals_unique b.journals h.unique;
    emitted = post_journals-numbers (λ n. n < b.next_event) b.journals h.emitted;
  }

  post_journals-NoneReady : (js : List GlJournal) → NoneReady (post_journals post_journal js)
  unfolding post_journals
  post_journals-NoneReady [] = tt
  post_journals-NoneReady (j ∷ js) = elim (Bool-cases (is_ready j.journal_status)) [
    | inl ready ↦ rw ready (posted_journal-unready j, post_journals-NoneReady js)
    | inr other ↦ rw other (other, post_journals-NoneReady js)
  ]

  idle_journals : (js : List GlJournal) → NoneReady js → post_journals post_journal js ≡ js
  unfolding post_journals
  idle_journals [] h = refl
  idle_journals (j ∷ js) (h, hs) = rw h (ap (λ ks. j ∷ ks) (idle_journals js hs))

  idle_events :
      (js : List GlJournal) (rows : List EventRow)
      → NoneReady js
      → post_events post_journal js rows ≡ rows
  unfolding post_events
  idle_events [] rows h = refl
  idle_events (j ∷ js) rows (h, hs) = rw h (idle_events js rows hs)

  idle_summary :
      (js : List GlJournal) → NoneReady js → summarise_postings post_journal js ≡ no_postings
  unfolding summarise_postings
  idle_summary [] h = refl
  idle_summary (j ∷ js) (h, hs) = rw h (idle_summary js hs)

  idle : (b : Books) → NoneReady b.journals → post_pending post_journal b ≡ (b, no_postings)
  unfolding post_pending
  idle b h =
      rw (idle_journals b.journals h, idle_events b.journals b.rows h, idle_summary b.journals h)
        refl

summary_adds_up :
    (post_journal : GlJournal → Result Text Text) (js : List GlJournal)
    → let s = summarise_postings post_journal js in s.events_considered ≡ s.posted + s.failed
unfolding summarise_postings
summary_adds_up post_journal [] = refl
summary_adds_up post_journal (j ∷ js) = let rest = summary_adds_up post_journal js in ground arith

-- What a run of the job leaves: sound books in which no journal waits, and a report that adds up; a
-- second run, whatever the provider answers it, changes nothing and reports nothing.
pub record IsPosted (post_journal : GlJournal → Result Text Text) (b : Books) : Type 0 where
  pub sound : IsSoundBooks (post_pending post_journal b).0
  pub none_waits : NoneReady (post_pending post_journal b).0.journals
  pub adds_up : let s = (post_pending post_journal b).1 in s.events_considered ≡ s.posted + s.failed
  pub again :
      (later : GlJournal → Result Text Text)
      → post_pending later (post_pending post_journal b).0
        ≡ ((post_pending post_journal b).0, no_postings)

-- On sound books the posting job keeps the books sound and leaves no journal that is ready; each
-- journal it considers is counted as posted or as failed; and a second run right after it, whatever
-- the provider answers then, changes nothing and counts nothing.
pub post_pending-IsPosted :
    (post_journal : GlJournal → Result Text Text) (b : Books)
    → IsSoundBooks b
    → IsPosted post_journal b
unfolding post_pending
post_pending-IsPosted post_journal b h =
    let waits = post_journals-NoneReady post_journal b.journals in
    record {
      sound = post_pending-IsSoundBooks post_journal b h;
      none_waits = waits;
      adds_up = summary_adds_up post_journal b.journals;
      again = λ later. idle later _ waits;
    }
