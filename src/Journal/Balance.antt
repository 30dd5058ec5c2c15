-- ===== src/Journal/Balance.antt =====
-- A journal that is ready to be posted balances, and no other journal has lines.
use retail_credit_platform.Common.{
  ℕ, ◌+◌, ◌≡◌, refl, ap, ◌⊎◌, ℤ, pos, ◌+ℤ◌, ◌-ℤ◌, ◌≤ℤ◌, ◌<ℤ◌, ltb_ℤ, ltb_ℤ→lt, eqb_ℤ, eqb_ℤ→eq,
  Bool, true, false, not, ◌||◌, Option, none, some, List, [], ◌∷◌, ◌++◌, All, keep, any, sum_by,
  arith, int_laws, Bool-cases, Option-cases, inl, inr, if◌then◌else◌,
}
use retail_credit_platform.Common.Rounding.{money_times}
use retail_credit_platform.Common.Result.{Result, ok, err}
use retail_credit_platform.Journal.{
  EventAccountMappingLine, EventAccountMapping, AccountingEvent, JournalStatus, JournalError,
  GlJournal, GlJournalLine, is_debit, is_posted, flip,
}
use retail_credit_platform.Journal.Sources.{Sources, resolve}
use retail_credit_platform.Journal.Generate.{
  ResolvedLine, resolved, resolve_line, resolve_lines, build_lines, on_debit, on_credit,
  debit_total, credit_total, journal_lines, bare_journal, ready_journal, close_journal, is_postable,
  find_journal, resolve_mapping_for, generate_journal,
}

abbrev pub line_debits : List GlJournalLine → ℤ
line_debits ls = sum_by (λ l. l.amount) (keep (λ (l : GlJournalLine). is_debit l.posting_side) ls)

abbrev pub line_credits : List GlJournalLine → ℤ
line_credits ls =
    sum_by (λ l. l.amount) (keep (λ (l : GlJournalLine). not (is_debit l.posting_side)) ls)

abbrev pub is_unsettled : JournalStatus → Bool
is_unsettled JournalStatus.unmapped = true
is_unsettled JournalStatus.failed = true
is_unsettled _ = false

-- The lines are positive amounts, and both sides add up to the one total, which is above zero.
pub record Balances (j : GlJournal) : Type 0 where
  pub flagged : j.is_balanced ≡ true
  pub debits : line_debits j.lines ≡ j.total_debit
  pub credits : line_credits j.lines ≡ j.total_credit
  pub equal : j.total_debit ≡ j.total_credit
  pub above_zero : pos 0 <ℤ j.total_debit
  pub positive : All (λ l. pos 0 <ℤ l.amount) j.lines

-- Neither posted nor about to be.
pub record IsEmptyJournal (j : GlJournal) : Type 0 where
  pub unflagged : j.is_balanced ≡ false
  pub unsettled : is_unsettled j.journal_status ≡ true
  pub no_lines : j.lines ≡ []

abbrev pub IsSound : GlJournal → Type 0
IsSound j = Balances j ⊎ IsEmptyJournal j

abbrev PositiveLine : ResolvedLine → Type 0
PositiveLine l = pos 0 <ℤ l.amount

abbrev OnLine : Result JournalError (Option ResolvedLine) → Type 0
OnLine (err e) = Unit
OnLine (ok none) = Unit
OnLine (ok (some l)) = PositiveLine l

abbrev OnLines : Result JournalError (List ResolvedLine) → Type 0
OnLines (err e) = Unit
OnLines (ok ls) = All PositiveLine ls

negated : (z : ℤ) → z <ℤ pos 0 → pos 0 <ℤ pos 0 -ℤ z
negated z h = omega int_laws

above : (z : ℤ) → ltb_ℤ z (pos 0) ≡ false → eqb_ℤ z (pos 0) ≡ false → pos 0 <ℤ z
above z h k = ground arith

module _ (src : Sources) (event : AccountingEvent) where
  resolve_line-positive : (l : EventAccountMappingLine) → OnLine (resolve_line src event l)
  unfolding resolve_line
  resolve_line-positive l = elim (Option-cases (resolve src event l.amount_source)) [
    | inl e ↦ rw (e, resolve_line) tt
    | inr (raw, e) ↦ rw (e, resolve_line) (by_sign (money_times raw l.multiplier))
  ]
    where
      by_sign :
          (z : ℤ)
          → OnLine (
              if ltb_ℤ z (pos 0)
              then (if not l.reverse_on_negative
                  then err (JournalError.negative_amount l.line_sequence)
                  else ok (some (resolved l (flip l.posting_side) (pos 0 -ℤ z))))
              else if eqb_ℤ z (pos 0)
              then ok none
              else ok (some (resolved l l.posting_side z)))
      by_sign z = elim (Bool-cases (ltb_ℤ z (pos 0))) [
        | inl low ↦ rw low (elim (Bool-cases l.reverse_on_negative) [
          | inl may ↦ rw may (negated z (ltb_ℤ→lt z (pos 0) low))
          | inr may_not ↦ rw may_not tt
        ])
        | inr high ↦ rw high (elim (Bool-cases (eqb_ℤ z (pos 0))) [
          | inl zero_amount ↦ rw zero_amount tt
          | inr other ↦ rw other (above z high other)
        ])
      ]

  resolve_lines-positive :
      (ls : List EventAccountMappingLine) → OnLines (resolve_lines src event ls)
  unfolding resolve_lines
  resolve_lines-positive [] = tt
  resolve_lines-positive (l ∷ ls) =
      both (resolve_line src event l) (resolve_lines src event ls) (resolve_line-positive l)
        (resolve_lines-positive ls)
    where
      both :
          (r : Result JournalError (Option ResolvedLine))
          (rs : Result JournalError (List ResolvedLine))
          → OnLine r
          → OnLines rs
          → OnLines (elim r [
            | err e ↦ err e
            | ok none ↦ rs
            | ok (some x) ↦ elim rs [ err e ↦ err e | ok xs ↦ ok (x ∷ xs) ]
          ])
      both (err e) rs h hs = tt
      both (ok none) rs h hs = hs
      both (ok (some x)) (err e) h hs = tt
      both (ok (some x)) (ok xs) h hs = (h, hs)

journal_lines-debits :
    (i : ℕ) (ls : List ResolvedLine) → line_debits (journal_lines i ls) ≡ debit_total ls
unfolding journal_lines debit_total sum_by
journal_lines-debits i [] = refl
journal_lines-debits i (l ∷ ls) = elim (Bool-cases (is_debit l.posting_side)) [
  | inl d ↦ rw d (ap (λ z. l.amount +ℤ z) (journal_lines-debits (i + 1) ls))
  | inr c ↦ rw c (journal_lines-debits (i + 1) ls)
]

journal_lines-credits :
    (i : ℕ) (ls : List ResolvedLine) → line_credits (journal_lines i ls) ≡ credit_total ls
unfolding journal_lines credit_total sum_by
journal_lines-credits i [] = refl
journal_lines-credits i (l ∷ ls) = elim (Bool-cases (is_debit l.posting_side)) [
  | inl d ↦ rw d (journal_lines-credits (i + 1) ls)
  | inr c ↦ rw c (ap (λ z. l.amount +ℤ z) (journal_lines-credits (i + 1) ls))
]

journal_lines-positive :
    (i : ℕ) (ls : List ResolvedLine)
    → All PositiveLine ls
    → All (λ l. pos 0 <ℤ l.amount) (journal_lines i ls)
unfolding journal_lines
journal_lines-positive i [] h = tt
journal_lines-positive i (l ∷ ls) (h, hs) = (h, journal_lines-positive (i + 1) ls hs)

-- Positive lines with at least one debit have a positive debit total.
debit_total_nonneg : (ls : List ResolvedLine) → All PositiveLine ls → pos 0 ≤ℤ debit_total ls
unfolding debit_total sum_by
debit_total_nonneg [] h = omega arith
debit_total_nonneg (l ∷ ls) (h, hs) = elim (Bool-cases (is_debit l.posting_side)) [
  | inl d ↦ rw d (omega (int_laws, h, debit_total_nonneg ls hs))
  | inr c ↦ rw c (debit_total_nonneg ls hs)
]

debit_total_pos :
    (ls : List ResolvedLine)
    → All PositiveLine ls
    → any on_debit ls ≡ true
    → pos 0 <ℤ debit_total ls
unfolding debit_total sum_by
debit_total_pos [] h e = ground arith
debit_total_pos (l ∷ ls) (h, hs) e = elim (Bool-cases (is_debit l.posting_side)) [
  | inl d ↦ rw d (omega (int_laws, h, debit_total_nonneg ls hs))
  | inr c ↦ rw c (debit_total_pos ls hs (rw c at e))
]

ready_journal-Balances :
    (event : AccountingEvent) (mapping : ℕ) (ls : List ResolvedLine)
    → All PositiveLine ls
    → any on_debit ls ≡ true
    → debit_total ls ≡ credit_total ls
    → Balances (ready_journal event mapping ls)
unfolding ready_journal
ready_journal-Balances event mapping ls h d e = record {
  flagged = refl;
  debits = journal_lines-debits 1 ls;
  credits = journal_lines-credits 1 ls;
  equal = e;
  above_zero = debit_total_pos ls h d;
  positive = journal_lines-positive 1 ls h;
}

bare_journal-IsEmptyJournal :
    (event : AccountingEvent) (mapping : Option ℕ) (status : JournalStatus) (e : JournalError)
    → is_unsettled status ≡ true
    → IsEmptyJournal (bare_journal event mapping status e)
bare_journal-IsEmptyJournal event mapping status e h = record {
  unflagged = refl;
  unsettled = h;
  no_lines = refl;
}

close_journal-IsSound :
    (event : AccountingEvent) (mapping : ℕ) (r : Result JournalError (List ResolvedLine))
    → OnLines r
    → IsSound (close_journal event mapping r)
unfolding close_journal
close_journal-IsSound event mapping (err e) h =
    inr (bare_journal-IsEmptyJournal event (some mapping) JournalStatus.failed e refl)
close_journal-IsSound event mapping (ok ls) h = elim (Bool-cases (any on_debit ls)) [
  | inr no_debit ↦
      rw (no_debit, close_journal)
        (inr (bare_journal-IsEmptyJournal event (some mapping) JournalStatus.failed _ refl))
  | inl debit ↦
      rw (debit, close_journal)
        (elim (Bool-cases (any on_credit ls)) [
          | inr no_credit ↦
              rw (no_credit, close_journal)
                (inr (bare_journal-IsEmptyJournal event (some mapping) JournalStatus.failed _ refl))
          | inl credit ↦
              rw (credit, close_journal)
                (elim (Bool-cases (eqb_ℤ (debit_total ls) (credit_total ls))) [
                  | inr apart ↦
                      rw (apart, close_journal)
                        (inr (
                          bare_journal-IsEmptyJournal event (some mapping) JournalStatus.failed _
                            refl))
                  | inl same ↦
                      rw (same, close_journal)
                        (inl (ready_journal-Balances event mapping ls h debit (eqb_ℤ→eq _ _ same)))
                ])
        ])
]

-- A journal of its own for an event, or the journals as they were.
abbrev pub Adds : AccountingEvent → List GlJournal → List GlJournal → Type 0
Adds event js js' =
    (js' ≡ js)
    ⊎ ((j : GlJournal) × (js' ≡ js ++ j ∷ [])
        × (j.accounting_event_id ≡ event.id)
        × (is_posted j.journal_status ≡ false)
        × IsSound j)

close_journal-fields :
    (event : AccountingEvent) (mapping : ℕ) (r : Result JournalError (List ResolvedLine))
    → let j = close_journal event mapping r in
      (j.accounting_event_id ≡ event.id) × (is_posted j.journal_status ≡ false)
unfolding close_journal ready_journal
close_journal-fields event mapping (err e) = (refl, refl)
close_journal-fields event mapping (ok ls) =
    by_tests (not (any on_debit ls) || not (any on_credit ls))
      (eqb_ℤ (debit_total ls) (credit_total ls))
  where
    by_tests :
        (a b : Bool)
        → let j : GlJournal =
            if a
            then bare_journal event (some mapping) JournalStatus.failed JournalError.no_pair
            else if not b
            then bare_journal event (some mapping) JournalStatus.failed JournalError.not_balanced
            else ready_journal event mapping ls in
          (j.accounting_event_id ≡ event.id) × (is_posted j.journal_status ≡ false)
    by_tests true b = (refl, refl)
    by_tests false true = (refl, refl)
    by_tests false false = (refl, refl)

-- Generating the journal of an event adds at most one journal, which is the event's own: either both
-- its sides add up to the same total above zero, over lines that are all positive, or it has no lines
-- and is not to be posted. The journals that were there stay as they were.
pub generate_journal-Adds :
    (day_of : ℕ → ℕ) (mappings : List EventAccountMapping) (src : Sources) (event : AccountingEvent)
    (js : List GlJournal)
    → Adds event js (generate_journal day_of mappings src event js).0
unfolding generate_journal build_lines
generate_journal-Adds day_of mappings src event js =
    elim (Option-cases (find_journal event.id js)) [
      | inr (j, e) ↦ rw (e, generate_journal) (inl refl)
      | inl e ↦
          rw (e, generate_journal)
            (elim (Option-cases
              (resolve_mapping_for mappings event.event_type (day_of event.event_date))) [
                | inl k ↦
                    rw (k, generate_journal)
                      (inr (
                        bare_journal event none JournalStatus.unmapped JournalError.no_mapping,
                        refl,
                        refl,
                        refl,
                        inr (bare_journal-IsEmptyJournal event none JournalStatus.unmapped _ refl),
                      ))
                | inr (m, k) ↦
                    rw (k, generate_journal)
                      (elim (Bool-cases (is_postable m.classification)) [
                        | inr other ↦ rw (other, generate_journal) (inl refl)
                        | inl postable ↦
                            rw (postable, generate_journal)
                              (let lines = build_lines src event m in
                                let (own, unposted) = close_journal-fields event m.id lines in
                                inr (
                                  close_journal event m.id lines,
                                  refl,
                                  own,
                                  unposted,
                                  close_journal-IsSound event m.id lines
                                      (resolve_lines-positive src event _),
                                ))
                      ])
              ])
    ]
