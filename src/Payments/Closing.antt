-- ===== src/Payments/Closing.antt =====
-- When a payment ends the contract: exactly when it pays all that is outstanding.
use retail_credit_platform.Common.{
  ◌≡◌, refl, sym, subst, ◌∙◌, ◌↔◌, ℤ, pos, negsuc, ◌+ℤ◌, ◌-ℤ◌, ◌≤ℤ◌, ◌<ℤ◌, ltb_ℤ, leb_ℤ, ltb_ℤ→lt,
  ltb_ℤ→ge, Bool, true, false, not, ◌&&◌, ◌||◌, List, [], ◌∷◌, All, any, arith, int_laws,
  Bool-cases, inl, inr, sum_by,
}
use retail_credit_platform.Contract.{
  Installment, InstallmentContract, is_active, is_paid, principal_outstanding, profit_outstanding,
  late_fee_outstanding, is_fully_paid,
}
use retail_credit_platform.Contract.Receivable.{build_receivable, principal_of, profit_of}
use retail_credit_platform.Allocation.{InstallmentAllocation}
use retail_credit_platform.Closure.{is_fully_repaid, has_closure}
use retail_credit_platform.Payments.Apply.{credit, apply_line, update_installment_status}
use retail_credit_platform.Payments.Record.{total_outstanding}
use retail_credit_platform.Payments.Serves.{Within, Serves, done, skip, give}
use retail_credit_platform.Payments.Effect.{
  SoundCharges, served, apply_line-principal, apply_line-profit, apply_line-late_fee,
}
use retail_credit_platform.Payments.Owed.{sum_outstanding-charges_of, total_outstanding-eq-sums}

-- No balance is below zero, and an installment with no principal or profit left is marked paid.
pub record IsTidy (i : Installment) : Type 0 where
  pub principal_nonneg : pos 0 ≤ℤ principal_outstanding i
  pub profit_nonneg : pos 0 ≤ℤ profit_outstanding i
  pub late_fee_nonneg : pos 0 ≤ℤ late_fee_outstanding i
  pub marked : is_fully_paid i ≡ true → is_paid i.status ≡ true

stays_nonneg :
    (owed taken : ℤ) → pos 0 ≤ℤ owed → (pos 0 <ℤ taken → taken ≤ℤ owed) → pos 0 ≤ℤ owed -ℤ taken
stays_nonneg owed taken h le = elim (Bool-cases (ltb_ℤ (pos 0) taken)) [
  | inl above ↦ omega (int_laws, le (ltb_ℤ→lt (pos 0) taken above))
  | inr not_above ↦ omega (int_laws, ltb_ℤ→ge (pos 0) taken not_above)
]

nonneg_at : (a b : ℤ) → a ≡ b → pos 0 ≤ℤ b → pos 0 ≤ℤ a
nonneg_at a b e h = subst (λ z. pos 0 ≤ℤ z) (sym e) h

update-marked :
    (i : Installment) → is_fully_paid i ≡ true → is_paid (update_installment_status i) ≡ true
unfolding update_installment_status
update-marked i full = rw full refl

apply_line-marked :
    (l : InstallmentAllocation) (i : Installment)
    → is_fully_paid (apply_line l i) ≡ true
    → is_paid (apply_line l i).status ≡ true
unfolding apply_line is_fully_paid principal_outstanding profit_outstanding
apply_line-marked l i full = update-marked (credit l i) full

-- Both are kept by the payment.
pub apply_line-IsTidy :
    (i : Installment) (l : InstallmentAllocation)
    → Within i l
    → SoundCharges i
    → IsTidy i
    → IsTidy (apply_line l i)
apply_line-IsTidy i l w sound t = record {
  principal_nonneg =
      nonneg_at _ _ (apply_line-principal i l w)
        (stays_nonneg (principal_outstanding i) l.principal t.principal_nonneg w.principal_le);
  profit_nonneg =
      nonneg_at _ _ (apply_line-profit i l w)
        (stays_nonneg (profit_outstanding i) l.profit t.profit_nonneg w.profit_le);
  late_fee_nonneg =
      nonneg_at _ _ (apply_line-late_fee i l w sound)
        (stays_nonneg (late_fee_outstanding i) l.late_fee t.late_fee_nonneg w.fee_le);
  marked = apply_line-marked l i;
}

pub served-IsTidy :
    {is : List Installment} {ls : List InstallmentAllocation} (s : Serves is ls)
    → All SoundCharges is
    → All IsTidy is
    → All IsTidy (served s)
unfolding served
served-IsTidy done h t = tt
served-IsTidy (skip i s) (h, hs) (t, ts) = (t, served-IsTidy s hs ts)
served-IsTidy (give {i} {l} w s) (h, hs) (t, ts) =
    (apply_line-IsTidy i l w h t, served-IsTidy s hs ts)

abbrev balance_of : Installment → ℤ
balance_of i = principal_outstanding i +ℤ profit_outstanding i +ℤ late_fee_outstanding i

regroup :
    (is : List Installment)
    → sum_by principal_outstanding is
        +ℤ sum_by profit_outstanding is
        +ℤ sum_by late_fee_outstanding is
      ≡ sum_by balance_of is
unfolding sum_by
regroup [] = omega int_laws
regroup (i ∷ is) = rw (sym (regroup is)) (omega int_laws)

total-eq-balances :
    (c : InstallmentContract) → total_outstanding c ≡ sum_by balance_of c.installments
total-eq-balances c = total_outstanding-eq-sums c ∙ regroup c.installments

balance_nonneg : (i : Installment) → IsTidy i → pos 0 ≤ℤ balance_of i
balance_nonneg i t = omega (int_laws, t.principal_nonneg, t.profit_nonneg, t.late_fee_nonneg)

sum_by-nonneg :
    (f : Installment → ℤ)
    → ((i : Installment) → IsTidy i → pos 0 ≤ℤ f i)
    → (is : List Installment) → All IsTidy is
    → pos 0 ≤ℤ sum_by f is
unfolding sum_by
sum_by-nonneg f each [] t = omega arith
sum_by-nonneg f each (i ∷ is) (t, ts) = omega (int_laws, each i t, sum_by-nonneg f each is ts)

balances_nonneg : (is : List Installment) → All IsTidy is → pos 0 ≤ℤ sum_by balance_of is
balances_nonneg = sum_by-nonneg balance_of balance_nonneg

no_balance_paid : (i : Installment) → IsTidy i → balance_of i ≤ℤ pos 0 → is_fully_paid i ≡ true
unfolding is_fully_paid
no_balance_paid i t h =
    both (principal_outstanding i) (profit_outstanding i)
      (omega (int_laws, t.principal_nonneg, t.profit_nonneg, t.late_fee_nonneg))
      (omega (int_laws, t.principal_nonneg, t.profit_nonneg, t.late_fee_nonneg))
  where
    both : (a b : ℤ) → a ≤ℤ pos 0 → b ≤ℤ pos 0 → leb_ℤ a (pos 0) && leb_ℤ b (pos 0) ≡ true
    both a b h k = ground arith

-- With nothing outstanding every installment is marked paid.
nothing_owed_paid :
    (is : List Installment)
    → All IsTidy is
    → sum_by balance_of is ≤ℤ pos 0
    → any (λ i. not (is_paid i.status)) is ≡ false
unfolding sum_by
nothing_owed_paid [] t h = refl
nothing_owed_paid (i ∷ is) (t, ts) h =
    let here : balance_of i ≤ℤ pos 0 =
      omega (int_laws, balance_nonneg i t, balances_nonneg is ts) in
    let rest : sum_by balance_of is ≤ℤ pos 0 =
      omega (int_laws, balance_nonneg i t, balances_nonneg is ts) in
    rw (t.marked (no_balance_paid i t here)) (nothing_owed_paid is ts rest)

repaid_test :
    (a b : ℤ)
    → pos 0 ≤ℤ a
    → pos 0 ≤ℤ b
    → (not (ltb_ℤ (pos 0) a || ltb_ℤ (pos 0) b) ≡ true) ↔ (a +ℤ b ≤ℤ pos 0)
unfolding ◌+ℤ◌
repaid_test (pos a) (pos b) h k = (λ e. ground arith, λ le. ground arith)
repaid_test (pos a) (negsuc b) h k = absurd (omega arith)
repaid_test (negsuc a) b h k = absurd (omega arith)

last_of : (a b c d : Bool) → a && b && c && d ≡ true → d ≡ true
last_of a b c d e = ground arith

module _ (c : InstallmentContract) (tidy : All IsTidy c.installments) where
  receivable_nonneg :
      let r = build_receivable c [] in
      (pos 0 ≤ℤ r.outstanding_receivable) × (pos 0 ≤ℤ r.outstanding_late_fees)
  unfolding build_receivable principal_of profit_of
  receivable_nonneg =
      let principal =
        sum_by-nonneg principal_outstanding (λ i t. t.principal_nonneg) c.installments tidy in
      let profit = sum_by-nonneg profit_outstanding (λ i t. t.profit_nonneg) c.installments tidy in
      let late_fee =
        sum_by-nonneg late_fee_outstanding (λ i t. t.late_fee_nonneg) c.installments tidy in
      (
        omega (int_laws, principal, profit),
        nonneg_at _ _ (sum_outstanding-charges_of c.installments) late_fee,
      )

  -- An active contract without a closure is closed as fully repaid exactly when nothing is outstanding.
  pub is_fully_repaid_iff :
      is_active c.status ≡ true
      → has_closure c.closure ≡ false
      → (is_fully_repaid c ≡ true) ↔ (total_outstanding c ≤ℤ pos 0)
  unfolding is_fully_repaid total_outstanding
  is_fully_repaid_iff active unclosed =
      let r = build_receivable c [] in
      let (receivable, late_fees) = receivable_nonneg in
      let test =
        repaid_test r.outstanding_receivable r.outstanding_late_fees receivable late_fees in
      (
        (λ e. test.0 (
            last_of (is_active c.status) (not (has_closure c.closure))
              (not (any (λ i. not (is_paid i.status)) c.installments))
              (not
                (ltb_ℤ (pos 0) r.outstanding_receivable || ltb_ℤ (pos 0) r.outstanding_late_fees))
              e)),
        (λ le.
            rw (
              active,
              unclosed,
              nothing_owed_paid c.installments tidy (nothing_left le),
              test.1 le,
            )),
      )
    where
      nothing_left : total_outstanding c ≤ℤ pos 0 → sum_by balance_of c.installments ≤ℤ pos 0
      nothing_left le = subst (λ z. z ≤ℤ pos 0) (total-eq-balances c) le
