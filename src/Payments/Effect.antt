-- ===== src/Payments/Effect.antt =====
-- Applying the lines changes every balance by exactly what the lines carry.
use retail_credit_platform.Common.{
  ℕ, ◌≡◌, refl, ap, ◌∙◌, ℤ, pos, ◌-ℤ◌, ltb_ℤ, ltb_ℤ→ge, ltb_ℤ→lt, List, [], ◌∷◌, All, int_laws,
  Bool-cases, inl, inr, sum_by,
}
use retail_credit_platform.Contract.{
  Installment, principal_outstanding, profit_outstanding, late_fee_outstanding,
}
use retail_credit_platform.Allocation.{InstallmentAllocation}
use retail_credit_platform.Payments.Update.{
  Aligned, finish, pass, take, update_to, update_all, updated, update_all-updated,
}
pub use retail_credit_platform.Payments.Update.{UniqueIds}
use retail_credit_platform.Payments.Apply.{apply_line, apply_to, apply_all}
use retail_credit_platform.Payments.Charges.{NonnegWriteOff, apply_late_fee_lem}
use retail_credit_platform.Payments.Serves.{Within, Serves, done, skip, give}

-- Nothing negative is written off of any charge.
abbrev pub SoundCharges : Installment → Type 0
SoundCharges i = All NonnegWriteOff i.late_fee_charges

-- Each installment with its own line applied, if it has one.
unfoldable pub served :
    {is : List Installment} {ls : List InstallmentAllocation} → Serves is ls → List Installment
served done = []
served (skip i s) = i ∷ served s
served (give {i} {l} w s) = apply_line l i ∷ served s

line_id : InstallmentAllocation → ℕ
line_id l = l.installment_id

apply_to-eq :
    (l : InstallmentAllocation) (is : List Installment)
    → apply_to l is ≡ update_to line_id apply_line l is
unfolding apply_to update_to line_id
apply_to-eq l [] = refl
apply_to-eq l (i ∷ is) = rw (apply_to-eq l is) refl

apply_all-eq :
    (ls : List InstallmentAllocation) (is : List Installment)
    → apply_all ls is ≡ update_all line_id apply_line ls is
unfolding apply_all update_all
apply_all-eq [] is = refl
apply_all-eq (l ∷ ls) is =
    apply_all-eq ls (apply_to l is) ∙ ap (update_all line_id apply_line ls) (apply_to-eq l is)

Serves-Aligned :
    {is : List Installment} {ls : List InstallmentAllocation}
    → Serves is ls
    → Aligned line_id Within is ls
unfolding line_id
Serves-Aligned done = finish
Serves-Aligned (skip i s) = pass i (Serves-Aligned s)
Serves-Aligned (give w s) = take w.names w (Serves-Aligned s)

served-updated :
    {is : List Installment} {ls : List InstallmentAllocation} (s : Serves is ls)
    → updated line_id apply_line (Serves-Aligned s) ≡ served s
unfolding served updated Serves-Aligned
served-updated done = refl
served-updated (skip i s) = ap (λ is. i ∷ is) (served-updated s)
served-updated (give {i} {l} w s) = ap (λ is. apply_line l i ∷ is) (served-updated s)

pub apply_all-served :
    {is : List Installment} {ls : List InstallmentAllocation} (s : Serves is ls)
    → UniqueIds is
    → apply_all ls is ≡ served s
unfolding apply_line
apply_all-served {is} {ls} s u =
    apply_all-eq ls is
    ∙ update_all-updated line_id apply_line (λ l i. refl) (Serves-Aligned s) u
    ∙ served-updated s

-- What applying a line does to an installment's balances.
pub apply_line-principal :
    (i : Installment) (l : InstallmentAllocation)
    → Within i l
    → principal_outstanding (apply_line l i) ≡ principal_outstanding i -ℤ l.principal
unfolding apply_line principal_outstanding
apply_line-principal i l w = elim (Bool-cases (ltb_ℤ (pos 0) l.principal)) [
  | inl some ↦ rw some (omega int_laws)
  | inr none ↦ rw none (omega (int_laws, ltb_ℤ→ge (pos 0) l.principal none, w.principal_nonneg))
]

pub apply_line-profit :
    (i : Installment) (l : InstallmentAllocation)
    → Within i l
    → profit_outstanding (apply_line l i) ≡ profit_outstanding i -ℤ l.profit
unfolding apply_line profit_outstanding
apply_line-profit i l w = elim (Bool-cases (ltb_ℤ (pos 0) l.profit)) [
  | inl some ↦ rw some (omega int_laws)
  | inr none ↦ rw none (omega (int_laws, ltb_ℤ→ge (pos 0) l.profit none, w.profit_nonneg))
]

pub apply_line-late_fee :
    (i : Installment) (l : InstallmentAllocation)
    → Within i l
    → SoundCharges i
    → late_fee_outstanding (apply_line l i) ≡ late_fee_outstanding i -ℤ l.late_fee
unfolding apply_line late_fee_outstanding
apply_line-late_fee i l w sound = elim (Bool-cases (ltb_ℤ (pos 0) l.late_fee)) [
  | inl some ↦ rw some (
      apply_late_fee_lem i.late_fee_charges l.late_fee sound w.fee_nonneg
        (w.fee_le (ltb_ℤ→lt (pos 0) l.late_fee some)))
  | inr none ↦ rw none (omega (int_laws, ltb_ℤ→ge (pos 0) l.late_fee none, w.fee_nonneg))
]

-- A balance that each line lowers by what it carries falls, over the contract, by what all of them
-- carry.
module _ (f : Installment → ℤ) (g : InstallmentAllocation → ℤ) where
  pub sum_by-served :
      ((i : Installment) (l : InstallmentAllocation)
        → Within i l
        → SoundCharges i
        → f (apply_line l i) ≡ f i -ℤ g l)
      → {is : List Installment} {ls : List InstallmentAllocation} (s : Serves is ls)
      → All SoundCharges is
      → sum_by f (served s) ≡ sum_by f is -ℤ sum_by g ls
  unfolding sum_by served
  sum_by-served step done h = omega int_laws
  sum_by-served step (skip i s) (h, hs) = rw (sum_by-served step s hs) (omega int_laws)
  sum_by-served step (give {i} {l} w s) (h, hs) =
      rw (step i l w h, sum_by-served step s hs) (omega int_laws)
