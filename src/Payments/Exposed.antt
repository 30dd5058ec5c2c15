-- ===== src/Payments/Exposed.antt =====
-- A customer's exposure against the balances that payments are checked against.
use retail_credit_platform.Common.{
  ℕ, ◌≡◌, refl, ◌∙◌, ℤ, pos, ◌+ℤ◌, zero_+ℤ, not, List, [], ◌∷◌, keep, sum_by, int_laws,
}
use retail_credit_platform.Contract.{InstallmentContract, is_closed}
use retail_credit_platform.Contract.Receivable.{
  exposure_of, outstanding_total, expose, compute_exposure, build_receivable,
}
use retail_credit_platform.Payments.Record.{total_outstanding}

outstanding_total-exposure_of :
    (c : InstallmentContract) → outstanding_total (exposure_of c) ≡ total_outstanding c
unfolding outstanding_total total_outstanding build_receivable
outstanding_total-exposure_of c = refl

expose-total :
    (n : ℕ) (z : ℤ) (cs : List InstallmentContract)
    → (expose n z cs).total_outstanding ≡ z +ℤ sum_by total_outstanding cs
unfolding expose sum_by
expose-total n z [] = omega int_laws
expose-total n z (c ∷ cs) =
    expose-total n (z +ℤ outstanding_total (exposure_of c)) cs
    ∙ rw (outstanding_total-exposure_of c) (omega int_laws)

-- The exposure to a customer is the sum, over the contracts that are not closed, of the total
-- outstanding that payments are checked against.
pub compute_exposure_lem :
    (n : ℕ) (cs : List InstallmentContract)
    → (compute_exposure n cs).total_outstanding
      ≡ sum_by total_outstanding (keep (λ c. not (is_closed c.status)) cs)
unfolding compute_exposure
compute_exposure_lem n cs =
    expose-total n (pos 0) (keep (λ c. not (is_closed c.status)) cs)
    ∙ zero_+ℤ (sum_by total_outstanding (keep (λ c. not (is_closed c.status)) cs))
