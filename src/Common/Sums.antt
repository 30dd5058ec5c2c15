-- ===== src/Common/Sums.antt =====
-- Python's `sum(..., Decimal("0.00"))` over a list.
use mathlib.Core.Path.{◌≡◌, refl, ◌∙◌, ap}
use mathlib.Core.List.{List, [], ◌∷◌, ◌++◌}
use Prim.Native.Nat.{ℕ}
use retail_credit_platform.Common.Tests.{leb, Bool-cases}
use mathlib.Core.Logic.{inl, inr}
use retail_credit_platform.Common.Int.{ℤ, pos, ◌+ℤ◌, int_laws}
use retail_credit_platform.Common.Sorting.{insert_by, sort_by, insert_desc, sort_desc}

module _ {ℓ} {A : Type ℓ} (f : A → ℤ) where
  unfoldable pub sum_by : List A → ℤ
  sum_by [] = pos 0
  sum_by (x ∷ xs) = f x +ℤ sum_by xs

  pub sum_by-append : (xs ys : List A) → sum_by (xs ++ ys) ≡ sum_by xs +ℤ sum_by ys
  unfolding sum_by
  sum_by-append [] ys = omega int_laws
  sum_by-append (x ∷ xs) ys = rw (sum_by-append xs ys) (omega int_laws)

  module _ (key : A → ℕ) where
    sum_by-insert_by : (x : A) (ys : List A) → sum_by (insert_by key x ys) ≡ f x +ℤ sum_by ys
    unfolding sum_by insert_by
    sum_by-insert_by x [] = refl
    sum_by-insert_by x (y ∷ ys) = elim (Bool-cases (leb (key x) (key y))) [
      | inl le ↦ rw le
      | inr gt ↦ rw gt (rw (sum_by-insert_by x ys) (omega int_laws))
    ]

    -- The order of the terms does not matter.
    pub sum_by-sort_by : (xs : List A) → sum_by (sort_by key xs) ≡ sum_by xs
    unfolding sum_by sort_by
    sum_by-sort_by [] = refl
    sum_by-sort_by (x ∷ xs) =
        sum_by-insert_by x (sort_by key xs) ∙ ap (λ s. f x +ℤ s) (sum_by-sort_by xs)

    sum_by-insert_desc : (x : A) (ys : List A) → sum_by (insert_desc key x ys) ≡ f x +ℤ sum_by ys
    unfolding sum_by insert_desc
    sum_by-insert_desc x [] = refl
    sum_by-insert_desc x (y ∷ ys) = elim (Bool-cases (leb (key y) (key x))) [
      | inl le ↦ rw le
      | inr gt ↦ rw gt (rw (sum_by-insert_desc x ys) (omega int_laws))
    ]

    pub sum_by-sort_desc : (xs : List A) → sum_by (sort_desc key xs) ≡ sum_by xs
    unfolding sum_by sort_desc
    sum_by-sort_desc [] = refl
    sum_by-sort_desc (x ∷ xs) =
        sum_by-insert_desc x (sort_desc key xs) ∙ ap (λ s. f x +ℤ s) (sum_by-sort_desc xs)
