-- ===== src/Common/Sorting.antt =====
-- Python's `sorted(xs, key=...)` on a numeric key: a stable insertion sort. On a list that is in order
-- already it is the identity.
use retail_credit_platform.Common.Tests.{leb, if◌then◌else◌}
use Prim.Native.Nat.{ℕ, ◌≤◌}
use mathlib.Core.Path.{◌≡◌, refl}
use mathlib.Core.List.{List, [], ◌∷◌}
use native.Mathlib.Omega.{arith}
use mathlib.Core.Logic.{inl, inr}
use retail_credit_platform.Common.Tests.{Bool-cases}
use retail_credit_platform.Common.Lists.{All}

module _ {ℓ} {A : Type ℓ} (key : A → ℕ) where
  unfoldable pub insert_by : A → List A → List A
  insert_by x [] = x ∷ []
  insert_by x (y ∷ ys) = if leb (key x) (key y) then x ∷ y ∷ ys else y ∷ insert_by x ys

  unfoldable pub sort_by : List A → List A
  unfolding insert_by
  sort_by [] = []
  sort_by (x ∷ xs) = insert_by x (sort_by xs)

  abbrev pub IsOrdered : List A → Type 0
  IsOrdered [] = Unit
  IsOrdered (x ∷ []) = Unit
  IsOrdered (x ∷ y ∷ ys) = (key x ≤ key y) × IsOrdered (y ∷ ys)

  pub sort_by-IsOrdered : (xs : List A) → IsOrdered xs → sort_by xs ≡ xs
  unfolding sort_by
  sort_by-IsOrdered [] h = refl
  sort_by-IsOrdered (x ∷ []) h = refl
  sort_by-IsOrdered (x ∷ y ∷ ys) h = rw (sort_by-IsOrdered (y ∷ ys) h.1) (ground arith)

  insert_by-All {κ} :
      (P : A → Type κ) (x : A) (ys : List A) → P x → All P ys → All P (insert_by x ys)
  unfolding insert_by
  insert_by-All P x [] p ps = (p, tt)
  insert_by-All P x (y ∷ ys) p (q, qs) = elim (Bool-cases (leb (key x) (key y))) [
    | inl le ↦ rw le (p, (q, qs))
    | inr gt ↦ rw gt (q, insert_by-All P x ys p qs)
  ]

  pub sort_by-All {κ} : (P : A → Type κ) (xs : List A) → All P xs → All P (sort_by xs)
  unfolding sort_by
  sort_by-All P [] h = tt
  sort_by-All P (x ∷ xs) (h, hs) = insert_by-All P x (sort_by xs) h (sort_by-All P xs hs)

-- Python's `sorted(..., reverse=True)`: from the greatest key, equal ones in their order.
module _ {ℓ} {A : Type ℓ} (key : A → ℕ) where
  unfoldable pub insert_desc : A → List A → List A
  insert_desc x [] = x ∷ []
  insert_desc x (y ∷ ys) = if leb (key y) (key x) then x ∷ y ∷ ys else y ∷ insert_desc x ys

  unfoldable pub sort_desc : List A → List A
  unfolding insert_desc
  sort_desc [] = []
  sort_desc (x ∷ xs) = insert_desc x (sort_desc xs)

  insert_desc-All {κ} :
      (P : A → Type κ) (x : A) (ys : List A) → P x → All P ys → All P (insert_desc x ys)
  unfolding insert_desc
  insert_desc-All P x [] p ps = (p, tt)
  insert_desc-All P x (y ∷ ys) p (q, qs) = elim (Bool-cases (leb (key y) (key x))) [
    | inl le ↦ rw le (p, (q, qs))
    | inr gt ↦ rw gt (q, insert_desc-All P x ys p qs)
  ]

  pub sort_desc-All {κ} : (P : A → Type κ) (xs : List A) → All P xs → All P (sort_desc xs)
  unfolding sort_desc
  sort_desc-All P [] h = tt
  sort_desc-All P (x ∷ xs) (h, hs) = insert_desc-All P x (sort_desc xs) h (sort_desc-All P xs hs)
