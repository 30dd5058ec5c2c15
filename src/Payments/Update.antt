-- ===== src/Payments/Update.antt =====
-- Lines that each change the one installment that they name, found by its number.
use retail_credit_platform.Common.{
  ℕ, ◌≡◌, ◌≢◌, refl, sym, ◌∙◌, ℤ, ◌+ℤ◌, ◌==◌, List, [], ◌∷◌, All, arith, int_laws, if◌then◌else◌,
  sum_by,
}
use retail_credit_platform.Contract.{Installment}

-- No two installments share a number.
abbrev pub UniqueIds : List Installment → Type 0
UniqueIds [] = Unit
UniqueIds (i ∷ is) = All (λ j. j.id ≢ i.id) is × UniqueIds is

-- The lines name some of the installments, in the same order, and `P` holds of each with its line.
pub data Aligned {L : Type 0} (id_of : L → ℕ) (P : Installment → L → Type 0)
    : List Installment → List L → Type 0 where
  finish : Aligned id_of P [] []
  pass :
      (i : Installment) {is : List Installment} {ls : List L}
      → Aligned id_of P is ls
      → Aligned id_of P (i ∷ is) ls
  take :
      {i : Installment} {l : L} {is : List Installment} {ls : List L}
      → id_of l ≡ i.id
      → P i l
      → Aligned id_of P is ls
      → Aligned id_of P (i ∷ is) (l ∷ ls)

module _ {L : Type 0} (id_of : L → ℕ) (step : L → Installment → Installment) where
  unfoldable pub update_to : L → List Installment → List Installment
  update_to l [] = []
  update_to l (i ∷ is) = (if i.id == id_of l then step l i else i) ∷ update_to l is

  unfoldable pub update_all : List L → List Installment → List Installment
  unfolding update_to
  update_all [] is = is
  update_all (l ∷ ls) is = update_all ls (update_to l is)

  -- The lines that follow, seen by one installment.
  update_each : List L → Installment → Installment
  update_each [] i = i
  update_each (l ∷ ls) i = update_each ls (if i.id == id_of l then step l i else i)

  update_all-cons :
      (ls : List L) (i : Installment) (is : List Installment)
      → update_all ls (i ∷ is) ≡ update_each ls i ∷ update_all ls is
  unfolding update_all update_to update_each
  update_all-cons [] i is = refl
  update_all-cons (l ∷ ls) i is =
      update_all-cons ls (if i.id == id_of l then step l i else i) (update_to l is)

  -- Lines for other installments leave this one alone.
  abbrev Misses : ℕ → List L → Type 0
  Misses n = All (λ l. id_of l ≢ n)

  Aligned-Misses :
      {P : Installment → L → Type 0} (n : ℕ) {is : List Installment} {ls : List L}
      → All (λ j. j.id ≢ n) is
      → Aligned id_of P is ls
      → Misses n ls
  Aligned-Misses n h finish = tt
  Aligned-Misses n h (pass j s) = Aligned-Misses n h.1 s
  Aligned-Misses n h (take names p s) = ((λ e. h.0 (sym names ∙ e)), Aligned-Misses n h.1 s)

  update_each-Misses : (i : Installment) (ls : List L) → Misses i.id ls → update_each ls i ≡ i
  unfolding update_each
  update_each-Misses i [] h = refl
  update_each-Misses i (l ∷ ls) (h, hs) = ground (arith, update_each-Misses i ls hs)

  update_to-Misses :
      (l : L) (is : List Installment) → All (λ j. j.id ≢ id_of l) is → update_to l is ≡ is
  unfolding update_to
  update_to-Misses l [] h = refl
  update_to-Misses l (i ∷ is) (h, hs) = ground (arith, update_to-Misses l is hs)

  -- Each installment with its own line applied, if it has one.
  unfoldable pub updated :
      {P : Installment → L → Type 0} {is : List Installment} {ls : List L}
      → Aligned id_of P is ls
      → List Installment
  updated finish = []
  updated (pass i s) = i ∷ updated s
  updated (take {i} {l} names p s) = step l i ∷ updated s

  module _ (keeps_id : (l : L) (i : Installment) → (step l i).id ≡ i.id) where
    update_each-take :
        (i : Installment) (l : L) (ls : List L)
        → id_of l ≡ i.id
        → Misses i.id ls
        → update_each (l ∷ ls) i ≡ step l i
    unfolding update_each
    update_each-take i l ls names h =
        ground (arith, names, update_each-Misses (step l i) ls (rw (keeps_id l i) h))

    pub update_all-updated :
        {P : Installment → L → Type 0} {is : List Installment} {ls : List L}
        (s : Aligned id_of P is ls)
        → UniqueIds is
        → update_all ls is ≡ updated s
    unfolding updated update_all
    update_all-updated finish u = refl
    update_all-updated (pass i {is} {ls} s) (u, us) = rw (
      update_all-cons ls i is,
      update_each-Misses i ls (Aligned-Misses i.id u s),
      update_all-updated s us,
    )
    update_all-updated (take {i} {l} {is} {ls} names p s) (u, us) = rw (
      update_all-cons (l ∷ ls) i is,
      update_each-take i l ls names (Aligned-Misses i.id u s),
      update_to-Misses l is (rw names u),
      update_all-updated s us,
    )

  -- A balance that each line raises by what it carries rises, over all installments, by what all of
  -- them carry.
  pub sum_by-updated :
      {P : Installment → L → Type 0} (f : Installment → ℤ) (g : L → ℤ)
      → ((i : Installment) (l : L) → P i l → f (step l i) ≡ f i +ℤ g l)
      → {is : List Installment} {ls : List L} (s : Aligned id_of P is ls)
      → sum_by f (updated s) ≡ sum_by f is +ℤ sum_by g ls
  unfolding sum_by updated
  sum_by-updated f g h finish = omega int_laws
  sum_by-updated f g h (pass i s) = rw (sum_by-updated f g h s) (omega int_laws)
  sum_by-updated f g h (take {i} {l} names p s) =
      rw (h i l p, sum_by-updated f g h s) (omega int_laws)
