-- ===== src/Ecl/Engine.antt =====
-- app/services/ecl_engine.py: the arithmetic of the expected credit loss. The formula texts are left out.
use retail_credit_platform.Common.{
  refl, ◌+◌, ◌≡◌, ≤ℤ_of_eq, ℕ, ◌*◌, ◌^◌, ◌≤◌, ◌<◌, ℤ, pos, ◌*ℤ◌, ◌≤ℤ◌, leb_ℤ, Bool, true, false,
  ◌&&◌, ◌==◌, Option, none, some, List, [], ◌∷◌, if◌then◌else◌, arith, subst, sym, product_pos,
}
use retail_credit_platform.Common.Rounding.{
  round_half_up_near, round_ℤ, round_half_up, round_half_up_mono, round_half_up_exact,
}
use native.Mathlib.Nat.{
  mul-le-mul, mul-le-mul_left, mul-le-mul_right, mul-lt-mul_of_pos_right, lt_of_mul-lt-mul_left,
  mul-pos, one-le-pow,
}
use retail_credit_platform.Ecl.{Fraction}

-- `_money(ead * x * y)` and `_money(ead * x)` for an exposure in cents.
unfoldable pub money_of : ℤ → Fraction → Fraction → ℤ
money_of ead x y = round_ℤ (ead *ℤ pos (x.digits * y.digits)) (10 ^ x.places * 10 ^ y.places)

unfoldable pub money_part : ℤ → Fraction → ℤ
money_part ead x = round_ℤ (ead *ℤ pos x.digits) (10 ^ x.places)

-- The loss and the probability that it was taken with.
unfoldable pub calc_three_stage :
    ℤ → (stage : ℕ) → (pd_12m pd_lifetime lgd : Fraction) → ℤ × Fraction
unfolding money_of
calc_three_stage ead stage pd_12m pd_lifetime lgd =
    let pd = if stage == 1 then pd_12m else pd_lifetime in (money_of ead pd lgd, pd)

unfoldable pub calc_simplified_lifetime : ℤ → (lifetime_loss_rate : Fraction) → ℤ
unfolding money_part
calc_simplified_lifetime ead lifetime_loss_rate = money_part ead lifetime_loss_rate

unfoldable pub calc_dpd_banded : ℤ → (band_pct : Fraction) → ℤ
unfolding money_part
calc_dpd_banded ead band_pct = money_part ead band_pct

-- A band of days past due; without an upper end it has all days from the lower one on.
pub record Bucket : Type 0 where
  pub low : ℤ
  pub high : Option ℤ

-- The label of a band is the band.
pub data BandLabel : Type 0 where
  current : BandLabel
  band : Bucket → BandLabel

abbrev pub within : ℤ → Bucket → Bool
within dpd b = leb_ℤ b.low dpd && elim b.high [ none ↦ true | some high ↦ leb_ℤ dpd high ]

-- The first band that has the days; none of them falls back to the last, and without bands Python
-- raises an error.
unfoldable pub band_of : ℤ → List Bucket → Option Bucket
band_of dpd [] = none
band_of dpd (b ∷ []) = some b
band_of dpd (b ∷ c ∷ cs) = if within dpd b then some b else band_of dpd (c ∷ cs)

unfoldable pub dpd_band_label : ℤ → List Bucket → Option BandLabel
unfolding band_of
dpd_band_label dpd buckets =
    if leb_ℤ dpd (pos 0)
    then some current
    else elim (band_of dpd buckets) [ none ↦ none | some b ↦ some (BandLabel.band b) ]

-- A share of an exposure that is at most the whole.
abbrev pub IsShare : Fraction → Type 0
IsShare x = x.digits ≤ 10 ^ x.places

-- Whole cents that are within half a cent of n / d, a tie going up.
pub record Nearest (n d : ℕ) (z : ℤ) : Type 0 where
  pub cents : ℕ
  pub whole : z ≡ pos cents
  pub at_most : 2 * (d * cents) ≤ 2 * n + d
  pub at_least : 2 * n < 2 * (d * cents) + d

-- A loss of an exposure: the product with a probability and a share that are at most one, rounded,
-- and neither below zero nor above the exposure.
pub record IsLoss (ead : ℕ) (pd lgd : Fraction) (z : ℤ) : Type 0 where
  pub rounded : Nearest (ead * (pd.digits * lgd.digits)) (10 ^ pd.places * 10 ^ lgd.places) z
  pub nonneg : pos 0 ≤ℤ z
  pub bounded : z ≤ℤ pos ead

-- A loss that is a plain share of the exposure.
pub record IsPart (ead : ℕ) (rate : Fraction) (z : ℤ) : Type 0 where
  pub rounded : Nearest (ead * rate.digits) (10 ^ rate.places) z
  pub nonneg : pos 0 ≤ℤ z
  pub bounded : z ≤ℤ pos ead

round_share : (n k d : ℕ) → 0 < d → k ≤ d → round_half_up (n * k) d ≤ n
round_share n k d h le =
    subst (λ z. round_half_up (n * k) d ≤ z) (round_half_up_exact n d h)
      (round_half_up_mono (n * k) (n * d) d h (mul-le-mul_left n le))

round_product : (n k d : ℕ) → round_ℤ (pos n *ℤ pos k) d ≡ pos (round_half_up (n * k) d)
unfolding round_ℤ
round_product n k d = rw (product_pos n k) refl

round-Nearest : (n k d : ℕ) → 0 < d → Nearest (n * k) d (round_ℤ (pos n *ℤ pos k) d)
round-Nearest n k d h = record {
  cents = round_half_up (n * k) d;
  whole = round_product n k d;
  at_most = (round_half_up_near (n * k) d h).0;
  at_least = (round_half_up_near (n * k) d h).1;
}

round_bounds :
    (n k d : ℕ)
    → 0 < d
    → k ≤ d
    → (pos 0 ≤ℤ round_ℤ (pos n *ℤ pos k) d) × (round_ℤ (pos n *ℤ pos k) d ≤ℤ pos n)
round_bounds n k d h le =
    subst (λ z. (pos 0 ≤ℤ z) × (z ≤ℤ pos n)) (sym (round_product n k d))
      (omega arith, omega (arith, round_share n k d h le))

power_pos : (n : ℕ) → 0 < 10 ^ n
power_pos n = one-le-pow n 10 (omega arith)

money_of-IsLoss :
    (n : ℕ) (x y : Fraction) → IsShare x → IsShare y → IsLoss n x y (money_of (pos n) x y)
unfolding money_of
money_of-IsLoss n x y hx hy =
    let d = mul-pos (power_pos x.places) (power_pos y.places) in
    let bounds = round_bounds n _ _ d (mul-le-mul hx hy) in
    record { rounded = round-Nearest n _ _ d; nonneg = bounds.0; bounded = bounds.1 }

money_part-IsPart : (n : ℕ) (x : Fraction) → IsShare x → IsPart n x (money_part (pos n) x)
unfolding money_part
money_part-IsPart n x hx =
    let d = power_pos x.places in
    let bounds = round_bounds n _ _ d hx in
    record { rounded = round-Nearest n _ _ d; nonneg = bounds.0; bounded = bounds.1 }

scaled :
    (c d e n m k : ℕ)
    → 2 * (d * k) ≤ 2 * n + d
    → 2 * m < 2 * (e * c) + e
    → n * e ≤ m * d
    → 0 < d
    → d * e * k < d * e * (c + 1)
scaled c d e n m k h l le hd = omega (arith, mul-le-mul_right e h, mul-lt-mul_of_pos_right l hd, le)

-- The nearest cents of a smaller quotient are not more.
Nearest_mono :
    (n d m e : ℕ) (x y : ℤ) → 0 < d → n * e ≤ m * d → Nearest n d x → Nearest m e y → x ≤ℤ y
Nearest_mono n d m e x y hd le a b =
    let fewer =
      lt_of_mul-lt-mul_left (d * e) (scaled b.cents d e n m a.cents a.at_most b.at_least le hd) in
    ≤ℤ_of_eq a.whole b.whole (omega (arith, fewer))

not_first : (k : ℕ) → (k + 2) == 1 ≡ false
not_first k = ground arith

product_order :
    (n : ℕ) (x y z : Fraction)
    → x.digits * 10 ^ y.places ≤ y.digits * 10 ^ x.places
    → n * (x.digits * z.digits) * (10 ^ y.places * 10 ^ z.places)
      ≤ n * (y.digits * z.digits) * (10 ^ x.places * 10 ^ z.places)
product_order n x y z le = omega (arith, mul-le-mul_left (n * z.digits * 10 ^ z.places) le)

-- At an exposure that is not negative, probabilities, rates and shares that are at most one, and a
-- lifetime probability that is not below that of twelve months: stage 1 takes the twelve-month
-- probability and every later stage the lifetime one; the loss is the product of the exposure, that
-- probability and the loss given default to the nearest cent, and by the two other methods that of the
-- exposure and the rate, never below zero or above the exposure; and a later stage never has the smaller
-- loss.
pub calc_three_stage_lem :
    (ead k : ℕ) (pd_12m pd_lifetime lgd rate : Fraction)
    → IsShare pd_12m
    → IsShare pd_lifetime
    → IsShare lgd
    → IsShare rate
    → pd_12m.digits * 10 ^ pd_lifetime.places ≤ pd_lifetime.digits * 10 ^ pd_12m.places
    → let first = calc_three_stage (pos ead) 1 pd_12m pd_lifetime lgd in
      let later = calc_three_stage (pos ead) (k + 2) pd_12m pd_lifetime lgd in
      IsLoss ead pd_12m lgd first.0
      × (first.1 ≡ pd_12m)
      × IsLoss ead pd_lifetime lgd later.0
      × (later.1 ≡ pd_lifetime)
      × (first.0 ≤ℤ later.0)
      × IsPart ead rate (calc_simplified_lifetime (pos ead) rate)
      × IsPart ead rate (calc_dpd_banded (pos ead) rate)
unfolding calc_three_stage calc_simplified_lifetime calc_dpd_banded
calc_three_stage_lem ead k pd_12m pd_lifetime lgd rate h12 hl hg hr le =
    let first = money_of-IsLoss ead pd_12m lgd h12 hg in
    let later = money_of-IsLoss ead pd_lifetime lgd hl hg in
    rw (not_first k) (
      first,
      refl,
      later,
      refl,
      Nearest_mono _ _ _ _ _ _ (mul-pos (power_pos pd_12m.places) (power_pos lgd.places))
          (product_order ead pd_12m pd_lifetime lgd le) first.rounded later.rounded,
      money_part-IsPart ead rate hr,
      money_part-IsPart ead rate hr,
    )
