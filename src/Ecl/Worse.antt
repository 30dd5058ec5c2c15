-- ===== src/Ecl/Worse.antt =====
-- A contract whose indicators are worse is never put in a better stage.
use retail_credit_platform.Common.{
  ℕ, zero, suc, ◌*◌, ◌^◌, ◌≤◌, ◌<◌, ◌≡◌, refl, inl, inr, ℤ, leb_ℤ, ◌≤ℤ◌, leb, ltb, Bool, true,
  false, ◌&&◌, Bool-cases, Option, none, some, List, [], ◌∷◌, map, any, keep, if◌then◌else◌, arith,
  int_laws, ◌∙◌, ap,
}
use native.Mathlib.Nat.{le_of_mul-le-mul_right, mul-le-mul_right, mul-pos, one-le-pow}
use retail_credit_platform.Common.Text.{Text}
use retail_credit_platform.Ecl.{
  Fraction, SignalSource, StageContext, RuleType, Rule, StageRules, TriggerResult, read_flag,
  rating_index, rating_notches, ratio_gte, pd_rises, rating_falls, hit, eval_rule, determine_stage,
}

-- The second probability is known where the first is, and is not less.
abbrev pub WorsePd : Option Fraction → Option Fraction → Type 0
WorsePd none q = Unit
WorsePd (some p) none = ⊥
WorsePd (some p) (some q) = p.digits * 10 ^ q.places ≤ q.digits * 10 ^ p.places

-- The second rating is known where the first is, and is not a better grade.
abbrev pub WorseRating : Option Text → Option Text → Type 0
WorseRating none r = Unit
WorseRating (some []) r = Unit
WorseRating (some (c ∷ cs)) none = ⊥
WorseRating (some (c ∷ cs)) (some []) = ⊥
WorseRating (some (c ∷ cs)) (some (d ∷ ds)) = rating_index (c ∷ cs) ≤ rating_index (d ∷ ds)

-- The same contract with indicators that are as bad or worse.
pub record Worse (before after : StageContext) : Type 0 where
  pub dpd : before.dpd ≤ℤ after.dpd
  pub current_pd : WorsePd before.current_pd_12m after.current_pd_12m
  pub origination_pd : after.origination_pd_12m ≡ before.origination_pd_12m
  pub current_rating : WorseRating before.current_rating after.current_rating
  pub origination_rating : after.origination_rating ≡ before.origination_rating
  pub signals :
      (s : SignalSource) → read_flag before.signals s ≡ true → read_flag after.signals s ≡ true

power_pos : (n : ℕ) → 0 < 10 ^ n
power_pos n = one-le-pow n 10 (omega arith)

product_le :
    (need p q P Q R : ℕ) → 0 < P → 0 < Q → p * Q ≤ q * P → need * P ≤ p * R → need * Q ≤ q * R
product_le need p q P Q R hP hQ le h =
    le_of_mul-le-mul_right {m = need * Q} {n = q * R} {k = P}
      (grind (arith, mul-le-mul_right Q h, mul-le-mul_right R le)) hP

leb→le : (a b : ℕ) → leb a b ≡ true → a ≤ b
leb→le a b h = ground arith

le→leb : (a b : ℕ) → a ≤ b → leb a b ≡ true
le→leb a b h = ground arith

ratio_gte_mono :
    (p q o need : Fraction)
    → p.digits * 10 ^ q.places ≤ q.digits * 10 ^ p.places
    → ratio_gte p o need ≡ true
    → ratio_gte q o need ≡ true
unfolding ratio_gte
ratio_gte_mono p q o need le h = le→leb _ _ (
    product_le (need.digits * o.digits) p.digits q.digits (10 ^ p.places) (10 ^ q.places) _
      (power_pos p.places) (power_pos q.places) le (leb→le _ _ h))

leb_ℤ_trans : (a b c : ℤ) → b ≤ℤ c → leb_ℤ a b ≡ true → leb_ℤ a c ≡ true
leb_ℤ_trans a b c le h = ground arith

rating_falls_mono :
    (r s o : Option Text) (need : ℤ)
    → WorseRating r s
    → rating_falls r o need ≡ true
    → rating_falls s o need ≡ true
unfolding rating_falls rating_notches
rating_falls_mono (some (c ∷ cs)) (some (d ∷ ds)) (some (o ∷ os)) need le h =
    leb_ℤ_trans need (rating_notches (o ∷ os) (c ∷ cs)) _ (omega (int_laws, le)) h
rating_falls_mono (some (c ∷ cs)) (some (d ∷ ds)) (some []) need le h = ground arith
rating_falls_mono (some (c ∷ cs)) (some (d ∷ ds)) none need le h = ground arith
rating_falls_mono (some (c ∷ cs)) none o need le h = elim le [ ]
rating_falls_mono (some (c ∷ cs)) (some []) o need le h = elim le [ ]
rating_falls_mono (some []) s o need le h = ground arith
rating_falls_mono none s o need le h = ground arith

ltb→lt : (a b : ℕ) → ltb a b ≡ true → a < b
ltb→lt a b h = ground arith

both :
    (a b c a' c' : Bool)
    → (a ≡ true → a' ≡ true)
    → (c ≡ true → c' ≡ true)
    → (a && b && c) ≡ true
    → (a' && b && c') ≡ true
both true true true a' c' f g h = rw (f refl, g refl) refl
both true true false a' c' f g h = ground arith
both true false c a' c' f g h = ground arith
both false b c a' c' f g h = ground arith

digits_pos : (p q P Q : ℕ) → 0 < Q → p * Q ≤ q * P → ltb 0 p ≡ true → ltb 0 q ≡ true
digits_pos p zero P Q hQ le h =
    absurd (omega (arith, le, mul-pos {m = p} {n = Q} (ltb→lt 0 p h) hQ))
digits_pos p (suc q) P Q hQ le h = ground arith

pd_rises_mono :
    (r s o : Option Fraction) (need : Fraction)
    → WorsePd r s
    → pd_rises r o need ≡ true
    → pd_rises s o need ≡ true
unfolding pd_rises
pd_rises_mono none s o need le h = ground arith
pd_rises_mono (some p) none o need le h = elim le [ ]
pd_rises_mono (some p) (some q) none need le h = ground arith
pd_rises_mono (some p) (some q) (some o) need le h =
    both (ltb 0 p.digits) (ltb 0 o.digits) (ratio_gte p o need) _ _
      (digits_pos p.digits q.digits (10 ^ p.places) (10 ^ q.places) (power_pos q.places) le)
      (ratio_gte_mono p q o need le) h

hit_mono :
    (before after : StageContext)
    → Worse before after
    → (t : RuleType) → hit before t ≡ true
    → hit after t ≡ true
unfolding hit
hit_mono before after w (RuleType.dpd_gte threshold) h = leb_ℤ_trans threshold _ _ w.dpd h
hit_mono before after w (RuleType.flag source) h = w.signals source h
hit_mono before after w (RuleType.pd_ratio_gte need) h =
    rw w.origination_pd (pd_rises_mono _ _ before.origination_pd_12m need w.current_pd h)
hit_mono before after w (RuleType.rating_notches_gte need) h =
    rw w.origination_rating
      (rating_falls_mono _ _ before.origination_rating need w.current_rating h)
hit_mono before after w RuleType.unknown h = h

abbrev pub fired : StageContext → List Rule → List TriggerResult
fired ctx rules = keep (λ t. t.triggered) (map (eval_rule ctx) rules)

-- Some rule of the list fires.
abbrev pub fires : StageContext → List Rule → Bool
fires ctx rules = any (λ r. hit ctx r.rule_type) rules

fires_mono :
    (before after : StageContext)
    → Worse before after
    → (rules : List Rule) → fires before rules ≡ true
    → fires after rules ≡ true
fires_mono before after w [] h = h
fires_mono before after w (r ∷ rs) h = elim (Bool-cases (hit before r.rule_type)) [
  | inl e ↦ rw (hit_mono before after w r.rule_type e) refl
  | inr e ↦ elim (Bool-cases (hit after r.rule_type)) [
    | inl f ↦ rw f refl
    | inr f ↦ rw f (fires_mono before after w rs (rw e at h))
  ]
]

-- The stage by what fires.
abbrev pub stage_of : Bool → Bool → ℕ
stage_of three two = if three then 3 else if two then 2 else 1

-- A list of results is empty just if no rule fires.
graded :
    {A : Type 0} (ctx : StageContext) (rules : List Rule) (x y : A)
    → (elim (fired ctx rules) [ [] ↦ x | ◌∷◌ t ts ↦ y ]) ≡ (if fires ctx rules then y else x)
unfolding eval_rule
graded ctx [] x y = refl
graded ctx (r ∷ rs) x y = elim (Bool-cases (hit ctx r.rule_type)) [
  | inl e ↦ rw e refl
  | inr e ↦ rw e (graded ctx rs x y)
]

-- The stage is 3 if a rule of stage 3 fires, else 2 if a rule of the increase in risk fires, and else 1.
pub determine_stage_lem :
    (ctx : StageContext) (cfg : StageRules)
    → (determine_stage ctx cfg).stage
      ≡ stage_of (fires ctx cfg.stage3_rules) (fires ctx cfg.sicr_rules)
unfolding determine_stage
determine_stage_lem ctx cfg =
    graded ctx cfg.stage3_rules _ 3
    ∙ ap (λ n. if fires ctx cfg.stage3_rules then 3 else n) (graded ctx cfg.sicr_rules 1 2)

stage_of_mono :
    (a b c d : Bool) → (a ≡ true → c ≡ true) → (b ≡ true → d ≡ true) → stage_of a b ≤ stage_of c d
stage_of_mono true b c d f g = rw (f refl) (omega arith)
stage_of_mono false true true d f g = omega arith
stage_of_mono false true false d f g = rw (g refl) (omega arith)
stage_of_mono false false true d f g = omega arith
stage_of_mono false false false true f g = omega arith
stage_of_mono false false false false f g = omega arith

-- Under the same rules, indicators of the same contract that are as bad or worse never give a better
-- stage; a stage is one of 1, 2 and 3.
pub determine_stage_mono :
    (before after : StageContext) (cfg : StageRules)
    → Worse before after
    → ((determine_stage before cfg).stage ≤ (determine_stage after cfg).stage)
      × (1 ≤ (determine_stage before cfg).stage)
      × ((determine_stage after cfg).stage ≤ 3)
determine_stage_mono before after cfg w =
    rw (determine_stage_lem before cfg, determine_stage_lem after cfg)
      (
        stage_of_mono _ _ _ _ (fires_mono before after w cfg.stage3_rules)
            (fires_mono before after w cfg.sicr_rules),
        ground arith,
        ground arith,
      )
