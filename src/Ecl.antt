-- ===== src/Ecl.antt =====
-- app/services/ecl_stage.py, and `rating_notches` of app/services/ecl_risk.py: the stage of a contract in
-- the expected credit loss. The texts that explain a result to a reader are left out, but for the names
-- of the rules that gave the stage.
pub mod Engine
pub mod Worse
use retail_credit_platform.Common.{
  ℕ, ◌+◌, ◌-◌, ◌*◌, ◌^◌, ℤ, pos, ◌-ℤ◌, leb_ℤ, leb, ltb, Bool, true, false, ◌&&◌, Option, none, some,
  List, [], ◌∷◌, map, any, keep, if◌then◌else◌,
}
use retail_credit_platform.Common.Text.{Text}

-- A probability or a ratio that is not negative: digits / 10 ^ places.
pub record Fraction : Type 0 where
  pub digits : ℕ
  pub places : ℕ

-- The signals that a rule can name; `other` is a name that they do not have.
pub data SignalSource : Type 0 where
  open_collections_case broken_promise_to_pay forbearance_flag credit_impaired_flag
        unlikely_to_pay_flag other :
      SignalSource

pub record StageSignals : Type 0 where
  pub open_collections_case : Bool
  pub broken_promise_to_pay : Bool
  pub forbearance_flag : Bool
  pub credit_impaired_flag : Bool
  pub unlikely_to_pay_flag : Bool

pub record StageContext : Type 0 where
  pub dpd : ℤ
  pub current_pd_12m : Option Fraction
  pub origination_pd_12m : Option Fraction
  pub current_rating : Option Text
  pub origination_rating : Option Text
  pub signals : StageSignals

pub data RuleType : Type 0 where
  dpd_gte : (threshold : ℤ) → RuleType
  flag : (source : SignalSource) → RuleType
  pd_ratio_gte : (ratio : Fraction) → RuleType
  rating_notches_gte : (notches : ℤ) → RuleType
  unknown : RuleType

pub record Rule : Type 0 where
  pub id : Text
  pub name : Text
  pub category : Text
  pub rule_type : RuleType

pub record StageRules : Type 0 where
  pub stage3_rules : List Rule
  pub sicr_rules : List Rule

pub record TriggerResult : Type 0 where
  pub id : Text
  pub name : Text
  pub category : Text
  pub triggered : Bool

-- The reason is given by the names of the rules that fired.
pub record StageResult : Type 0 where
  pub stage : ℕ
  pub reason : List Text
  pub stage3_triggers : List TriggerResult
  pub sicr_triggers : List TriggerResult

abbrev pub read_flag : StageSignals → SignalSource → Bool
read_flag s SignalSource.open_collections_case = s.open_collections_case
read_flag s SignalSource.broken_promise_to_pay = s.broken_promise_to_pay
read_flag s SignalSource.forbearance_flag = s.forbearance_flag
read_flag s SignalSource.credit_impaired_flag = s.credit_impaired_flag
read_flag s SignalSource.unlikely_to_pay_flag = s.unlikely_to_pay_flag
read_flag s SignalSource.other = false

-- The grades A to E by their code points; any other rating comes after them.
unfoldable pub rating_index : Text → ℕ
rating_index [] = 5
rating_index (c ∷ []) = if leb 65 c && leb c 69 then c - 65 else 5
rating_index (c ∷ d ∷ ds) = 5

unfoldable pub rating_notches : (from_rating to_rating : Text) → ℤ
unfolding rating_index
rating_notches from_rating to_rating =
    pos (rating_index to_rating) -ℤ pos (rating_index from_rating)

-- `current / origination >= need`, multiplied out.
unfoldable pub ratio_gte : (current origination need : Fraction) → Bool
ratio_gte current origination need =
    leb (need.digits * origination.digits * 10 ^ current.places)
      (current.digits * (10 ^ origination.places * 10 ^ need.places))

-- A value that is missing or zero is false in Python, and so is a text that is missing or empty.
unfoldable pub pd_rises : Option Fraction → Option Fraction → Fraction → Bool
unfolding ratio_gte
pd_rises none origination need = false
pd_rises (some c) none need = false
pd_rises (some c) (some o) need = ltb 0 c.digits && ltb 0 o.digits && ratio_gte c o need

unfoldable pub rating_falls : Option Text → Option Text → ℤ → Bool
unfolding rating_notches
rating_falls (some (c ∷ cs)) (some (o ∷ os)) need = leb_ℤ need (rating_notches (o ∷ os) (c ∷ cs))
rating_falls (some (c ∷ cs)) (some []) need = false
rating_falls (some (c ∷ cs)) none need = false
rating_falls (some []) origination need = false
rating_falls none origination need = false

unfoldable pub hit : StageContext → RuleType → Bool
unfolding pd_rises rating_falls
hit ctx (RuleType.dpd_gte threshold) = leb_ℤ threshold ctx.dpd
hit ctx (RuleType.flag source) = read_flag ctx.signals source
hit ctx (RuleType.pd_ratio_gte need) = pd_rises ctx.current_pd_12m ctx.origination_pd_12m need
hit ctx (RuleType.rating_notches_gte need) =
    rating_falls ctx.current_rating ctx.origination_rating need
hit ctx RuleType.unknown = false

unfoldable pub eval_rule : StageContext → Rule → TriggerResult
unfolding hit
eval_rule ctx rule = record {
  id = rule.id;
  name = rule.name;
  category = rule.category;
  triggered = hit ctx rule.rule_type;
}

unfoldable pub determine_stage : StageContext → StageRules → StageResult
unfolding eval_rule
determine_stage ctx cfg =
    let stage3 = map (eval_rule ctx) cfg.stage3_rules in
    let sicr = map (eval_rule ctx) cfg.sicr_rules in
    let fired_3 = keep (λ t. t.triggered) stage3 in
    let fired_2 = keep (λ t. t.triggered) sicr in
    record {
      stage = elim fired_3 [ [] ↦ elim fired_2 [ [] ↦ 1 | ◌∷◌ t ts ↦ 2 ] | ◌∷◌ t ts ↦ 3 ];
      reason = elim fired_3 [
        | [] ↦ map (λ t. t.name) fired_2
        | ◌∷◌ t ts ↦ t.name ∷ map (λ u. u.name) ts
      ];
      stage3_triggers = stage3;
      sicr_triggers = sicr;
    }
