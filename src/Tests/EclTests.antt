-- ===== src/Tests/EclTests.antt =====
-- app/services/ecl_stage.py and app/services/ecl_engine.py with the rules and rates that the service
-- starts with.
use retail_credit_platform.Common.{
  ◌≤ℤ◌, ℕ, ◌≡◌, ◌≤◌, refl, pos, ◌-ℤ◌, false, none, some, [], ◌∷◌, arith,
}
use retail_credit_platform.Ecl.{
  Fraction, SignalSource, StageSignals, StageContext, RuleType, Rule, StageRules, rating_index,
  determine_stage,
}
use retail_credit_platform.Ecl.Engine.{
  calc_three_stage, calc_simplified_lifetime, calc_dpd_banded, dpd_band_label, BandLabel, IsLoss,
  IsPart, calc_three_stage_lem,
}
use retail_credit_platform.Ecl.Worse.{Worse, determine_stage_mono}

abbrev rule : ℕ → RuleType → Rule
rule n t = record { id = n ∷ []; name = n ∷ []; category = []; rule_type = t }

abbrev rules : StageRules
rules = record {
  stage3_rules =
      rule 1 (RuleType.dpd_gte (pos 90))
      ∷ rule 2 (RuleType.flag SignalSource.broken_promise_to_pay)
      ∷ rule 3 (RuleType.flag SignalSource.credit_impaired_flag)
      ∷ [];
  sicr_rules =
      rule 4 (RuleType.dpd_gte (pos 30))
      ∷ rule 5 (RuleType.flag SignalSource.open_collections_case)
      ∷ rule 6 (RuleType.pd_ratio_gte (record { digits = 20; places = 1 }))
      ∷ rule 7 (RuleType.rating_notches_gte (pos 2))
      ∷ rule 8 (RuleType.flag SignalSource.forbearance_flag)
      ∷ [];
}

abbrev calm : StageSignals
calm = record {
  open_collections_case = false;
  broken_promise_to_pay = false;
  forbearance_flag = false;
  credit_impaired_flag = false;
  unlikely_to_pay_flag = false;
}

-- Rated B at origination and now, ten days past due.
abbrev rated_b : StageContext
rated_b = record {
  dpd = pos 10;
  current_pd_12m = some (record { digits = 2; places = 2 });
  origination_pd_12m = some (record { digits = 20_000; places = 6 });
  current_rating = some (66 ∷ []);
  origination_rating = some (66 ∷ []);
  signals = calm;
}

-- The same with twice the probability and grade D.
abbrev rated_d : StageContext
rated_d = record rated_b {
  current_pd_12m = some (record { digits = 4; places = 2 });
  current_rating = some (68 ∷ []);
}

-- Both the probability and the grade put the contract in stage 2.
two_reasons : (determine_stage rated_d rules).reason ≡ (6 ∷ []) ∷ (7 ∷ []) ∷ []
unfolding determine_stage ◌-ℤ◌
two_reasons = refl

one_percent_band :
    dpd_band_label
      (pos 45)
      (record { low = pos 1; high = some (pos 30) } ∷ record { low = pos 31; high = none } ∷ [])
    ≡ some (BandLabel.band (record { low = pos 31; high = none }))
unfolding dpd_band_label
one_percent_band = refl

rated_d-Worse : Worse rated_b rated_d
unfolding rating_index
rated_d-Worse = record {
  dpd = omega arith;
  current_pd = omega arith;
  origination_pd = refl;
  current_rating = omega arith;
  origination_rating = refl;
  signals = λ s h. h;
}

determine_stage_mono_example :
    ((determine_stage rated_b rules).stage ≤ (determine_stage rated_d rules).stage)
    × (1 ≤ (determine_stage rated_b rules).stage)
    × ((determine_stage rated_d rules).stage ≤ 3)
determine_stage_mono_example = determine_stage_mono rated_b rated_d rules rated_d-Worse

abbrev two : Fraction
two = record { digits = 2; places = 2 }

abbrev twelve : Fraction
twelve = record { digits = 12; places = 2 }

abbrev forty : Fraction
forty = record { digits = 40; places = 2 }

calc_three_stage_lem_example :
    let first = calc_three_stage (pos 100_000) 1 two twelve forty in
    let later = calc_three_stage (pos 100_000) 2 two twelve forty in
    IsLoss 100_000 two forty first.0
    × (first.1 ≡ two)
    × IsLoss 100_000 twelve forty later.0
    × (later.1 ≡ twelve)
    × (first.0 ≤ℤ later.0)
    × IsPart 100_000 twelve (calc_simplified_lifetime (pos 100_000) twelve)
    × IsPart 100_000 twelve (calc_dpd_banded (pos 100_000) twelve)
calc_three_stage_lem_example =
    calc_three_stage_lem 100_000 0 two twelve forty twelve (omega arith) (omega arith) (omega arith)
      (omega arith) (omega arith)
