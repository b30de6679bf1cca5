-- ===== src/Examples/Values.antt =====
-- Examples of the theorems on numbers, scores, deposits and interest.
use sweat_jar.Base.{
  min, suc, u128_mod, ℕ, zero, ◌+◌, ◌-◌, ◌*◌, ◌/◌, ◌^◌, ◌≤◌, ◌<◌, ◌≡◌, ◌⊎◌, refl, min, max, true,
  false, if◌then◌else◌, none, some, List, [], ◌∷◌, Result, ok, String, arith, All, take, drop,
  u128_mod,
}
use sweat_jar.Decimal.{UDecimal, mul, saturating_mul, add, max_exponent}
use sweat_jar.Decimal.Laws.{saturating_mul_total}
use sweat_jar.Time.{ms_in_day}
use sweat_jar.Product.{ConfigurableValue, ConfigurableValueDto, constant, tier, to_dto, of_dto}
use sweat_jar.Product.Laws.{of_dto-to_dto}
use sweat_jar.Score.{
  AccountScore, DailyScore, SegmentedScoreIncrements, days_stored, max_compound, get, apply_booster,
  to_capped_apy,
}
use sweat_jar.Score.Apy.{to_capped_apy_lem, yearly-le-principal}
use sweat_jar.Score.History.{apply_booster_lem}
use sweat_jar.Jar.{Deposit, partition_point, update_cache}
use sweat_jar.Jar.Liquid.{principal_sum}
use sweat_jar.Jar.Maturity.{IsSorted, partition_point-exact}
use sweat_jar.Interest.{get_jar_interest}
use sweat_jar.Interest.Accrual.{get_jar_interest-update_cache}
use sweat_jar.Migration.{sort_deposits, merge_deposits}
use sweat_jar.Migration.Upgrade.{IsDistinct, sort_deposits-IsSorted, merge_deposits-lem}
use sweat_jar.Examples.Data.{alice, year, year_jar, deposit_at, score_of, twelve_percent, result_or}

saturating_mul_total_example :
    (r : ℕ) × (saturating_mul twelve_percent 1000 ≡ ok r)
    × (10 ^ twelve_percent.exponent * r ≤ min (1000 * twelve_percent.significand) (u128_mod - 1))
    × (min (1000 * twelve_percent.significand) (u128_mod - 1)
        < 10 ^ twelve_percent.exponent * suc r)
saturating_mul_total_example = saturating_mul_total twelve_percent 1000 (omega arith)

abbrev half : UDecimal
half = record { significand = 5; exponent = 1 }

abbrev two_tiers : ConfigurableValue ℕ
two_tiers = tier 12 10

abbrev one_value : ConfigurableValueDto ℕ
one_value = record { default = 12; fallback = none }

of_dto-to_dto_example :
    (of_dto (to_dto two_tiers) ≡ two_tiers) × (to_dto (of_dto one_value) ≡ one_value)
of_dto-to_dto_example = of_dto-to_dto two_tiers one_value

abbrev walked : DailyScore
walked = record { value = 25000; booster = 3000 }

to_capped_apy_lem_example :
    ((to_capped_apy walked 20000 true).exponent ≡ 5)
    × ((to_capped_apy walked 20000 true).significand ≤ max_compound)
    × ((to_capped_apy walked 20000 true).significand ≡ (
        if true
        then min (min walked.value 20000 + walked.booster) max_compound
        else min walked.value 20000))
to_capped_apy_lem_example = to_capped_apy_lem walked 20000 true (omega arith)

yearly-le-principal_example : 23000 ≤ 100000
unfolding saturating_mul sweat_jar.Decimal.pow10 to_capped_apy
yearly-le-principal_example =
    yearly-le-principal walked 20000 100000 true {yearly = 23000} (omega arith) refl

apply_booster_lem_example :
    let s = score_of 39 5000 7000 in
    ((apply_booster s 100 1 9 ≡ ok (s, false))
      × ((days_stored ≤ 1) ⊎ ((d : DailyScore) × (get s 1 ≡ ok d) × (0 < d.booster))))
    ⊎ ((s' : AccountScore) × (d : DailyScore) × (apply_booster s 100 1 9 ≡ ok (s', true))
        × (get s 1 ≡ ok d)
        × (d.booster ≡ 0)
        × (get s' 1 ≡ ok (record { value = d.value; booster = 9 }))
        × (get s' (1 - 1) ≡ get s (1 - 1))
        × (s'.updated_at ≡ 100))
apply_booster_lem_example = apply_booster_lem (score_of 39 5000 7000) 100 1 9

abbrev boosted : AccountScore
boosted = record {
  updated_at = 100;
  history0 = record { value = 5000; booster = 0 };
  history1 = record { value = 7000; booster = 9 };
}

abbrev segmented : SegmentedScoreIncrements
segmented = record { outdated = (30, 30 * ms_in_day) ∷ []; valid = (40, 40 * ms_in_day) ∷ [] }

abbrev batch : List (ℕ × ℕ)
batch = (40, 40 * ms_in_day) ∷ (30, 30 * ms_in_day) ∷ []

partition_point-exact_example :
    (n : ℕ) × (partition_point year.terms (40 * ms_in_day) year_jar.deposits ≡ ok n)
    × All (λ d. d.created_at + 30 * ms_in_day < 40 * ms_in_day) (take n year_jar.deposits)
    × All (λ d. 40 * ms_in_day ≤ d.created_at + 30 * ms_in_day) (drop n year_jar.deposits)
unfolding sweat_jar.Product.get_lockup_term
partition_point-exact_example =
    partition_point-exact year.terms (40 * ms_in_day) (30 * ms_in_day) year_jar.deposits refl
      ((omega arith, tt), (tt, tt)) (omega arith, (omega arith, tt))

get_jar_interest-update_cache_example :
    result_or
      (0, 0)
      (get_jar_interest year.terms alice
        (update_cache year_jar
          (result_or (0, 0) (get_jar_interest year.terms alice year_jar (25 * ms_in_day))).0
          (result_or (0, 0) (get_jar_interest year.terms alice year_jar (25 * ms_in_day))).1
          (25 * ms_in_day))
        (40 * ms_in_day))
    ≡ result_or (0, 0) (get_jar_interest year.terms alice year_jar (40 * ms_in_day))
unfolding get_jar_interest sweat_jar.Base.add_u128 sweat_jar.Base.add_u64 sweat_jar.Decimal.pow10
    sweat_jar.Decimal.sat_mul_u128 sweat_jar.Interest.Units.yearly sweat_jar.Interest.get_interest
    sweat_jar.Product.is_score_based update_cache
get_jar_interest-update_cache_example =
    get_jar_interest-update_cache year.terms alice year_jar (25 * ms_in_day) (40 * ms_in_day)
      twelve_percent
      {o1 = result_or (0, 0) (get_jar_interest year.terms alice year_jar (25 * ms_in_day))}
      {o3 = result_or (0, 0) (get_jar_interest year.terms alice year_jar (40 * ms_in_day))} refl
      (omega arith) tt refl (omega arith, (omega arith, tt)) refl refl refl

abbrev unsorted : List Deposit
unsorted = deposit_at 20 300 ∷ deposit_at 1 200 ∷ deposit_at 20 5 ∷ []

sort_deposits-IsSorted_example :
    IsSorted (sort_deposits unsorted)
    × (principal_sum (sort_deposits unsorted) ≡ principal_sum unsorted)
sort_deposits-IsSorted_example = sort_deposits-IsSorted unsorted

merge_deposits-lem_example :
    let out = deposit_at 20 305 ∷ deposit_at 1 200 ∷ [] in
    IsDistinct out × (principal_sum out ≡ principal_sum unsorted)
unfolding merge_deposits sweat_jar.Base.add_u128
merge_deposits-lem_example =
    merge_deposits-lem unsorted {out = deposit_at 20 305 ∷ deposit_at 1 200 ∷ []} refl
