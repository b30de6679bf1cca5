-- ===== src/Score/Totals.antt =====
-- The scores of a day, as they are sent and as they are stored (model/src/data/score/mod.rs).
use sweat_jar.Base.{
  if◌then◌else◌, ◌==◌, ◌++◌, ◌-◌, ◌∙◌, ap, min, panic, ok-injective, ◌>>=◌, Result, ℕ, zero, suc,
  ◌+◌, ◌<◌, ◌≡◌, refl, true, false, Bool, ltb, List, [], ◌∷◌, ok, >>=-eq-ok, arith, All,
  sub_checked, u16_mod,
}
use sweat_jar.Time.{Timezone, adjust, day, today, days_offset, assert_not_future}
use sweat_jar.Score.{
  sat_add_u16, AccountScore, DailyScore, default_score, SegmentedScoreIncrements, days_stored,
  is_valid_increment, file_increment, process_from, convert_to_days_offset, add, add_all, get, set,
}

-- The record of `k` days before the last update, where only two days are stored.
unfoldable pub stored_day : AccountScore → ℕ → DailyScore
unfolding default_score
stored_day s zero = s.history0
stored_day s (suc zero) = s.history1
stored_day s (suc (suc _)) = default_score

-- How many days ago a local time is, and whether that is `k` days.
abbrev age : Timezone → ℕ → ℕ → Result ℕ
age tz now local = today tz now >>= λ t. sub_checked t (day local)

abbrev is_age : Result ℕ → ℕ → Bool
is_age (ok d) k = d == k
is_age (panic why) k = false

-- The scores of day `k` in a list: with local times, with offsets, and as they are sent, with UTC times.
unfoldable pub local_total : Timezone → ℕ → ℕ → List (ℕ × ℕ) → ℕ
local_total tz now k [] = 0
local_total tz now k ((score, local) ∷ es) =
    (if is_age (age tz now local) k then score else 0) + local_total tz now k es

unfoldable pub offset_total : ℕ → List (ℕ × ℕ) → ℕ
offset_total k [] = 0
offset_total k ((score, d) ∷ os) = (if d == k then score else 0) + offset_total k os

unfoldable pub score_on : Timezone → ℕ → ℕ → List (ℕ × ℕ) → ℕ
score_on tz now k [] = 0
score_on tz now k ((score, utc) ∷ es) =
    (if is_age (adjust tz utc >>= age tz now) k then score else 0) + score_on tz now k es

local_total-append :
    (tz : Timezone) (now k : ℕ) (es : List (ℕ × ℕ)) (e : ℕ × ℕ)
    → local_total tz now k (es ++ e ∷ [])
      ≡ local_total tz now k es + (if is_age (age tz now e.1) k then e.0 else 0)
unfolding local_total
local_total-append tz now k [] e = omega arith
local_total-append tz now k (x ∷ es) e = omega (arith, local_total-append tz now k es e)

file_increment-total :
    (tz : Timezone) (now k : ℕ) (acc : SegmentedScoreIncrements) (score local : ℕ) (fresh : Bool)
    → k < days_stored
    → is_valid_increment tz now (score, local) ≡ ok fresh
    → local_total tz now k (file_increment acc (score, local) fresh).valid
      ≡ local_total tz now k acc.valid + (if is_age (age tz now local) k then score else 0)
unfolding file_increment is_valid_increment
file_increment-total tz now k acc score local true small h =
    local_total-append tz now k acc.valid (score, local)
file_increment-total tz now k acc score local false small h =
    let (t, ht, h1) = >>=-eq-ok (today tz now) _ h in
    let (d, hd, h2) = >>=-eq-ok (sub_checked t (day local)) _ h1 in
    let old : ltb d days_stored ≡ false = ok-injective h2 in
    let other : (d == k) ≡ false = ground arith in rw (ht, hd, other) (omega arith)

pub process_from-total :
    (tz : Timezone) (now k : ℕ) (acc : SegmentedScoreIncrements) (es : List (ℕ × ℕ))
    {out : SegmentedScoreIncrements}
    → k < days_stored
    → process_from tz now acc es ≡ ok out
    → local_total tz now k out.valid ≡ local_total tz now k acc.valid + score_on tz now k es
unfolding process_from score_on
process_from-total tz now k acc [] {out} small h =
    let e : acc ≡ out = ok-injective h in rw (← e) (omega arith)
process_from-total tz now k acc ((score, utc) ∷ es) small h =
    let (u, hu, h1) = >>=-eq-ok (assert_not_future tz now utc) _ h in
    let (local, hl, h2) = >>=-eq-ok (adjust tz utc) _ h1 in
    let (fresh, hf, h3) = >>=-eq-ok (is_valid_increment tz now (score, local)) _ h2 in
    let filed = file_increment-total tz now k acc score local fresh small hf in
    let ih = process_from-total tz now k (file_increment acc (score, local) fresh) es small h3 in
    rw hl (omega (arith, filed, ih))

pub convert_to_days_offset-total :
    (tz : Timezone) (now k : ℕ) (es : List (ℕ × ℕ)) {offsets : List (ℕ × ℕ)}
    → convert_to_days_offset tz now es ≡ ok offsets
    → offset_total k offsets ≡ local_total tz now k es
unfolding convert_to_days_offset days_offset offset_total local_total
convert_to_days_offset-total tz now k [] h = rw (← ok-injective h) refl
convert_to_days_offset-total tz now k ((score, local) ∷ es) h =
    let (t, ht, h1) = >>=-eq-ok (today tz now) _ h in
    let (d, hd, h2) = >>=-eq-ok (days_offset t (day local)) _ h1 in
    let (d', hs, h3) = >>=-eq-ok (sub_checked t (day local)) _ hd in
    let same : d' ≡ d = ground arith in
    let (os, ho, h4) = >>=-eq-ok (convert_to_days_offset tz now es) _ h2 in
    let ih = convert_to_days_offset-total tz now k es ho in
    rw (← ok-injective h4, ht, hs, same) (ap (λ n. (if d == k then score else 0) + n) ih)

add_lem :
    (s : AccountScore) (d increment k : ℕ)
    → d < days_stored
    → k < days_stored
    → (s' : AccountScore) × (add s d increment ≡ ok s')
      × ((stored_day s' k).value ≡ (
          if d == k
          then min ((stored_day s k).value + increment) (u16_mod - 1)
          else (stored_day s k).value))
      × ((stored_day s' k).booster ≡ (stored_day s k).booster)
unfolding add get set stored_day sat_add_u16
add_lem s zero increment zero hd hk = (_, refl, refl, refl)
add_lem s zero increment (suc zero) hd hk = (_, refl, refl, refl)
add_lem s (suc zero) increment zero hd hk = (_, refl, refl, refl)
add_lem s (suc zero) increment (suc zero) hd hk = (_, refl, refl, refl)
add_lem s (suc (suc d)) increment k hd hk = absurd (omega arith)
add_lem s d increment (suc (suc k)) hd hk = absurd (omega arith)

pub add_all_lem :
    (k : ℕ) (offsets : List (ℕ × ℕ)) (s : AccountScore)
    → k < days_stored
    → All (λ o. o.1 < days_stored) offsets
    → (stored_day s k).value < u16_mod
    → (s' : AccountScore) × (add_all s offsets ≡ ok s')
      × ((stored_day s' k).value
          ≡ min ((stored_day s k).value + offset_total k offsets) (u16_mod - 1))
      × ((stored_day s' k).booster ≡ (stored_day s k).booster)
unfolding add_all offset_total
add_all_lem k [] s hk bound small = (s, refl, omega arith, refl)
add_all_lem k ((increment, d) ∷ os) s hk (hd, bound) small =
    let (s1, e, value, booster) = add_lem s d increment k hd hk in
    let small' : (stored_day s1 k).value < u16_mod = ground arith in
    let (s2, e', value', booster') = add_all_lem k os s1 hk bound small' in
    (s2, rw e e', ground arith, booster' ∙ booster)

pub stamped :
    (s : AccountScore) (now k : ℕ) → stored_day (record s { updated_at = now }) k ≡ stored_day s k
unfolding stored_day
stamped s now zero = refl
stamped s now (suc zero) = refl
stamped s now (suc (suc k)) = refl
