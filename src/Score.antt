-- ===== src/Score.antt =====
-- Daily scores (model/src/data/score/mod.rs). `DAYS_STORED` is 2: today's record and yesterday's.
use sweat_jar.Base.{
  ℕ, zero, suc, ◌+◌, ◌-◌, min, Bool, true, false, ltb, leb, if◌then◌else◌, ◌&&◌, ◌==◌, List, [],
  ◌∷◌, ◌++◌, Result, ok, panic, index_out_of_range, ◌>>=◌, ◌>>◌, u16_mod, sub_checked,
}
use sweat_jar.Decimal.{UDecimal, new}
use sweat_jar.Time.{Timezone, adjust, day, today, days_offset, assert_not_future}
pub mod Apy
pub mod History
pub mod Totals
pub mod Increments

abbrev pub days_stored : ℕ
days_stored = 2

pub record DailyScore : Type 0 where
  pub value : ℕ
  pub booster : ℕ

unfoldable pub default_score : DailyScore
default_score = record { value = 0; booster = 0 }

-- `DailyScore::MAX`
abbrev pub max_compound : ℕ
max_compound = 100000

-- `ToAPY::to_apy`: 1000 scores are 1%.
unfoldable pub to_apy : ℕ → UDecimal
unfolding new
to_apy s = new s 5

-- `DailyScore::to_capped_apy`. The sum of two u16 fits a u32.
unfoldable pub to_capped_apy : DailyScore → ℕ → Bool → UDecimal
unfolding to_apy
to_capped_apy d cap include_booster =
    let capped = min d.value cap in
    if include_booster then to_apy (min (capped + d.booster) max_compound) else to_apy capped

-- `AccountScore`, with `history` of the fixed length 2 as two fields.
pub record AccountScore : Type 0 where
  pub updated_at : ℕ
  pub history0 : DailyScore
  pub history1 : DailyScore

-- `Default for AccountScore` stamps the block's time.
unfoldable pub score_default : ℕ → AccountScore
unfolding default_score
score_default now = record { updated_at = now; history0 = default_score; history1 = default_score }

-- `AccountScore::get`, with `assert_in_bounds`.
unfoldable pub get : AccountScore → ℕ → Result DailyScore
get s zero = ok s.history0
get s (suc zero) = ok s.history1
get s (suc (suc _)) = panic index_out_of_range

-- `AccountScore::set`, and a write through `get_mut`.
unfoldable pub set : AccountScore → ℕ → DailyScore → Result AccountScore
set s zero d = ok (record s { history0 = d })
set s (suc zero) d = ok (record s { history1 = d })
set s (suc (suc _)) d = panic index_out_of_range

-- `u16::saturating_add`
unfoldable sat_add_u16 : ℕ → ℕ → ℕ
sat_add_u16 a b = min (a + b) (u16_mod - 1)

-- `AccountScore::add`
unfoldable pub add : AccountScore → ℕ → ℕ → Result AccountScore
unfolding get set sat_add_u16
add s days_ago increment = do
  d ← get s days_ago
  set s days_ago (record d { value = sat_add_u16 d.value increment })

-- The write of `apply_booster`, where the day has no booster yet.
unfoldable pub place_booster : AccountScore → ℕ → ℕ → ℕ → DailyScore → Result (AccountScore × Bool)
unfolding set
place_booster s now days_ago value d =
    if ltb 0 d.booster
    then ok (s, false)
    else (set s days_ago (record d { booster = value }) >>= λ s'.
        ok (record s' { updated_at = now }, true))

-- `AccountScore::apply_booster`
unfoldable pub apply_booster : AccountScore → ℕ → ℕ → ℕ → Result (AccountScore × Bool)
unfolding get place_booster
apply_booster s now days_ago value =
    if leb days_stored days_ago
    then ok (s, false)
    else (get s days_ago >>= place_booster s now days_ago value)

unfoldable pub wipe : AccountScore → AccountScore
unfolding default_score
wipe s = record s { history0 = default_score; history1 = default_score }

-- `copy_within(0..1, 1)`, then the first entry is reset.
unfoldable pub shift : AccountScore → AccountScore
unfolding default_score
shift s = record s { history0 = default_score; history1 = s.history0 }

-- `get_update_day`, `get_days_number_since_last_update`.
unfoldable pub days_since_last_update : AccountScore → Timezone → ℕ → Result ℕ
unfolding today adjust day days_offset
days_since_last_update s tz now = do
  t ← today tz now
  u ← adjust tz s.updated_at
  days_offset t (day u)

unfoldable pub finalized_at : AccountScore → ℕ → Result DailyScore
unfolding get default_score
finalized_at s zero = get s 1
finalized_at s (suc zero) = get s 0
finalized_at s (suc (suc _)) = ok default_score

-- `get_last_finalized_record`
unfoldable pub get_last_finalized_record : AccountScore → Timezone → ℕ → Result DailyScore
unfolding finalized_at days_since_last_update
get_last_finalized_record s tz now = do n ← days_since_last_update s tz now; finalized_at s n

-- `get_capped_finalized_score`
unfoldable pub get_capped_finalized_score : AccountScore → Timezone → ℕ → ℕ → Result ℕ
unfolding get_last_finalized_record
get_capped_finalized_score s tz cap now = do
  d ← get_last_finalized_record s tz now
  ok (min d.value cap)

unfoldable pub add_all : AccountScore → List (ℕ × ℕ) → Result AccountScore
unfolding add
add_all s [] = ok s
add_all s ((increment, days_ago) ∷ rest) = do s' ← add s days_ago increment; add_all s' rest

-- `AccountScore::update`
unfoldable pub update : AccountScore → ℕ → List (ℕ × ℕ) → Result AccountScore
unfolding add_all
update s now increments = do s' ← add_all s increments; ok (record s' { updated_at = now })

-- `SegmentedScoreIncrements`: pairs of a score and a local time.
pub record SegmentedScoreIncrements : Type 0 where
  pub outdated : List (ℕ × ℕ)
  pub valid : List (ℕ × ℕ)

-- `ScoreIncrementProcessor::is_valid`
unfoldable is_valid_increment : Timezone → ℕ → ℕ × ℕ → Result Bool
unfolding today day
is_valid_increment tz now (score, local) = do
  t ← today tz now
  d ← sub_checked t (day local)
  ok (ltb d days_stored)

unfoldable file_increment : SegmentedScoreIncrements → ℕ × ℕ → Bool → SegmentedScoreIncrements
file_increment acc e true = record acc { valid = acc.valid ++ e ∷ [] }
file_increment acc e false = record acc { outdated = acc.outdated ++ e ∷ [] }

unfoldable process_from :
    Timezone → ℕ → SegmentedScoreIncrements → List (ℕ × ℕ) → Result SegmentedScoreIncrements
unfolding adjust assert_not_future is_valid_increment file_increment
process_from tz now acc [] = ok acc
process_from tz now acc ((score, utc) ∷ rest) = do
  assert_not_future tz now utc
  local ← adjust tz utc
  fresh ← is_valid_increment tz now (score, local)
  process_from tz now (file_increment acc (score, local) fresh) rest

-- `ScoreIncrementProcessor::process`
unfoldable pub process : Timezone → ℕ → List (ℕ × ℕ) → Result SegmentedScoreIncrements
unfolding process_from
process tz now increments = process_from tz now (record { outdated = []; valid = [] }) increments

-- `convert_to_days_offset`
unfoldable pub convert_to_days_offset : Timezone → ℕ → List (ℕ × ℕ) → Result (List (ℕ × ℕ))
unfolding today day days_offset
convert_to_days_offset tz now [] = ok []
convert_to_days_offset tz now ((score, local) ∷ rest) = do
  t ← today tz now
  d ← days_offset t (day local)
  offsets ← convert_to_days_offset tz now rest
  ok ((score, d) ∷ offsets)

-- `AccountScoreLegacy`, with its two arrays as four fields.
pub record AccountScoreLegacy : Type 0 where
  pub updated_at : ℕ
  pub timezone : Timezone
  pub scores0 : ℕ
  pub scores1 : ℕ
  pub scores_history0 : ℕ
  pub scores_history1 : ℕ

-- `From<AccountScoreLegacy> for AccountScore`
unfoldable pub of_legacy : AccountScoreLegacy → AccountScore
of_legacy l = record {
  updated_at = l.updated_at;
  history0 = record { value = l.scores_history0; booster = 0 };
  history1 = record { value = l.scores_history1; booster = 0 };
}
