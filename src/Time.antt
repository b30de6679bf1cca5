-- ===== src/Time.antt =====
-- Timestamps and timezones (model/src/lib.rs, types/timestamps.rs, types/timezone.rs), in
-- milliseconds. In the production build the time scale is the constant 1 (time_scale.rs).
use sweat_jar.Base.{
  ℕ, suc, ◌+◌, ◌-◌, ◌*◌, ◌/◌, ◌%◌, Bool, false, not, ltb, leb, ◌==◌, if◌then◌else◌, Result, ok,
  panic, adjust_failed, days_offset_failed, from_future, ◌>>=◌, require, u16_mod, u64_mod,
  sub_checked,
}

abbrev ms_in_second : ℕ
ms_in_second = 1000

abbrev ms_in_minute : ℕ
ms_in_minute = ms_in_second * 60

abbrev ms_in_hour : ℕ
ms_in_hour = ms_in_minute * 60

abbrev pub ms_in_day : ℕ
ms_in_day = ms_in_hour * 24

abbrev pub ms_in_year : ℕ
ms_in_year = ms_in_day * 365

-- An i64. `negsuc n` is -(n + 1).
pub data ℤ : Type 0 where
  pos : ℕ → ℤ
  negsuc : ℕ → ℤ

-- `Timezone(i64)`: the shift from UTC.
pub record Timezone : Type 0 where
  pub shift : ℤ

unfoldable pub timezone_new : ℤ → Timezone
timezone_new z = record { shift = z }

-- `Timezone::invalid()` is `i64::MIN`.
abbrev i64_min : ℤ
i64_min = negsuc 0x7fff_ffff_ffff_ffff

unfoldable pub invalid : Timezone
invalid = record { shift = i64_min }

unfoldable is_min : ℤ → Bool
is_min (pos n) = false
is_min (negsuc n) = n == 0x7fff_ffff_ffff_ffff

unfoldable pub is_valid : Timezone → Bool
unfolding is_min
is_valid tz = not (is_min tz.shift)

-- `i128::from(shift) + i128::from(timestamp)`, then `try_into` u64. The i128 sum of an i64 and
-- a u64 cannot overflow.
unfoldable shift_by : ℤ → ℕ → Result ℕ
shift_by (pos k) t = if ltb (k + t) u64_mod then ok (k + t) else panic adjust_failed
shift_by (negsuc k) t = if leb (suc k) t then ok (t - suc k) else panic adjust_failed

-- `Timezone::adjust`, from a UTC to a local time.
unfoldable pub adjust : Timezone → ℕ → Result ℕ
unfolding shift_by
adjust tz t = shift_by tz.shift t

-- `TimeHelper::day` and `TimeHelper::time`.
unfoldable pub day : ℕ → ℕ
day t = t / ms_in_day

unfoldable time_of_day : ℕ → ℕ
time_of_day t = t % ms_in_day

unfoldable pub start_of_the_day : ℕ → ℕ
start_of_the_day t = t - t % ms_in_day

-- `Timezone::today`, at the block's time `now`.
unfoldable pub today : Timezone → ℕ → Result ℕ
unfolding adjust day
today tz now = do local ← adjust tz now; ok (day local)

-- `DaysOffset::try_from(a - b)`: the subtraction is checked, the result has to fit a u16.
unfoldable pub days_offset : ℕ → ℕ → Result ℕ
days_offset a b = do d ← sub_checked a b; if ltb d u16_mod then ok d else panic days_offset_failed

-- `Timezone::assert_not_future`
unfoldable pub assert_not_future : Timezone → ℕ → ℕ → Result (Unit {0})
unfolding adjust
assert_not_future tz now t = do
  local_now ← adjust tz now
  local ← adjust tz t
  require (leb local local_now) from_future
