-- ===== src/Score/Increments.antt =====
-- A batch of scores, from `process` to `update` (model/src/data/score/mod.rs).
use sweat_jar.Base.{ℕ, ◌+◌, ◌≡◌, true, ok, length}
use sweat_jar.Time.{Timezone}
use sweat_jar.Score.{SegmentedScoreIncrements, is_valid_increment}

abbrev IsFresh : Timezone → ℕ → ℕ × ℕ → Type 0
IsFresh tz now e = is_valid_increment tz now e ≡ ok true

abbrev kept : SegmentedScoreIncrements → ℕ
kept s = length s.valid + length s.outdated
