-- ===== src/Invariant/Rollback.antt =====
-- The changes that a failed claim's callback applies (model/src/data/account/common.rs, `apply`).
use sweat_jar.Base.{ℕ, ◌≤◌, ◌≡◌, [], ◌∷◌, Option, none, some, arith, All, All-map, jar_not_found}
use sweat_jar.Base.Dict.{Dict, lookup, IsMap, insert-IsMap, All-insert, All-lookup}
use sweat_jar.Base.Ensures.{Ensures, returns, on_some, given}
use sweat_jar.Score.{AccountScore}
use sweat_jar.Jar.{Jar, JarCache, JarCompanion, Deposit, should_close, to_rollback}
use sweat_jar.Jar
use sweat_jar.Account.{Account, AccountCompanion, apply_jars, apply_companions, or_keep, put_jar}
use sweat_jar.Account
use sweat_jar.Invariant.{cache_time, IsJar, IsAccount}

-- The times that a change writes, 0 where it writes none.
abbrev pub cache_written : Option (Option JarCache) → ℕ
cache_written none = 0
cache_written (some cache) = cache_time cache

abbrev score_written : Option AccountScore → ℕ
score_written none = 0
score_written (some score) = score.updated_at

abbrev pub jars_written : Option (Dict JarCompanion) → Dict JarCompanion
jars_written none = []
jars_written (some cs) = cs

-- A change of a jar that leaves its deposits and writes no cache from the future.
abbrev pub IsJarChange : ℕ → JarCompanion → Type 0
IsJarChange now c = (c.new_deposits ≡ none) × (cache_written c.new_cache ≤ now)

-- A change of an account that leaves its deposits and flags and writes nothing from the future.
abbrev pub IsRollback : ℕ → AccountCompanion → Type 0
IsRollback now r =
    All (λ e. IsJarChange now e.1) (jars_written r.new_jars)
    × (score_written r.new_score ≤ now)
    × (r.new_features ≡ none)

pub IsRollback-later :
    (now later : ℕ) (r : AccountCompanion) → now ≤ later → IsRollback now r → IsRollback later r
IsRollback-later now later r le (jars, score, features) =
    (All-map (λ e h. (h.0, omega arith)) (jars_written r.new_jars) jars, omega arith, features)

module _ (now : ℕ) where
  cache_time-or_keep :
      (o : Option (Option JarCache)) (old : Option JarCache)
      → cache_written o ≤ now
      → cache_time old ≤ now
      → cache_time (Jar.or_keep o old) ≤ now
  unfolding Jar.or_keep
  cache_time-or_keep none old h ho = ho
  cache_time-or_keep (some cache) old h ho = h

  apply-IsJar :
      (jar : Jar) (c : JarCompanion)
      → IsJar now jar
      → IsJarChange now c
      → IsJar now (Jar.apply jar c)
  unfolding Jar.apply Jar.or_keep
  apply-IsJar jar c h (kept, cache) =
      (rw kept h.0, cache_time-or_keep c.new_cache jar.cache cache h.1)

  apply_jars-IsAccount :
      (cs : Dict JarCompanion) (jars : Dict Jar)
      → IsMap jars × All (λ e. IsJar now e.1) jars
      → All (λ e. IsJarChange now e.1) cs
      → Ensures (λ m. IsMap m × All (λ e. IsJar now e.1) m) (apply_jars jars cs)
  unfolding apply_jars
  apply_jars-IsAccount [] jars h hs = returns jars h
  apply_jars-IsAccount ((id, c) ∷ cs) jars h hs =
      given _ (on_some (lookup id jars) jar_not_found λ jar e. All-lookup (IsJar now) id jars h.1 e)
        λ jar hj.
          apply_jars-IsAccount cs _
            (
              insert-IsMap id _ jars h.0,
              All-insert (IsJar now) id _ jars (apply-IsJar jar c hj hs.0) h.1,
            )
            hs.1

  apply_companions-IsAccount :
      (o : Option (Dict JarCompanion)) (jars : Dict Jar)
      → IsMap jars × All (λ e. IsJar now e.1) jars
      → All (λ e. IsJarChange now e.1) (jars_written o)
      → Ensures (λ m. IsMap m × All (λ e. IsJar now e.1) m) (apply_companions jars o)
  unfolding apply_companions
  apply_companions-IsAccount none jars h hs = returns jars h
  apply_companions-IsAccount (some cs) jars h hs = apply_jars-IsAccount cs jars h hs

  score-or_keep :
      (o : Option AccountScore) (old : AccountScore)
      → score_written o ≤ now
      → old.updated_at ≤ now
      → (or_keep o old).updated_at ≤ now
  unfolding or_keep
  score-or_keep none old h ho = ho
  score-or_keep (some score) old h ho = h

  -- `Account::apply` of a rollback.
  pub apply-IsAccount :
      (a : Account) (r : AccountCompanion)
      → IsAccount now a
      → IsRollback now r
      → Ensures (IsAccount now) (Account.apply a r)
  unfolding Account.apply or_keep
  apply-IsAccount a r h (jars, score, features) =
      given _ (apply_companions-IsAccount r.new_jars a.jars (h.0, h.1) jars)
        λ m hm. returns _ (hm.0, hm.1, rw features h.2, score-or_keep r.new_score a.score score h.3)
