-- ===== src/Score/History.antt =====
-- Boosters on the two stored days (model/src/data/score/mod.rs).
use sweat_jar.Base.{
  ℕ, zero, suc, ◌≤◌, ◌<◌, ◌≡◌, ◌-◌, refl, ◌⊎◌, inl, inr, true, false, Bool-cases, ltb, ltb→lt, ok,
  arith,
}
use sweat_jar.Score.{AccountScore, DailyScore, get, set, apply_booster, place_booster, days_stored}

-- A booster that is applied goes to a stored day that had none: that day keeps its value, the
-- other day stays, and the time is stamped. One that is refused changes nothing.
pub apply_booster_lem :
    (s : AccountScore) (now days_ago v : ℕ)
    → ((apply_booster s now days_ago v ≡ ok (s, false))
        × ((days_stored ≤ days_ago)
            ⊎ ((d : DailyScore) × (get s days_ago ≡ ok d) × (0 < d.booster))))
      ⊎ ((s' : AccountScore) × (d : DailyScore) × (apply_booster s now days_ago v ≡ ok (s', true))
          × (get s days_ago ≡ ok d)
          × (d.booster ≡ 0)
          × (get s' days_ago ≡ ok (record { value = d.value; booster = v }))
          × (get s' (1 - days_ago) ≡ get s (1 - days_ago))
          × (s'.updated_at ≡ now))
unfolding apply_booster place_booster get set
apply_booster_lem s now zero v = elim (Bool-cases (ltb 0 s.history0.booster)) [
  | inl had ↦ inl (rw had, inr (s.history0, refl, ltb→lt 0 s.history0.booster had))
  | inr free ↦ inr (
    record s { history0 = record { value = s.history0.value; booster = v }; updated_at = now },
    s.history0,
    rw free,
    refl,
    ground arith,
    refl,
    refl,
    refl,
  )
]
apply_booster_lem s now (suc zero) v = elim (Bool-cases (ltb 0 s.history1.booster)) [
  | inl had ↦ inl (rw had, inr (s.history1, refl, ltb→lt 0 s.history1.booster had))
  | inr free ↦ inr (
    record s { history1 = record { value = s.history1.value; booster = v }; updated_at = now },
    s.history1,
    rw free,
    refl,
    ground arith,
    refl,
    refl,
    refl,
  )
]
apply_booster_lem s now (suc (suc n)) v = inl (ground arith, inl (omega arith))

-- A day takes one booster: after one that is not 0 was applied, any other is refused.
pub apply_booster_once :
    (s : AccountScore) (now later days_ago v w : ℕ) {s' : AccountScore}
    → 0 < v
    → apply_booster s now days_ago v ≡ ok (s', true)
    → apply_booster s' later days_ago w ≡ ok (s', false)
unfolding apply_booster place_booster get set
apply_booster_once s now later zero v w p h = ground arith
apply_booster_once s now later (suc zero) v w p h = ground arith
apply_booster_once s now later (suc (suc n)) v w p h = ground arith
