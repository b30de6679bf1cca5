-- ===== src/Settle/Scores.antt =====
-- The stored scores across `settle_interest` (contract/src/feature/account/api.rs).
use sweat_jar.Base.{
  ◌<◌, ◌-◌, ltb, if◌then◌else◌, arith, subst, or_panic, or_panic-eq-ok, jar_not_found, ℕ, zero, suc,
  ◌≡◌, refl, sym, ap, ◌∙◌, true, [], ◌∷◌, ok, >>=-eq-ok, ◌>>=◌, ok-injective, String, add_u128,
  add_u64,
}
use sweat_jar.Base.Dict.{Dict, lookup}
use sweat_jar.Time.{Timezone, is_valid, start_of_the_day}
use sweat_jar.Score.{
  AccountScore, days_stored, default_score, shift, wipe, finalized_at, days_since_last_update, get,
  get_last_finalized_record,
}
use sweat_jar.Score.Totals.{stored_day}
use sweat_jar.Jar.{Jar, cached_interest}
use sweat_jar.Account.Restore.{Agree, Agree-insert}
use sweat_jar.Jar
use sweat_jar.Account.{Account, get_jar, put_jar}
use sweat_jar.Contract.{Contract, get_account, put_account}
use sweat_jar.Oracle.Flags.{get_account-put_account}
use sweat_jar.Settle.{age_score, settle_jars, get_settled_interest, settle_interest}

-- What settling leaves of an account besides its jars.
abbrev IsSettled : Account → ℕ → Account → Type 0
IsSettled a n b =
    (b.nonce ≡ a.nonce)
    × (b.timezone ≡ a.timezone)
    × (b.features ≡ a.features)
    × (b.score ≡ age_score a.score n)

settle_jars-frame :
    (start : ℕ) (settled : Dict (ℕ × ℕ)) (a : Account) {b : Account}
    → settle_jars a start settled ≡ ok b
    → (b.nonce ≡ a.nonce)
      × (b.timezone ≡ a.timezone)
      × (b.features ≡ a.features)
      × (b.score ≡ a.score)
unfolding settle_jars put_jar
settle_jars-frame start [] a {b} h = let e : b ≡ a = cc in rw e (refl, refl, refl, refl)
settle_jars-frame start ((id, (interest, remainder)) ∷ rest) a h =
    let (jar, _, h1) = >>=-eq-ok (get_jar a id) _ h in
    let (total, _, h2) = >>=-eq-ok (add_u128 (cached_interest jar.cache) interest) _ h1 in
    let (carried, _, h3) = >>=-eq-ok (add_u64 jar.claim_remainder remainder) _ h2 in
    settle_jars-frame start rest (put_jar a id (Jar.update_cache jar total carried start)) h3

placed :
    (c : Contract) (id : String) (b : Account) {c1 : Contract}
    → ok (put_account c id b) ≡ ok c1
    → get_account c1 id ≡ ok b
placed c id b {c1} h =
    let e : c1 ≡ put_account c id b = sym (ok-injective h) in rw e (get_account-put_account c id b)

settle_interest-unfolded :
    (c : Contract) (id : String) (now n : ℕ) {a : Account}
    → get_account c id ≡ ok a
    → is_valid a.timezone ≡ true
    → days_since_last_update a.score a.timezone now ≡ ok n
    → settle_interest c id now ≡ (
        get_settled_interest c id now >>= λ settled.
        settle_jars a (start_of_the_day now) settled >>= λ a'.
        ok (put_account c id (record a' { score = age_score a'.score n })))
unfolding settle_interest
settle_interest-unfolded c id now n ha hv hn = rw (ha, hv, hn) refl

settle_interest-IsSettled :
    (c : Contract) (id : String) (now n : ℕ) {a : Account} {c1 : Contract}
    → get_account c id ≡ ok a
    → is_valid a.timezone ≡ true
    → days_since_last_update a.score a.timezone now ≡ ok n
    → settle_interest c id now ≡ ok c1
    → (b : Account) × (get_account c1 id ≡ ok b) × IsSettled a n b
settle_interest-IsSettled c id now n {a} {c1} ha hv hn h =
    let h1 = sym (settle_interest-unfolded c id now n ha hv hn) ∙ h in
    let (settled, hs, h2) = >>=-eq-ok (get_settled_interest c id now) _ h1 in
    let (b, hb, h3) = >>=-eq-ok (settle_jars a (start_of_the_day now) settled) _ h2 in
    let (e1, e2, e3, e4) = settle_jars-frame _ settled a hb in
    let b' : Account = record b { score = age_score b.score n } in
    (b', placed c id b' h3, (e1, e2, e3, ap (λ s. age_score s n) e4))

age_score_lem :
    (s : AccountScore) (n k : ℕ)
    → k < days_stored
    → stored_day (age_score s n) k ≡ (if ltb k n then default_score else stored_day s (k - n))
unfolding stored_day age_score shift wipe
age_score_lem s zero zero h = refl
age_score_lem s zero (suc zero) h = refl
age_score_lem s (suc zero) zero h = refl
age_score_lem s (suc zero) (suc zero) h = refl
age_score_lem s (suc (suc n)) zero h = ground arith
age_score_lem s (suc (suc n)) (suc zero) h = ground arith
age_score_lem s n (suc (suc k)) h = absurd (omega arith)

settle_jars-Agree :
    (start : ℕ) (jars : Dict Jar) (settled : Dict (ℕ × ℕ)) (a : Account) {b : Account}
    → Agree jars a.jars
    → settle_jars a start settled ≡ ok b
    → Agree jars b.jars
unfolding settle_jars put_jar get_jar Jar.update_cache
settle_jars-Agree start jars [] a agree h = subst (λ x. Agree jars x.jars) (ok-injective h) agree
settle_jars-Agree start jars ((id, (interest, remainder)) ∷ rest) a agree h =
    let (jar, hj, h1) = >>=-eq-ok (or_panic (lookup id a.jars) jar_not_found) _ h in
    let (total, _, h2) = >>=-eq-ok (add_u128 (cached_interest jar.cache) interest) _ h1 in
    let (carried, _, h3) = >>=-eq-ok (add_u64 jar.claim_remainder remainder) _ h2 in
    let jar' = Jar.update_cache jar total carried start in
    let found = or_panic-eq-ok (lookup id a.jars) jar_not_found hj in
    settle_jars-Agree start jars rest (put_jar a id jar')
      (Agree-insert jars a.jars id jar jar' agree found refl) h3

-- What settling leaves of an account after `n` days: the stored days count from the day of settling on, and
-- every jar has its deposits.
abbrev pub IsAged : Account → ℕ → ℕ → Account → Type 0
IsAged a n k b =
    (b.nonce ≡ a.nonce)
    × (b.timezone ≡ a.timezone)
    × (b.features ≡ a.features)
    × (b.score.updated_at ≡ a.score.updated_at)
    × (stored_day b.score k ≡ (if ltb k n then default_score else stored_day a.score (k - n)))
    × Agree a.jars b.jars

age_score-updated_at : (s : AccountScore) (n : ℕ) → (age_score s n).updated_at ≡ s.updated_at
unfolding age_score shift wipe
age_score-updated_at s zero = refl
age_score-updated_at s (suc zero) = refl
age_score-updated_at s (suc (suc n)) = refl

-- Where the account has a timezone and its last update is `n` days old, `settle_interest` leaves in the stored
-- day `k` the score of `n` days later: none where `k` is less than `n`, or else that of day `k - n` before. It
-- keeps the time of the update, nonce, timezone and flags, and the deposits of every jar.
pub settle_interest-scores :
    (c : Contract) (id : String) (now n k : ℕ) {a : Account} {c1 : Contract}
    → k < days_stored
    → get_account c id ≡ ok a
    → is_valid a.timezone ≡ true
    → days_since_last_update a.score a.timezone now ≡ ok n
    → settle_interest c id now ≡ ok c1
    → (b : Account) × (get_account c1 id ≡ ok b) × IsAged a n k b
settle_interest-scores c id now n k {a} {c1} stored ha hv hn h =
    let h1 = sym (settle_interest-unfolded c id now n ha hv hn) ∙ h in
    let (settled, hs, h2) = >>=-eq-ok (get_settled_interest c id now) _ h1 in
    let (b, hb, h3) = >>=-eq-ok (settle_jars a (start_of_the_day now) settled) _ h2 in
    let (e1, e2, e3, e4) = settle_jars-frame _ settled a hb in
    let b' : Account = record b { score = age_score b.score n } in
    let aged : b'.score ≡ age_score a.score n = ap (λ s. age_score s n) e4 in
    (
      b',
      placed c id b' h3,
      (
        e1,
        e2,
        e3,
        ap (λ s. s.updated_at) aged ∙ age_score-updated_at a.score n,
        ap (λ s. stored_day s k) aged ∙ age_score_lem a.score n k stored,
        settle_jars-Agree _ a.jars settled a (λ key. refl) hb,
      ),
    )

-- Settling leaves the time of the last update, so the age of the scores is read the same again.
days_since-age :
    (s : AccountScore) (n : ℕ) (tz : Timezone) (now : ℕ)
    → days_since_last_update (age_score s n) tz now ≡ days_since_last_update s tz now
unfolding days_since_last_update age_score shift wipe
days_since-age s zero tz now = refl
days_since-age s (suc zero) tz now = refl
days_since-age s (suc (suc n)) tz now = refl

-- On the day after an account's last update, two calls of `settle_interest` (with no new score between
-- them) leave no score of the account: both stored days are empty, and the
-- last finished day reads as the empty record.
pub settle_interest_twice :
    (c : Contract) (id : String) (now later : ℕ) {a : Account} {c1 c2 : Contract}
    → get_account c id ≡ ok a
    → is_valid a.timezone ≡ true
    → days_since_last_update a.score a.timezone now ≡ ok 1
    → days_since_last_update a.score a.timezone later ≡ ok 1
    → settle_interest c id now ≡ ok c1
    → settle_interest c1 id later ≡ ok c2
    → (b : Account) × (get_account c2 id ≡ ok b)
      × (b.score.history0 ≡ default_score)
      × (b.score.history1 ≡ default_score)
      × (get_last_finalized_record b.score b.timezone later ≡ ok default_score)
unfolding get_last_finalized_record finalized_at get age_score shift
settle_interest_twice c id now later {a} ha hv hn hl h1 h2 =
    let (b1, g1, (_, t1, _, s1)) = settle_interest-IsSettled c id now 1 ha hv hn h1 in
    let v1 : is_valid b1.timezone ≡ true = rw (t1, hv) refl in
    let d1 : days_since_last_update b1.score b1.timezone later ≡ ok 1 =
      rw (s1, t1) (days_since-age a.score 1 a.timezone later ∙ hl) in
    let (b2, g2, (_, t2, _, s2)) = settle_interest-IsSettled _ id later 1 g1 v1 d1 h2 in
    let d2 : days_since_last_update b2.score b2.timezone later ≡ ok 1 =
      rw (s2, t2) (days_since-age b1.score 1 b1.timezone later ∙ d1) in
    let e : b2.score.history0 ≡ default_score = rw s2 refl in
    (b2, g2, e, rw (s2, s1) refl, rw d2 (ap ok e))
