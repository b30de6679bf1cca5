-- ===== src/Keeper/Settling.antt =====
-- Settling and caching of interest leave the deposits alone (contract/src/feature/account/api.rs,
-- `settle_interest`; feature/account/common.rs, `update_account_cache` and `update_jar_cache`).
use sweat_jar.Base.{
  inl, inr, ℕ, ◌≡◌, refl, zero, suc, ◌≤◌, true, List, [], ◌∷◌, arith, String, add_u128, add_u64,
}
use sweat_jar.Base.Dict.{Dict}
use sweat_jar.Base.Ensures.{Ensures, returns, on_if, after, given}
use sweat_jar.Time.{start_of_the_day, is_valid}
use sweat_jar.Score.{AccountScore, days_since_last_update, shift, wipe}
use sweat_jar.Product.{Product}
use sweat_jar.Jar.{Jar, cached_interest}
use sweat_jar.Jar
use sweat_jar.Account.{Account}
use sweat_jar.Account.{get_jar}
use sweat_jar.Contract.{get_account}
use sweat_jar.Interest.{get_jar_interest}
use sweat_jar.Contract.{
  Contract, get_product, get_products_for_account, cache_jar, update_jar_cache,
}
use sweat_jar.Settle.{
  settle_jars, get_settled_interest, age_score, settle_interest, cache_jars, update_account_cache,
}
use sweat_jar.Keeper.{IsQuiet, Keeper}

start_of_the_day_le : (now : ℕ) → start_of_the_day now ≤ now
unfolding start_of_the_day
start_of_the_day_le now = omega arith

age_score_updated_at : (s : AccountScore) (n : ℕ) → (age_score s n).updated_at ≡ s.updated_at
unfolding age_score shift wipe
age_score_updated_at s zero = refl
age_score_updated_at s (suc zero) = refl
age_score_updated_at s (suc (suc n)) = refl

cached-IsQuiet :
    (now : ℕ) (jar : Jar) (interest remainder time : ℕ)
    → time ≤ now
    → IsQuiet now jar (Jar.update_cache jar interest remainder time)
unfolding Jar.update_cache
cached-IsQuiet now jar interest remainder time le = (refl, inl refl, inr le)

module _ {now : ℕ} (K : Keeper now) where
  settle_jars-IsKept :
      (start : ℕ) (settled : Dict (ℕ × ℕ)) (id : String) (a : Account)
      → start ≤ now
      → K.IsKeptAccount id a
      → Ensures (K.IsKeptAccount id) (settle_jars a start settled)
  unfolding settle_jars
  settle_jars-IsKept start [] id a le h = returns a h
  settle_jars-IsKept start ((j, (interest, remainder)) ∷ rest) id a le h =
      after (get_jar a j) _ λ jar hj.
        after (add_u128 (cached_interest jar.cache) interest) _ λ total _.
          after (add_u64 jar.claim_remainder remainder) _ λ carried _.
            settle_jars-IsKept start rest id _ le
              (K.change_jar id a j _ h hj (cached-IsQuiet now jar total carried start le))

  -- `settle_interest`
  pub settle_interest-IsKept :
      (c : Contract) (id : String) → K.IsKept c → Ensures K.IsKept (settle_interest c id now)
  unfolding settle_interest
  settle_interest-IsKept c id h = after (get_account c id) _ λ a ha.
      on_if (is_valid a.timezone) _ _
        (after (days_since_last_update a.score a.timezone now) _ λ n _.
          after (get_settled_interest c id now) _ λ settled _.
            given _
              (settle_jars-IsKept (start_of_the_day now) settled id a (start_of_the_day_le now)
                (K.read c id h ha))
              λ b hb. returns _ (
                K.write c id _ h (
                  K.change_score id b (age_score b.score n) hb
                    (λ le. rw (age_score_updated_at b.score n) le))))
        (returns c h)

  pub cache_jar-IsKept :
      (id : String) (a : Account) (p : Product)
      → K.IsKeptAccount id a
      → Ensures (K.IsKeptAccount id) (cache_jar a p now)
  unfolding cache_jar
  cache_jar-IsKept id a p h = after (get_jar a p.id) _ λ jar hj.
      after (get_jar_interest p.terms a jar now) _ λ i _.
        returns _ (K.change_jar id a p.id _ h hj (cached-IsQuiet now jar i.0 i.1 now (omega arith)))

  -- `Contract::update_jar_cache`
  pub update_jar_cache-IsKept :
      (c : Contract) (id product_id : String)
      → K.IsKept c
      → Ensures K.IsKept (update_jar_cache c id product_id now)
  unfolding update_jar_cache
  update_jar_cache-IsKept c id product_id h = after (get_product c product_id) _ λ p _.
      after (get_account c id) _ λ a ha.
        given _ (cache_jar-IsKept id a p (K.read c id h ha)) λ b hb. returns _ (K.write c id b h hb)

  cache_jars-IsKept :
      (ps : List Product) (id : String) (a : Account)
      → K.IsKeptAccount id a
      → Ensures (K.IsKeptAccount id) (cache_jars a now ps)
  unfolding cache_jars
  cache_jars-IsKept [] id a h = returns a h
  cache_jars-IsKept (p ∷ ps) id a h =
      given _ (cache_jar-IsKept id a p h) λ b hb. cache_jars-IsKept ps id b hb

  -- `update_account_cache`
  pub update_account_cache-IsKept :
      (c : Contract) (id : String) → K.IsKept c → Ensures K.IsKept (update_account_cache c id now)
  unfolding update_account_cache
  update_account_cache-IsKept c id h = given _ (settle_interest-IsKept c id h) λ c' hc.
      after (get_products_for_account c' id (λ _. true)) _ λ ps _.
        after (get_account c' id) _ λ a ha.
          given _ (cache_jars-IsKept ps id a (K.read c' id hc ha))
            λ b hb. returns _ (K.write c' id b hc hb)
