-- ===== src/Held/Restakes.antt =====
-- A restake takes nothing from a held jar: its builders take unlocked jars only
-- (contract/src/feature/restake/api/api.rs).
use sweat_jar.Base.{
  ℕ, ◌≡◌, ◌≢◌, sym, ap, ◌∙◌, true, not, Bool-cases, inl, inr, Option, some, some-injective, List,
  [], ◌∷◌, ok, or_panic-eq-ok, require-eq-ok, String, All, All-append, All-map, ltb, jar_is_locked,
  add_u128, add_u32, sub_checked, jar_not_found, arith, ◌⊎◌, str_eq, eq_iff,
}
use sweat_jar.Base.Dict.{Dict, lookup, IsMap, IsMap-entries}
use sweat_jar.Base.Ensures.{Ensures, returns, on_if, after, given, outcome, under}
use sweat_jar.Product.{Product, calculate_fee}
use sweat_jar.Jar.{Deposit, Jar, assert_not_locked, clean_up_deposits, get_liquid_balance}
use sweat_jar.Account.{Account, get_jar, put_jar}
use sweat_jar.Account
use sweat_jar.Contract.{Env, Contract, get_account, get_product}
use sweat_jar.Deposits.{DepositTicket}
use sweat_jar.Restake.{
  Request, Mature, build_restake, build_restake_all, mature_jars, mature_jar, add_mature,
  new_deposit, withdrawal_of, mul_div_ceil, clean_up_partitions, clean_up_and_deposit, restake,
  restake_all,
}
use sweat_jar.Keeper.Restaking.{restake_internal-IsKept}
use sweat_jar.Invariant.{IsContract, get_account-IsAccount}
use sweat_jar.Held.Slots.{Avoids, put_jar_other}
use sweat_jar.Held.{IsHeldIn, IsHeld, holder, deposit-IsHeldIn, read-IsHeldAt, write-IsHeld}

pub unlocked_lem : (jar : Jar) {u : Unit {0}} → assert_not_locked jar ≡ ok u → jar.is_locked ≢ true
unfolding assert_not_locked
unlocked_lem jar h locked =
    let free = require-eq-ok (not jar.is_locked) jar_is_locked h in ground arith

module _ (id product_id : String) (front : List Deposit) where
  -- A request of another account, or one that leaves the product's jar alone.
  abbrev pub IsApart : Request → Type 0
  IsApart r = r.account_id ≡ id → Avoids product_id r.partitions

  pub clean_up_partitions-IsHeldIn :
      (partitions : List (String × ℕ)) (a : Account)
      → Avoids product_id partitions
      → IsHeldIn product_id front a
      → Ensures (IsHeldIn product_id front) (clean_up_partitions a partitions)
  unfolding clean_up_partitions
  clean_up_partitions-IsHeldIn [] a apart held = returns a held
  clean_up_partitions-IsHeldIn ((j, n) ∷ rest) a (other, apart) held =
      after (get_jar a j) _ λ jar _. after (clean_up_deposits jar n) _ λ jar' _.
        clean_up_partitions-IsHeldIn rest _ apart
          (put_jar_other product_id front a j jar' other held)

  pub clean_up_and_deposit-IsHeld :
      (c : Contract) (r : Request) (now : ℕ)
      → IsApart r
      → IsHeld id product_id front c
      → Ensures (IsHeld id product_id front) (clean_up_and_deposit c r now)
  unfolding clean_up_and_deposit
  clean_up_and_deposit-IsHeld c r now apart h = after (get_account c r.account_id) _ λ a ha.
      given _
        (under (clean_up_partitions a r.partitions) (λ same.
          clean_up_partitions-IsHeldIn r.partitions a (apart same)
            (read-IsHeldAt now id product_id front c r.account_id h ha same)))
        λ a' ha'.
          after (add_u32 (Account.deposit a' r.deposit.product_id r.deposit.amount now).nonce 1) _
            λ nonce _. returns _ (
              write-IsHeld now id product_id front c r.account_id _ h (λ same.
                deposit-IsHeldIn product_id front a' r.deposit.product_id r.deposit.amount now
                  (ha' same)))

  -- The jar of a held product is locked wherever it is found.
  pub held_locked :
      (c : Contract) (k : String) {a : Account} {jar : Jar}
      → IsHeld id product_id front c
      → get_account c k ≡ ok a
      → k ≡ id
      → lookup product_id a.jars ≡ some jar
      → jar.is_locked ≡ true
  held_locked c k {a} {jar} h ha same found =
      let (jar0, listed, (locked, _)) = read-IsHeldAt 0 id product_id front c k h ha same in
      let z : jar0 ≡ jar = some-injective _ _ (sym listed ∙ found) in
      sym (ap (λ j. j.is_locked) z) ∙ locked

  pub build_restake-IsApart :
      (env : Env) (c : Contract) (from : String) (ticket : DepositTicket) (target : Option ℕ)
      → IsHeld id product_id front c
      → Ensures IsApart (build_restake env c from ticket target)
  unfolding build_restake get_jar
  build_restake-IsApart env c from ticket target h = after (get_account c env.predecessor) _ λ a ha.
      after (get_jar a from) _ λ jar hj. after (assert_not_locked jar) _ λ _ free.
        after (get_product c from) _ λ p _.
          after (get_liquid_balance jar p.terms env.now) _ λ balance _.
            after (new_deposit ticket.product_id balance.0 target) _ λ deposit _.
              after (sub_checked balance.0 deposit.amount) _ λ amount _.
                after (withdrawal_of amount (calculate_fee p amount)) _ λ withdrawal _.
                  returns _ (λ same. (
                    (λ is. unlocked_lem jar free (
                        held_locked c env.predecessor h ha same (
                          ap (λ key. lookup key a.jars) (sym is)
                          ∙ or_panic-eq-ok (lookup from a.jars) jar_not_found hj))),
                    tt,
                  ))

  add_mature-Avoids :
      (p : Product) (k : String) (m : Mature) (b : ℕ × ℕ)
      → k ≢ product_id
      → Avoids product_id m.indices
      → Ensures (λ m'. Avoids product_id m'.indices) (add_mature p k m b)
  unfolding add_mature
  add_mature-Avoids p k m b other apart =
      on_if (ltb 0 b.0) _ _
        (after (add_u128 m.balance b.0) _ λ balance _. after (calculate_fee p b.0) _ λ f _.
          after (add_u128 m.fee f) _
            λ fee _. returns _ (All-append (λ e. e.0 ≢ product_id) m.indices _ apart (other, tt)))
        (returns _ apart)

  -- Every entry of a held product is locked, so none adds to the mature ones.
  mature_jars-Avoids :
      (env : Env) (jars : Dict Jar) (c : Contract) (m : Mature)
      → All (λ e. (e.0 ≢ product_id) ⊎ (e.1.is_locked ≡ true)) jars
      → Avoids product_id m.indices
      → Ensures (λ m'. Avoids product_id m'.indices) (mature_jars env c m jars)
  unfolding mature_jars mature_jar
  mature_jars-Avoids env [] c m hs apart = returns m apart
  mature_jars-Avoids env ((k, jar) ∷ jars) c m (inl other, hs) apart =
      given _
        (on_if jar.is_locked _ _ (returns m apart) (
          after (get_product c k) _ λ p _.
            after (get_liquid_balance jar p.terms env.now) _
              λ b _. add_mature-Avoids p k m b other apart))
        λ m' apart'. mature_jars-Avoids env jars c m' hs apart'
  mature_jars-Avoids env ((k, jar) ∷ jars) c m (inr locked, hs) apart =
      rw locked (mature_jars-Avoids env jars c m hs apart)

  entries-locked :
      (c : Contract) (k : String) (a : Account)
      → IsHeld id product_id front c
      → get_account c k ≡ ok a
      → k ≡ id
      → IsMap a.jars
      → All (λ e. (e.0 ≢ product_id) ⊎ (e.1.is_locked ≡ true)) a.jars
  entries-locked c k a h ha same unique =
      All-map
        (λ e found. elim (Bool-cases (str_eq e.0 product_id)) [
          | inl is ↦
              let z : e.0 ≡ product_id = (eq_iff e.0 product_id).0 is in
              inr (held_locked c k h ha same (ap (λ key. lookup key a.jars) (sym z) ∙ found))
          | inr other ↦ inl (λ z. absurd (let y = (eq_iff e.0 product_id).1 z in cc))
        ])
        a.jars (IsMap-entries a.jars unique)

  pub build_restake_all-IsApart :
      (env : Env) (c : Contract) (ticket : DepositTicket) (target : Option ℕ)
      → IsContract env.now c
      → IsHeld id product_id front c
      → Ensures IsApart (build_restake_all env c ticket target)
  unfolding build_restake_all
  build_restake_all-IsApart env c ticket target hc h =
      after (get_account c env.predecessor) _ λ a ha.
        let unique = (outcome _ (get_account-IsAccount env.now c env.predecessor hc) ha).0 in
        given _
          (under (mature_jars env c (record { balance = 0; fee = 0; indices = [] }) a.jars) (λ same.
            mature_jars-Avoids env a.jars c _ (entries-locked c env.predecessor a h ha same unique)
              tt))
          λ m apart. after (new_deposit ticket.product_id m.balance target) _ λ deposit _.
            after (sub_checked m.balance deposit.amount) _ λ amount _.
              after (withdrawal_of amount (ok (mul_div_ceil m.fee amount m.balance))) _
                λ withdrawal _. returns _ apart

  pub restake-IsHeld :
      (env : Env) (c : Contract) (from : String) (ticket : DepositTicket)
      (signature : Option (List ℕ)) (amount : Option ℕ)
      → IsHeld id product_id front c
      → Ensures (λ r. IsHeld id product_id front r.0) (restake env c from ticket signature amount)
  unfolding restake
  restake-IsHeld env c from ticket signature amount h =
      restake_internal-IsKept env (holder env.now id product_id front) IsApart _ (λ _ h'. h')
        (λ c' r apart _ hc. clean_up_and_deposit-IsHeld c' r env.now apart hc) c ticket signature
        (build_restake env c from ticket amount) (build_restake-IsApart env c from ticket amount h)
        h

  pub restake_all-IsHeld :
      (env : Env) (c : Contract) (ticket : DepositTicket) (signature : Option (List ℕ))
      (amount : Option ℕ)
      → IsContract env.now c
      → IsHeld id product_id front c
      → Ensures (λ r. IsHeld id product_id front r.0) (restake_all env c ticket signature amount)
  unfolding restake_all
  restake_all-IsHeld env c ticket signature amount hc h =
      restake_internal-IsKept env (holder env.now id product_id front) IsApart _ (λ _ h'. h')
        (λ c' r apart _ hr. clean_up_and_deposit-IsHeld c' r env.now apart hr) c ticket signature
        (build_restake_all env c ticket amount) (build_restake_all-IsApart env c ticket amount hc h)
        h
