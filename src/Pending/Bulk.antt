-- ===== src/Pending/Bulk.antt =====
-- What a withdrawal from several jars leaves pending (contract/src/feature/withdraw/api.rs, `withdraw_all`).
use sweat_jar.Base.{
  ◌+◌, ◌≤◌, ◌≡◌, ◌≢◌, refl, sym, ap, ◌∙◌, ◌⊎◌, true, false, inl, inr, subst, Option, some, List, [],
  ◌∷◌, ◌++◌, ok, arith, String, All, length, take, or_panic-eq-ok, jar_not_found,
}
use sweat_jar.Base.Dict.{lookup, lookup-insert_self}
use sweat_jar.Base.Ensures.{Ensures, returns, on_if_eq, after, given, outcome}
use sweat_jar.Product.{calculate_fee}
use sweat_jar.Jar.{Deposit, Jar, get_liquid_balance}
use sweat_jar.Jar.Liquid.{principal_sum, get_liquid_balance_lem}
use sweat_jar.Account.{Account, get_jar}
use sweat_jar.Contract.{Env, Contract, get_account, put_account, get_product, assert_gas}
use sweat_jar.Settle.{update_account_cache}
use sweat_jar.Claim.{gas_for_ft_transfer}
use sweat_jar.Withdraw.{
  WithdrawalRequest, request_for, collect_requests, listed_or_all, total_net_amount,
  transfer_bulk_withdraw, withdraw_all, gas_for_bulk_after_withdraw,
}
use sweat_jar.Catalog.Own.{IsOwn, cataloguer}
use sweat_jar.Keeper.Settling.{update_account_cache-IsKept}
use sweat_jar.Invariant.{IsContract, sound, get_account-IsAccount}
use sweat_jar.World.{after_bulk_withdraw_due}
use sweat_jar.Book.{jar_page}
use sweat_jar.Held.{IsHeld, holder}
use sweat_jar.Held.Slots.{Avoids, request_slots}
use sweat_jar.Held.Restakes.{held_locked}
use sweat_jar.Ledger.Partitions.{covered, IsListed-all}
use sweat_jar.Ledger.Pages.{IsSame}
use sweat_jar.Ledger.Due.{requested, counted_of}
use sweat_jar.Pending.{IsNewPromise}
use sweat_jar.Pending.Locks.{IsReady, lock_requested-IsReady, ready-IsCounted}
use sweat_jar.Pending.Catalogue.{IsCollected, IsUnique, IsUniqueList, listed-IsUnique}

module _ (env : Env) (c : Contract) (own : IsOwn c) (a : Account) where
  -- One jar's request.
  abbrev IsRequestOf : String → WithdrawalRequest → Type 0
  IsRequestOf id r =
      (r.product_id ≡ id)
      × (r.withdrawal.amount ≡ principal_sum (take r.partition_index (jar_page (lookup id a.jars))))
      × (r.partition_index ≤ length (jar_page (lookup id a.jars)))

  request_for-IsRequestOf :
      (id : String) {jar : Jar}
      → get_jar a id ≡ ok jar
      → Ensures (IsRequestOf id) (request_for env c jar id)
  unfolding request_for get_jar jar_page
  request_for-IsRequestOf id {jar} hj = after (get_product c id) _ λ p hp.
      after (get_liquid_balance jar p.terms env.now) _ λ b hb.
        after (calculate_fee p b.0) _ λ fee _.
          let page = ap jar_page (or_panic-eq-ok (lookup id a.jars) jar_not_found hj) in
          let (sum, bound) = get_liquid_balance_lem jar p.terms env.now hb in
          returns _ (
            own id p hp,
            sum ∙ ap (λ ds. principal_sum (take b.1 ds)) (sym page),
            omega (arith, bound, ap length page),
          )

  add_request :
      (id : String) (ids : List String) (r : WithdrawalRequest) (rs : List WithdrawalRequest)
      {jar : Jar}
      → get_jar a id ≡ ok jar
      → jar.is_locked ≡ false
      → All (λ j. j ≢ id) ids
      → IsRequestOf id r
      → IsCollected a ids rs
      → IsCollected a (id ∷ ids) (r ∷ rs)
  unfolding covered get_jar
  add_request id ids r rs {jar} hj unlocked others (product, amount, bound)
        (distinct, sum, bounds, free, fresh) =
      let page : jar_page (lookup r.product_id a.jars) ≡ jar_page (lookup id a.jars) =
        ap (λ j. jar_page (lookup j a.jars)) product in
      let n = r.partition_index in
      (
        (rw product (fresh id others), distinct),
        omega (arith, sum, amount, ap (λ ds. principal_sum (take n ds)) page),
        (omega (arith, bound, ap length page), bounds),
        (
          (
            jar,
            ap (λ j. lookup j a.jars) product ∙ or_panic-eq-ok (lookup id a.jars) jar_not_found hj,
            unlocked,
          ),
          free,
        ),
        λ x (other, rest). ((λ is. other (sym product ∙ is)), fresh x rest),
      )

  skip_request :
      (id : String) (ids : List String) (rs : List WithdrawalRequest)
      → IsCollected a ids rs
      → IsCollected a (id ∷ ids) rs
  skip_request id ids rs (distinct, sum, bounds, free, fresh) =
      (distinct, sum, bounds, free, λ x (_, rest). fresh x rest)

  -- What one step of the loop adds.
  abbrev IsRest : String → Jar → List WithdrawalRequest → Type 0
  IsRest id jar rest =
      (rest ≡ [])
      ⊎ ((r : WithdrawalRequest) × (rest ≡ r ∷ []) × (jar.is_locked ≡ false) × IsRequestOf id r)

  collect_requests-IsCollected :
      (ids : List String)
      → IsUnique ids
      → Ensures (IsCollected a ids) (collect_requests env c a ids)
  unfolding collect_requests covered
  collect_requests-IsCollected [] unique = returns [] (tt, refl, tt, tt, λ x h. tt)
  collect_requests-IsCollected (id ∷ ids) (others, unique) = after (get_jar a id) _ λ jar hj.
      given _
        (on_if_eq {Q = IsRest id jar} jar.is_locked _ _ (λ _. returns [] (inl refl))
          (λ unlocked.
            given _ (request_for-IsRequestOf id hj)
              λ r hr. returns _ (inr (r, refl, unlocked, hr))))
        λ rest hrest. given _ (collect_requests-IsCollected ids unique) λ more h.
          returns _ (elim hrest [
            | inl none_made ↦
                subst (λ l. IsCollected a (id ∷ ids) (l ++ more)) (sym none_made)
                  (skip_request id ids more h)
            | inr (r, one, unlocked, hr) ↦
                subst (λ l. IsCollected a (id ∷ ids) (l ++ more)) (sym one)
                  (add_request id ids r more hj unlocked others hr h)
          ])

  collected-fresh :
      (rs : List WithdrawalRequest) (id p : String) (front : List Deposit)
      → IsHeld id p front c
      → get_account c env.predecessor ≡ ok a
      → All
          (λ r. (jar : Jar) × (lookup r.product_id a.jars ≡ some jar) × (jar.is_locked ≡ false))
          rs
      → env.predecessor ≡ id
      → Avoids p (request_slots rs)
  collected-fresh [] id p front held ha free same = tt
  collected-fresh (r ∷ rs) id p front held ha ((jar, found, unlocked), free) same = (
    λ is.
        let locked =
          held_locked id p front c env.predecessor held ha same
            (ap (λ key. lookup key a.jars) (sym is) ∙ found) in
        absurd (let e : true ≡ false = sym locked ∙ unlocked in cc),
    collected-fresh rs id p front held ha free same,
  )

  bulk-IsNew :
      (c0 : Contract) (ids : List String) (rs : List WithdrawalRequest)
      → ((id p : String) (front : List Deposit) → IsHeld id p front c0 → IsHeld id p front c)
      → get_account c env.predecessor ≡ ok a
      → IsCollected a ids rs
      → (b : Account) → IsSame a b
      → IsReady (request_slots rs) b
      → Ensures
          (IsNewPromise after_bulk_withdraw_due c0)
          (transfer_bulk_withdraw env (put_account c env.predecessor b) env.predecessor rs)
  unfolding transfer_bulk_withdraw put_account counted_of
  bulk-IsNew c0 ids [] carried ha h b same ready = returns _ tt
  bulk-IsNew c0 ids (r ∷ rs) carried ha (distinct, sum, bounds, free, _) b same ready =
      let id = env.predecessor in
      let pages : String → List Deposit = λ j. jar_page (lookup j a.jars) in
      after (assert_gas env (gas_for_ft_transfer + gas_for_bulk_after_withdraw)) _ λ _ _.
        after (total_net_amount (r ∷ rs)) _ λ net _. returns _ (
          (
            distinct,
            ready-IsCounted pages (put_account c id b) id b (request_slots (r ∷ rs))
                (requested (r ∷ rs)) (lookup-insert_self id b c.accounts)
                (IsListed-all pages (request_slots (r ∷ rs)) b same.0) bounds sum ready,
          ),
          λ owner p front held.
              collected-fresh (r ∷ rs) owner p front (carried owner p front held) ha free,
        )

pub withdraw_all-IsNew :
    (env : Env) (c : Contract) (ids : Option (List String))
    → IsContract env.now c
    → IsOwn c
    → IsUniqueList ids
    → Ensures (IsNewPromise after_bulk_withdraw_due c) (withdraw_all env c ids)
unfolding withdraw_all
withdraw_all-IsNew env c ids hc own unique =
    after (update_account_cache c env.predecessor env.now) _ λ c1 hs.
      after (get_account c1 env.predecessor) _ λ a ha.
        let sound1 =
          outcome _ (update_account_cache-IsKept (sound env.now) c env.predecessor hc) hs in
        let own1 =
          outcome _ (update_account_cache-IsKept (cataloguer env.now) c env.predecessor own) hs in
        let map = (outcome _ (get_account-IsAccount env.now c1 env.predecessor sound1) ha).0 in
        given _
          (collect_requests-IsCollected env c1 own1 a (listed_or_all ids a)
            (listed-IsUnique ids a map unique))
          λ rs collected. given _ (lock_requested-IsReady rs [] a tt) λ b (same, ready, _).
            bulk-IsNew env c1 own1 a c (listed_or_all ids a) rs
              (λ id p front held.
                outcome _
                  (update_account_cache-IsKept (holder env.now id p front) c env.predecessor held)
                  hs)
              ha collected b same ready
