-- ===== src/Ledger/Mature.antt =====
-- The requests of a restake against the deposits they take (contract/src/feature/restake/api, the builders).
use sweat_jar.Base.{
  ℕ, ◌+◌, ◌≡◌, ◌≢◌, refl, sym, ap, ◌∙◌, ltb, Bool-cases, inl, inr, Option, none, List, [], ◌∷◌,
  ◌++◌, Result, ok, arith, String, str_eq, eq_iff, All, All-map, All-append, add_u128,
  add_u128-eq-ok, sub_checked, sub_checked-eq-ok, or_panic-eq-ok, jar_not_found, account_not_found,
  take, length, ◌≤◌,
}
use sweat_jar.Base.Dict.{Dict, lookup, IsMap, IsMap-entries}
use sweat_jar.Base.Ensures.{Ensures, returns, on_if, after, given, outcome}
use sweat_jar.Product.{Product, calculate_fee}
use sweat_jar.Jar.{Deposit, Jar, assert_not_locked, get_liquid_balance}
use sweat_jar.Jar.Liquid.{principal_sum, get_liquid_balance_lem}
use sweat_jar.Account.{Account, get_jar}
use sweat_jar.Contract.{Env, Contract, get_account, get_product}
use sweat_jar.Deposits.{DepositTicket}
use sweat_jar.Restake.{
  Request, Mature, build_restake, build_restake_all, mature_jars, mature_jar, add_mature,
  new_deposit, withdrawal_of, mul_div_ceil,
}
use sweat_jar.Restake.Fee.{payout}
use sweat_jar.Invariant.{IsContract, get_account-IsAccount}
use sweat_jar.Book.{jar_page, account_page, book}
use sweat_jar.Ledger.Partitions.{covered, IsBounded, IsDistinct}

-- The request takes deposits of the account that make up the new deposit and the amount paid out.
abbrev pub IsBalanced : (String → List Deposit) → Request → Type 0
IsBalanced pages r =
    IsDistinct r.partitions
    × (covered pages r.partitions ≡ r.deposit.amount + payout r.withdrawal)
    × IsBounded pages r.partitions

withdrawal_of-payout :
    (amount : ℕ) (fee : Result ℕ) → Ensures (λ w. payout w ≡ amount) (withdrawal_of amount fee)
unfolding withdrawal_of payout
withdrawal_of-payout amount fee = elim (Bool-cases (ltb 0 amount)) [
  | inl more ↦ rw more (after fee _ λ f _. returns _ refl)
  | inr nothing ↦ rw nothing (returns _ (ground arith))
]

pub page_of :
    (c : Contract) (id : String) {a : Account} (j : String)
    → get_account c id ≡ ok a
    → book c id j ≡ jar_page (lookup j a.jars)
unfolding get_account book account_page
page_of c id j e =
    ap (λ o. account_page o j) (or_panic-eq-ok (lookup id c.accounts) account_not_found e)

pub build_restake-IsBalanced :
    (env : Env) (c : Contract) (from : String) (ticket : DepositTicket) (target : Option ℕ)
    → Ensures (λ r. IsBalanced (book c r.account_id) r) (build_restake env c from ticket target)
unfolding build_restake get_jar covered jar_page
build_restake-IsBalanced env c from ticket target = after (get_account c env.predecessor) _ λ a ha.
    after (get_jar a from) _ λ jar hj. after (assert_not_locked jar) _ λ _ _.
      after (get_product c from) _ λ p _.
        after (get_liquid_balance jar p.terms env.now) _ λ balance hb.
          after (new_deposit ticket.product_id balance.0 target) _ λ deposit _.
            after (sub_checked balance.0 deposit.amount) _ λ amount hs.
              given _ (withdrawal_of-payout amount (calculate_fee p amount)) λ withdrawal paid.
                let page =
                  page_of c env.predecessor from ha
                  ∙ ap jar_page (or_panic-eq-ok (lookup from a.jars) jar_not_found hj) in
                returns _ (
                  (tt, tt),
                  omega (
                    arith,
                    paid,
                    sub_checked-eq-ok balance.0 deposit.amount hs,
                    (get_liquid_balance_lem jar p.terms env.now hb).0,
                    ap (λ ds. principal_sum (take balance.1 ds)) page,
                  ),
                  (
                    omega
                        (arith, ap length page, (get_liquid_balance_lem jar p.terms env.now hb).1),
                    tt,
                  ),
                )

-- The scan of an account's jars, with the jars that are left to scan: what it has added up is what its
-- partitions cover, and none of them is of a jar that is left.
abbrev IsScanned : (String → List Deposit) → Dict Jar → Mature → Type 0
IsScanned pages jars m =
    IsDistinct m.indices
    × (covered pages m.indices ≡ m.balance)
    × IsBounded pages m.indices
    × All (λ e. lookup e.0 jars ≡ none) m.indices

covered-append :
    (pages : String → List Deposit) (ps : List (String × ℕ)) (id : String) (n : ℕ)
    → covered pages (ps ++ (id, n) ∷ []) ≡ covered pages ps + principal_sum (take n (pages id))
unfolding covered
covered-append pages [] id n = omega arith
covered-append pages ((k, m) ∷ ps) id n = omega (arith, covered-append pages ps id n)

append-IsDistinct :
    (ps : List (String × ℕ)) (id : String) (n : ℕ)
    → IsDistinct ps
    → All (λ e. e.0 ≢ id) ps
    → IsDistinct (ps ++ (id, n) ∷ [])
append-IsDistinct [] id n distinct others = (tt, tt)
append-IsDistinct ((k, m) ∷ ps) id n (unlike, distinct) (other, others) = (
  All-append (λ e. e.0 ≢ k) ps ((id, n) ∷ []) unlike ((λ same. other (sym same)), tt),
  append-IsDistinct ps id n distinct others,
)

-- A product that is not left to scan is not the next one.
left_behind :
    (jar : Jar) (id j : String) (jars : Dict Jar)
    → lookup j ((id, jar) ∷ jars) ≡ none
    → (j ≢ id) × (lookup j jars ≡ none)
unfolding lookup
left_behind jar id j jars h = elim (Bool-cases (str_eq id j)) [
  | inl same ↦ absurd (let e = rw same at h in cc)
  | inr other ↦ ((λ z. absurd (let y = (eq_iff id j).1 (sym z) in cc)), rw other at h)
]

leave-IsScanned :
    (pages : String → List Deposit) (id : String) (jar : Jar) (jars : Dict Jar) (m : Mature)
    → IsScanned pages ((id, jar) ∷ jars) m
    → IsScanned pages jars m
leave-IsScanned pages id jar jars m (distinct, sum, bounds, left) =
    (distinct, sum, bounds, All-map (λ e h. (left_behind jar id e.0 jars h).1) m.indices left)

add_mature-IsScanned :
    (pages : String → List Deposit) (p : Product) (id : String) (jar : Jar) (jars : Dict Jar)
    (m : Mature) (b : ℕ × ℕ)
    → lookup id jars ≡ none
    → (b.0 ≡ principal_sum (take b.1 (pages id))) × (b.1 ≤ length (pages id))
    → IsScanned pages ((id, jar) ∷ jars) m
    → Ensures (IsScanned pages jars) (add_mature p id m b)
unfolding add_mature
add_mature-IsScanned pages p id jar jars m b new cover h =
    let (distinct, sum, bounds, left) = leave-IsScanned pages id jar jars m h in
    on_if (ltb 0 b.0) _ _
      (after (add_u128 m.balance b.0) _ λ balance hb. after (calculate_fee p b.0) _ λ f _.
        after (add_u128 m.fee f) _ λ fee _. returns _ (
          append-IsDistinct m.indices id b.1 distinct
              (All-map (λ e e_left. (left_behind jar id e.0 jars e_left).0) m.indices h.3),
          omega (
            arith,
            covered-append pages m.indices id b.1,
            sum,
            cover.0,
            add_u128-eq-ok m.balance b.0 hb,
          ),
          All-append (λ e. e.1 ≤ length (pages e.0)) m.indices ((id, b.1) ∷ []) bounds
              (cover.1, tt),
          All-append (λ e. lookup e.0 jars ≡ none) m.indices ((id, b.1) ∷ []) left (new, tt),
        ))
      (returns _ (distinct, sum, bounds, left))

mature_jars-IsScanned :
    (pages : String → List Deposit) (env : Env) (c : Contract) (jars : Dict Jar) (m : Mature)
    → IsMap jars
    → All (λ e. e.1.deposits ≡ pages e.0) jars
    → IsScanned pages jars m
    → Ensures
        (λ m'.
          IsDistinct m'.indices
          × (covered pages m'.indices ≡ m'.balance)
          × IsBounded pages m'.indices)
        (mature_jars env c m jars)
unfolding mature_jars mature_jar
mature_jars-IsScanned pages env c [] m unique same (distinct, sum, bounds, _) =
    returns m (distinct, sum, bounds)
mature_jars-IsScanned pages env c ((id, jar) ∷ jars) m (new, unique) (deposits, same) h =
    given _
      (on_if jar.is_locked _ _ (returns m (leave-IsScanned pages id jar jars m h)) (
        after (get_product c id) _ λ p _. after (get_liquid_balance jar p.terms env.now) _ λ b hb.
          add_mature-IsScanned pages p id jar jars m b new
            (
              (get_liquid_balance_lem jar p.terms env.now hb).0
                  ∙ ap (λ ds. principal_sum (take b.1 ds)) deposits,
              omega (arith, ap length deposits, (get_liquid_balance_lem jar p.terms env.now hb).1),
            )
            h))
      λ m' h'. mature_jars-IsScanned pages env c jars m' unique same h'

pub build_restake_all-IsBalanced :
    (env : Env) (c : Contract) (ticket : DepositTicket) (target : Option ℕ)
    → IsContract env.now c
    → Ensures (λ r. IsBalanced (book c r.account_id) r) (build_restake_all env c ticket target)
unfolding build_restake_all jar_page
build_restake_all-IsBalanced env c ticket target hc =
    after (get_account c env.predecessor) _ λ a ha.
      let start : Mature = record { balance = 0; fee = 0; indices = [] } in
      let unique = (outcome _ (get_account-IsAccount env.now c env.predecessor hc) ha).0 in
      given _
        (mature_jars-IsScanned (book c env.predecessor) env c a.jars start unique
          (All-map (λ e found. sym (page_of c env.predecessor e.0 ha ∙ ap jar_page found)) a.jars
            (IsMap-entries a.jars unique))
          (tt, unfold covered in refl, tt, tt))
        λ m (distinct, sum, bounds).
          after (new_deposit ticket.product_id m.balance target) _ λ deposit _.
            after (sub_checked m.balance deposit.amount) _ λ amount hs.
              given _ (withdrawal_of-payout amount (ok (mul_div_ceil m.fee amount m.balance)))
                λ withdrawal paid.
                  let whole : covered (book c env.predecessor) m.indices
                      ≡ deposit.amount + payout withdrawal =
                    omega (arith, sum, paid, sub_checked-eq-ok m.balance deposit.amount hs) in
                  returns _ (distinct, whole, bounds)
