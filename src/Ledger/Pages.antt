-- ===== src/Ledger/Pages.antt =====
-- The parts of the callbacks that change no deposits (contract/src/feature, model/src/data/account/common.rs).
use sweat_jar.Base.{
  ℕ, ◌+◌, ◌≡◌, refl, sym, ap, ◌∙◌, true, Bool-cases, inl, inr, Option, none, some, List, [], ◌∷◌,
  ok, arith, String, str_eq, eq_iff, All, or_panic, or_panic-eq-ok, jar_not_found,
}
use sweat_jar.Base.Dict.{
  Dict, lookup, insert, remove, IsMap, lookup-insert, lookup-remove, insert-IsMap, remove-IsMap,
}
use sweat_jar.Base.Sums.{value_of, sum_of-remove}
use sweat_jar.Base.Ensures.{Ensures, returns, after, given, weaken}
use sweat_jar.Jar.{Deposit, Jar, JarCompanion, should_close, has_no_deposits}
use sweat_jar.Jar
use sweat_jar.Jar.Liquid.{principal_sum}
use sweat_jar.Account.{Account, AccountCompanion, get_jar, put_jar, apply_jars, apply_companions}
use sweat_jar.Account
use sweat_jar.Claim.{release_jar, unlock_claimed}
use sweat_jar.Withdraw.{WithdrawalRequest, unlock_requested}
use sweat_jar.Restake.{unlock_partitions}
use sweat_jar.Book.{jar_page}
use sweat_jar.Ledger.{account_principal, jar_principal, put_jar-principal, get_jar-principal}

-- The same deposits under every product.
abbrev pub IsSame : Account → Account → Type 0
IsSame a b =
    ((id : String) → jar_page (lookup id b.jars) ≡ jar_page (lookup id a.jars))
    × (account_principal b ≡ account_principal a)
    × (IsMap a.jars → IsMap b.jars)

pub IsSame-trans : (a b c : Account) → IsSame a b → IsSame b c → IsSame a c
IsSame-trans a b c (p, s, m) (p', s', m') = (λ id. p' id ∙ p id, s' ∙ s, λ h. m' (m h))

pub put_jar-IsSame :
    (a : Account) (id : String) {jar : Jar} (jar' : Jar)
    → get_jar a id ≡ ok jar
    → jar'.deposits ≡ jar.deposits
    → IsSame a (put_jar a id jar')
unfolding get_jar jar_page jar_principal put_jar
put_jar-IsSame a id {jar} jar' e same = (
  λ j. elim (Bool-cases (str_eq id j)) [
    | inl is ↦
        let z : id ≡ j = (eq_iff id j).0 is in
        let found : lookup j a.jars ≡ some jar =
          ap (λ k. lookup k a.jars) (sym z) ∙ or_panic-eq-ok (lookup id a.jars) jar_not_found e in
        rw (lookup-insert id j jar' a.jars, is) (same ∙ ap jar_page (sym found))
    | inr other ↦ rw (lookup-insert id j jar' a.jars, other) refl
  ],
  omega (arith, put_jar-principal a id jar', get_jar-principal a id e, ap principal_sum same),
  insert-IsMap id jar' a.jars,
)

pub should_close-no_deposits : (jar : Jar) → should_close jar ≡ true → jar.deposits ≡ []
unfolding should_close has_no_deposits
should_close-no_deposits jar h = none_left jar.deposits (ground arith)
  where
    none_left : (ds : List Deposit) → has_no_deposits ds ≡ true → ds ≡ []
    none_left [] e = refl
    none_left (_ ∷ _) e = cc

-- A jar that is closed held nothing.
pub closed-principal :
    (a : Account) (id : String)
    → IsMap a.jars
    → account_principal (record a { jars = remove id a.jars })
        + value_of jar_principal (lookup id a.jars)
      ≡ account_principal a
unfolding account_principal
closed-principal a id unique = sum_of-remove jar_principal id a.jars unique

release_jar-IsSame :
    (a : Account) (id : String) {jar : Jar}
    → IsMap a.jars
    → get_jar a id ≡ ok jar
    → IsSame a (release_jar a id (Jar.unlock jar))
unfolding release_jar Jar.unlock jar_page jar_principal get_jar principal_sum
release_jar-IsSame a id {jar} unique e = elim (Bool-cases (should_close (Jar.unlock jar))) [
  | inl closes ↦
      let empty : jar.deposits ≡ [] = should_close-no_deposits (Jar.unlock jar) closes in
      let found = or_panic-eq-ok (lookup id a.jars) jar_not_found e in
      let zero : jar_principal jar ≡ 0 = ap principal_sum empty in
      rw closes (
        λ j. elim (Bool-cases (str_eq id j)) [
          | inl is ↦
              let z : id ≡ j = (eq_iff id j).0 is in
              let listed : lookup j a.jars ≡ some jar = ap (λ k. lookup k a.jars) (sym z) ∙ found in
              rw (lookup-remove id j a.jars, is) (sym (ap jar_page listed ∙ empty))
          | inr other ↦ rw (lookup-remove id j a.jars, other) refl
        ],
        omega (arith, closed-principal a id unique, get_jar-principal a id e, zero),
        remove-IsMap id a.jars,
      )
  | inr stays ↦ rw stays (put_jar-IsSame a id (Jar.unlock jar) e refl)
]

pub unlock_claimed-IsSame :
    (jars : Dict JarCompanion) (a : Account)
    → IsMap a.jars
    → Ensures (IsSame a) (unlock_claimed a jars)
unfolding unlock_claimed
unlock_claimed-IsSame [] a unique = returns a (λ _. refl, refl, λ h. h)
unlock_claimed-IsSame ((id, _) ∷ jars) a unique = after (get_jar a id) _ λ jar e.
    let a' = release_jar a id (Jar.unlock jar) in
    let same = release_jar-IsSame a id unique e in
    weaken (λ b h. IsSame-trans a a' b same h) (unlock_claimed-IsSame jars a' (same.2 unique))

pub unlock_requested-IsSame :
    (rs : List WithdrawalRequest) (a : Account) → Ensures (IsSame a) (unlock_requested a rs)
unfolding unlock_requested Jar.unlock
unlock_requested-IsSame [] a = returns a (λ _. refl, refl, λ h. h)
unlock_requested-IsSame (r ∷ rs) a = after (get_jar a r.product_id) _ λ jar e.
    let a' = put_jar a r.product_id (Jar.unlock jar) in
    weaken (λ b h. IsSame-trans a a' b (put_jar-IsSame a r.product_id (Jar.unlock jar) e refl) h)
      (unlock_requested-IsSame rs a')

pub unlock_partitions-IsSame :
    (ps : List (String × ℕ)) (a : Account) → Ensures (IsSame a) (unlock_partitions a ps)
unfolding unlock_partitions Jar.unlock
unlock_partitions-IsSame [] a = returns a (λ _. refl, refl, λ h. h)
unlock_partitions-IsSame ((id, _) ∷ ps) a = after (get_jar a id) _ λ jar e.
    let a' = put_jar a id (Jar.unlock jar) in
    weaken (λ b h. IsSame-trans a a' b (put_jar-IsSame a id (Jar.unlock jar) e refl) h)
      (unlock_partitions-IsSame ps a')

-- A change that writes no deposits.
abbrev pub IsTame : Option (Dict JarCompanion) → Type 0
IsTame none = Unit
IsTame (some changes) = All (λ e. e.1.new_deposits ≡ none) changes

apply_jars-IsSame :
    (changes : Dict JarCompanion) (a : Account) (jars : Dict Jar)
    → IsTame (some changes)
    → Ensures
        (λ jars'. IsSame (record a { jars = jars }) (record a { jars = jars' }))
        (apply_jars jars changes)
unfolding apply_jars get_jar put_jar Jar.apply Jar.or_keep
apply_jars-IsSame [] a jars tame = returns jars (λ _. refl, refl, λ h. h)
apply_jars-IsSame ((id, change) ∷ changes) a jars (no_deposits, tame) =
    after (or_panic (lookup id jars) jar_not_found) _ λ jar e.
      let a0 = record a { jars = jars } in
      let jar' = Jar.apply jar change in
      let same : jar'.deposits ≡ jar.deposits = ap (λ o. Jar.or_keep o jar.deposits) no_deposits in
      weaken
        (λ jars' h.
          IsSame-trans a0 (put_jar a0 id jar') (record a { jars = jars' })
            (put_jar-IsSame a0 id jar' e same) h)
        (apply_jars-IsSame changes a (insert id jar' jars) tame)

pub apply-IsSame :
    (r : AccountCompanion) (a : Account)
    → IsTame r.new_jars
    → Ensures (IsSame a) (Account.apply a r)
unfolding Account.apply apply_companions account_principal
apply-IsSame r a tame =
    given _ (changed r.new_jars tame) λ jars (pages, sum, unique). returns _ (pages, sum, unique)
  where
    changed :
        (o : Option (Dict JarCompanion))
        → IsTame o
        → Ensures (λ jars. IsSame a (record a { jars = jars })) (apply_companions a.jars o)
    changed none tame = returns _ (λ _. refl, refl, λ h. h)
    changed (some changes) tame = apply_jars-IsSame changes a a.jars tame
