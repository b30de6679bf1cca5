-- ===== src/Deposits/Effect.antt =====
-- The writes of a deposit (contract/src/feature/account/common.rs, `deposit`).
use sweat_jar.Base.{
  ℕ, ◌+◌, ◌≡◌, refl, sym, ap, ◌∙◌, subst, Bool, true, false, if◌then◌else◌, Option, none, some,
  List, [], ◌∷◌, ◌++◌, ok, >>=-eq-ok, ok-injective, or_panic-eq-ok, some-injective, arith, String,
  add_u32, fits, jar_not_found,
}
use sweat_jar.Base.Dict.{Dict, lookup, insert, lookup-insert_self}
use sweat_jar.Time.{Timezone, is_valid}
use sweat_jar.Product.{Product, assert_enabled, assert_cap, is_score_based}
use sweat_jar.Jar.{Jar, Deposit, push_deposit}
use sweat_jar.Jar
use sweat_jar.Account.{
  Account, get_jar, put_jar, jar_or_default, try_set_timezone, timezone_or_panic,
}
use sweat_jar.Account
use sweat_jar.Interest.{get_jar_interest}
use sweat_jar.Contract.{
  Env, Contract, to_deposit, get_product, get_account, put_account, get_or_create_account,
  cache_jar,
}
use sweat_jar.Oracle.Flags.{get_account-put_account}
use sweat_jar.Deposits.{DepositTicket, verify, timezone_for, write_deposit, deposit}

-- All but the timezone stays.
abbrev SameButTimezone : Account → Account → Type 0
SameButTimezone a b = b ≡ record a { timezone = b.timezone }

timezone_or_panic-frame :
    (a : Account) (tz : Option Timezone) {b : Account}
    → timezone_or_panic a tz ≡ ok b
    → SameButTimezone a b
unfolding timezone_or_panic
timezone_or_panic-frame a none h = cc
timezone_or_panic-frame a (some tz) h = subst (SameButTimezone a) (ok-injective h) refl

try_frame :
    (a : Account) (tz : Option Timezone) (test : Bool) {b : Account}
    → (if test then ok a else timezone_or_panic a tz) ≡ ok b
    → SameButTimezone a b
try_frame a tz true h = subst (SameButTimezone a) (ok-injective h) refl
try_frame a tz false h = timezone_or_panic-frame a tz h

timezone_frame :
    (a : Account) (p : Product) (tz : Option Timezone) (test : Bool) {b : Account}
    → (if test then try_set_timezone a tz else ok a) ≡ ok b
    → SameButTimezone a b
unfolding try_set_timezone
timezone_frame a p tz true h = try_frame a tz (is_valid a.timezone) h
timezone_frame a p tz false h = subst (SameButTimezone a) (ok-injective h) refl

cache_jar-frame :
    (a : Account) (p : Product) (now : ℕ) (jar : Jar) {b : Account}
    → lookup p.id a.jars ≡ some jar
    → cache_jar a p now ≡ ok b
    → (b.nonce ≡ a.nonce)
      × ((jar' : Jar) × (b.jars ≡ insert p.id jar' a.jars) × (jar'.deposits ≡ jar.deposits))
unfolding cache_jar get_jar put_jar Jar.update_cache
cache_jar-frame a p now jar hj h =
    let (jar1, h1, h2) = >>=-eq-ok (get_jar a p.id) _ h in
    let (i, h3, h4) = >>=-eq-ok (get_jar_interest p.terms a jar1 now) _ h2 in
    let e = some-injective jar1 jar (sym (or_panic-eq-ok _ jar_not_found h1) ∙ hj) in
    let o = ok-injective h4 in
    (
      sym (ap (λ x. x.nonce) o),
      (Jar.update_cache jar1 i.0 i.1 now, sym (ap (λ x. x.jars) o), ap (λ j. j.deposits) e),
    )

abbrev pub deposits_under : String → Account → List Deposit
deposits_under id a = (jar_or_default (lookup id a.jars)).deposits

deposited :
    (a : Account) (id : String) (amount now : ℕ)
    → lookup id (Account.deposit a id amount now).jars
      ≡ some (push_deposit (jar_or_default (lookup id a.jars)) now amount)
unfolding Account.deposit put_jar
deposited a id amount now = lookup-insert_self id _ a.jars

under-insert :
    (id : String) (jar : Jar) (m : Dict Jar) (b : Account)
    → b.jars ≡ insert id jar m
    → deposits_under id b ≡ jar.deposits
unfolding jar_or_default
under-insert id jar m b e =
    ap (λ x. (jar_or_default (lookup id x)).deposits) e
    ∙ ap (λ o. (jar_or_default o).deposits) (lookup-insert_self id jar m)

cached_deposit :
    (a : Account) (p : Product) (amount now : ℕ) {b : Account}
    → cache_jar (Account.deposit a p.id amount now) p now ≡ ok b
    → (b.nonce ≡ a.nonce)
      × (deposits_under p.id b
          ≡ deposits_under p.id a ++ record { created_at = now; principal = amount } ∷ [])
unfolding push_deposit Account.deposit put_jar
cached_deposit a p amount now {b} h =
    let (n, (jar, e, e')) =
      cache_jar-frame (Account.deposit a p.id amount now) p now _ (deposited a p.id amount now) h in
    (n, under-insert p.id jar _ b e ∙ e')

add_one : (n : ℕ) {m : ℕ} → add_u32 n 1 ≡ ok m → m ≡ n + 1
unfolding add_u32 fits
add_one n h = ground arith

same_under :
    (id : String) (a b : Account) (nonce : ℕ)
    → SameButTimezone (record a { nonce = nonce }) b
    → (b.nonce ≡ nonce) × (deposits_under id b ≡ deposits_under id a)
same_under id a b nonce e = (ap (λ x. x.nonce) e, ap (λ x. deposits_under id x) e)

write_deposit-lem :
    (env : Env) (c : Contract) (account_id : String) (ticket : DepositTicket) (amount : ℕ)
    (p : Product) {out : Contract}
    → ticket.product_id ≡ p.id
    → write_deposit env c account_id ticket amount p ≡ ok out
    → let a = get_or_create_account c account_id env.now in
      (b : Account) × (get_account out account_id ≡ ok b)
      × (b.nonce ≡ a.nonce + 1)
      × (deposits_under p.id b
          ≡ deposits_under p.id a ++ record { created_at = env.now; principal = amount } ∷ [])
unfolding write_deposit timezone_for
write_deposit-lem env c account_id ticket amount p {out} same h =
    let a = get_or_create_account c account_id env.now in
    let (nonce, hn, h1) = >>=-eq-ok (add_u32 a.nonce 1) _ h in
    let (a1, ha, h2) =
      >>=-eq-ok (timezone_for (record a { nonce = nonce }) p ticket.timezone) _ h1 in
    let (b, hb, h3) =
      >>=-eq-ok (cache_jar (Account.deposit a1 ticket.product_id amount env.now) p env.now) _ h2 in
    let frame =
      timezone_frame (record a { nonce = nonce }) p ticket.timezone (is_score_based p.terms) ha in
    let (n1, d1) = same_under p.id a a1 nonce frame in
    let hb' : cache_jar (Account.deposit a1 p.id amount env.now) p env.now ≡ ok b =
      ap (λ id. cache_jar (Account.deposit a1 id amount env.now) p env.now) (sym same) ∙ hb in
    let (n2, d2) = cached_deposit a1 p amount env.now hb' in
    let o : put_account c account_id b ≡ out = ok-injective h3 in
    (
      b,
      ap (λ x. get_account x account_id) (sym o) ∙ get_account-put_account c account_id b,
      n2 ∙ n1 ∙ add_one a.nonce hn,
      d2 ∙ ap (λ ds. ds ++ record { created_at = env.now; principal = amount } ∷ []) d1,
    )

-- Where a deposit is accepted and the product is listed under its own id: the account (made if it
-- was not there) has the next nonce, and its jar of that product has, after the deposits it had,
-- one of the given amount made now.
pub deposit-effect :
    (env : Env) (c : Contract) (account_id : String) (ticket : DepositTicket) (amount : ℕ)
    (signature : Option (List ℕ)) {p : Product} {out : Contract}
    → get_product c ticket.product_id ≡ ok p
    → ticket.product_id ≡ p.id
    → deposit env c account_id ticket amount signature ≡ ok out
    → let a = get_or_create_account c account_id env.now in
      (b : Account) × (get_account out account_id ≡ ok b)
      × (b.nonce ≡ a.nonce + 1)
      × (deposits_under p.id b
          ≡ deposits_under p.id a ++ record { created_at = env.now; principal = amount } ∷ [])
unfolding deposit
deposit-effect env c account_id ticket amount signature {p} {out} hp same h =
    let (p', hp', h1) = >>=-eq-ok (get_product c ticket.product_id) _ h in
    let (_, _, h2) = >>=-eq-ok (assert_enabled p') _ h1 in
    let (_, _, h3) = >>=-eq-ok (assert_cap p' amount) _ h2 in
    let (_, _, h4) = >>=-eq-ok (verify env c to_deposit account_id amount ticket signature) _ h3 in
    let e : p' ≡ p = ok-injective (sym hp' ∙ hp) in
    write_deposit-lem env c account_id ticket amount p same
      (ap (λ q. write_deposit env c account_id ticket amount q) (sym e) ∙ h4)
