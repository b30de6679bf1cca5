-- ===== src/Held.antt =====
-- A jar that is locked, with the deposits that it was locked with: `withdraw` and the other calls
-- that start a transfer count on it until the transfer is resolved.
use sweat_jar.Base.{
  ℕ, ◌≡◌, ◌≢◌, refl, sym, ap, ◌∙◌, subst, true, false, Bool-cases, inl, inr, Option, none, some,
  some-injective, List, [], ◌∷◌, ◌++◌, ok, or_panic-eq-ok, String, str_eq, eq_iff,
  account_not_found, jar_not_found,
}
use mathlib.Core.List.{append_assoc}
use sweat_jar.Base.Dict.{lookup, insert, lookup-insert, lookup-insert_self, str_eq_refl}
use sweat_jar.Jar.{Deposit, Jar, push_deposit}
use sweat_jar.Account.{Account, get_jar, put_jar, jar_or_default}
use sweat_jar.Account
use sweat_jar.Contract.{
  Contract, get_account, put_account, get_or_create_account, account_or_default,
}
use sweat_jar.Keeper.{IsQuiet, Keeper}
pub mod Slots
pub mod Restakes
pub mod Calls
pub mod Callbacks
pub mod Transfers

abbrev IsHeldJar : List Deposit → Jar → Type 0
IsHeldJar front jar =
    (jar.is_locked ≡ true) × ((back : List Deposit) × (jar.deposits ≡ front ++ back))

abbrev IsHeldIn : String → List Deposit → Account → Type 0
IsHeldIn product_id front a =
    (jar : Jar) × (lookup product_id a.jars ≡ some jar) × IsHeldJar front jar

-- The account's jar of the product is locked, and its deposits begin with the given ones.
abbrev pub IsHeld : String → String → List Deposit → Contract → Type 0
IsHeld id product_id front c =
    (a : Account) × (lookup id c.accounts ≡ some a) × IsHeldIn product_id front a

module _ (product_id : String) (front : List Deposit) where
  quiet-IsHeldJar :
      (now : ℕ) (jar jar' : Jar) → IsQuiet now jar jar' → IsHeldJar front jar → IsHeldJar front jar'
  quiet-IsHeldJar now jar jar' (deposits, locks, _) (locked, (back, e)) =
      (elim locks [ inl same ↦ same ∙ locked | inr done ↦ done ], (back, deposits ∙ e))

  -- A write to a jar, under whatever key.
  pub put_jar-IsHeldIn :
      (a : Account) (j : String) (jar' : Jar)
      → ((jar : Jar) → lookup j a.jars ≡ some jar → IsHeldJar front jar → IsHeldJar front jar')
      → IsHeldIn product_id front a
      → IsHeldIn product_id front (put_jar a j jar')
  unfolding put_jar
  put_jar-IsHeldIn a j jar' keeps (jar, found, held) = elim (Bool-cases (str_eq j product_id)) [
    | inl same ↦
        let z : j ≡ product_id = (eq_iff j product_id).0 same in
        (jar', rw (lookup-insert j product_id jar' a.jars, same) refl, keeps jar (rw z found) held)
    | inr other ↦ (jar, rw (lookup-insert j product_id jar' a.jars, other) found, held)
  ]

  pub deposit-IsHeldIn :
      (a : Account) (j : String) (principal time : ℕ)
      → IsHeldIn product_id front a
      → IsHeldIn product_id front (Account.deposit a j principal time)
  unfolding Account.deposit push_deposit jar_or_default
  deposit-IsHeldIn a j principal time held =
      put_jar-IsHeldIn a j _
        (λ jar found (locked, (back, e)). rw found (
          locked,
          (back ++ new ∷ [], ap (λ ds. ds ++ new ∷ []) e ∙ append_assoc front back (new ∷ [])),
        ))
        held
    where
      new : Deposit
      new = record { created_at = time; principal = principal }

-- A held jar, whatever the writes that leave the deposits alone.
module _ (now : ℕ) (id product_id : String) (front : List Deposit) where
  -- What is kept of the account under a key: all that is asked of it is under the key `id`.
  abbrev pub IsHeldAt : String → Account → Type 0
  IsHeldAt k a = k ≡ id → IsHeldIn product_id front a

  pub read-IsHeldAt :
      (c : Contract) (k : String) {a : Account}
      → IsHeld id product_id front c
      → get_account c k ≡ ok a
      → IsHeldAt k a
  unfolding get_account
  read-IsHeldAt c k {a} (a0, found, held) e same =
      let e' : lookup k c.accounts ≡ some a =
        or_panic-eq-ok (lookup k c.accounts) account_not_found e in
      let z : a0 ≡ a =
        some-injective _ _ (sym found ∙ (ap (λ key. lookup key c.accounts) (sym same) ∙ e')) in
      subst (IsHeldIn product_id front) z held

  pub write-IsHeld :
      (c : Contract) (k : String) (a : Account)
      → IsHeld id product_id front c
      → IsHeldAt k a
      → IsHeld id product_id front (put_account c k a)
  unfolding put_account
  write-IsHeld c k a (a0, found, held) ha = elim (Bool-cases (str_eq k id)) [
    | inl same ↦
        let z : k ≡ id = (eq_iff k id).0 same in
        (a, rw (lookup-insert k id a c.accounts, same) refl, ha z)
    | inr other ↦ (a0, rw (lookup-insert k id a c.accounts, other) found, held)
  ]

  pub create-IsHeldAt :
      (c : Contract) (k : String)
      → IsHeld id product_id front c
      → IsHeldAt k (get_or_create_account c k now)
  unfolding get_or_create_account account_or_default
  create-IsHeldAt c k (a0, found, held) same =
      let found' : lookup k c.accounts ≡ some a0 = ap (λ key. lookup key c.accounts) same ∙ found in
      rw found' held

  pub change_jar-IsHeldAt :
      (k : String) (a : Account) (j : String) {jar : Jar} (jar' : Jar)
      → IsHeldAt k a
      → get_jar a j ≡ ok jar
      → IsQuiet now jar jar'
      → IsHeldAt k (put_jar a j jar')
  unfolding get_jar
  change_jar-IsHeldAt k a j {jar} jar' h e quiet same =
      let listed : lookup j a.jars ≡ some jar = or_panic-eq-ok (lookup j a.jars) jar_not_found e in
      put_jar-IsHeldIn product_id front a j jar'
        (λ jar0 found held.
          let z : jar0 ≡ jar = some-injective _ _ (sym found ∙ listed) in
          quiet-IsHeldJar product_id front now jar jar' quiet (subst (IsHeldJar front) z held))
        (h same)

  abbrev pub holder : Keeper now
  holder = record {
    IsKept = IsHeld id product_id front;
    IsKeptAccount = IsHeldAt;
    read = read-IsHeldAt;
    write = write-IsHeld;
    create = create-IsHeldAt;
    change_jar = change_jar-IsHeldAt;
    change_score = λ k a s h le. h;
    change_features = λ k a f h lt. h;
    change_timezone = λ k a tz h. h;
    change_nonce = λ k a n h. h;
  }
