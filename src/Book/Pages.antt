-- ===== src/Book/Pages.antt =====
-- The pages of the book under the writes of the contract.
use sweat_jar.Base.{
  ℕ, ◌≡◌, refl, sym, ap, ◌∙◌, if◌then◌else◌, Bool-cases, inl, inr, some, Option-cases, ok,
  or_panic-eq-ok, account_not_found, jar_not_found, String, str_eq, eq_iff,
}
use sweat_jar.Base.Dict.{lookup, lookup-insert}
use sweat_jar.Jar.{Jar}
use sweat_jar.Account.{Account, get_jar, put_jar, default_account}
use sweat_jar.Contract.{
  Contract, get_account, put_account, get_or_create_account, account_or_default,
}
use sweat_jar.Keeper.{IsQuiet, Keeper}
use sweat_jar.Book.{Book, jar_page, account_page, book}

-- The account's pages are those of the book under its name.
abbrev pub IsPage : Book → String → Account → Type 0
IsPage b id a = (product_id : String) → jar_page (lookup product_id a.jars) ≡ b id product_id

abbrev pub IsBook : Book → Contract → Type 0
IsBook b c = (id product_id : String) → book c id product_id ≡ b id product_id

module _ (b : Book) where
  pub read-IsPage :
      (c : Contract) (id : String) {a : Account}
      → IsBook b c
      → get_account c id ≡ ok a
      → IsPage b id a
  unfolding get_account book account_page
  read-IsPage c id h e product_id =
      let found = or_panic-eq-ok (lookup id c.accounts) account_not_found e in
      ap (λ o. account_page o product_id) (sym found) ∙ h id product_id

  pub create-IsPage :
      (c : Contract) (id : String) (now : ℕ)
      → IsBook b c
      → IsPage b id (get_or_create_account c id now)
  unfolding get_or_create_account account_or_default default_account book account_page jar_page
      lookup
  create-IsPage c id now h product_id = elim (Option-cases (lookup id c.accounts)) [
    | inl absent ↦ rw absent (ap (λ o. account_page o product_id) (sym absent) ∙ h id product_id)
    | inr (a, found) ↦ rw found (ap (λ o. account_page o product_id) (sym found) ∙ h id product_id)
  ]

  pub put_account-page :
      (c : Contract) (k : String) (a : Account) (id product_id : String)
      → book (put_account c k a) id product_id
        ≡ (if str_eq k id then jar_page (lookup product_id a.jars) else book c id product_id)
  unfolding book account_page put_account
  put_account-page c k a id product_id = elim (Bool-cases (str_eq k id)) [
    | inl same ↦ rw (lookup-insert k id a c.accounts, same) refl
    | inr other ↦ rw (lookup-insert k id a c.accounts, other) refl
  ]

  pub put_jar-page :
      (a : Account) (j : String) (jar : Jar) (product_id : String)
      → jar_page (lookup product_id (put_jar a j jar).jars)
        ≡ (if str_eq j product_id then jar.deposits else jar_page (lookup product_id a.jars))
  unfolding jar_page put_jar
  put_jar-page a j jar product_id = elim (Bool-cases (str_eq j product_id)) [
    | inl same ↦ rw (lookup-insert j product_id jar a.jars, same) refl
    | inr other ↦ rw (lookup-insert j product_id jar a.jars, other) refl
  ]

  pub write-IsBook :
      (c : Contract) (k : String) (a : Account)
      → IsBook b c
      → IsPage b k a
      → IsBook b (put_account c k a)
  write-IsBook c k a h ha id product_id = elim (Bool-cases (str_eq k id)) [
    | inl same ↦
        let z : k ≡ id = (eq_iff k id).0 same in
        rw (put_account-page c k a id product_id, same)
          (ha product_id ∙ ap (λ key. b key product_id) z)
    | inr other ↦ rw (put_account-page c k a id product_id, other) (h id product_id)
  ]

  pub change_jar-IsPage :
      (now : ℕ) (id : String) (a : Account) (j : String) {jar : Jar} (jar' : Jar)
      → IsPage b id a
      → get_jar a j ≡ ok jar
      → IsQuiet now jar jar'
      → IsPage b id (put_jar a j jar')
  unfolding get_jar jar_page
  change_jar-IsPage now id a j {jar} jar' h e (deposits, _, _) product_id =
      let found = or_panic-eq-ok (lookup j a.jars) jar_not_found e in
      elim (Bool-cases (str_eq j product_id)) [
        | inl same ↦
            let z : j ≡ product_id = (eq_iff j product_id).0 same in
            let listed : lookup product_id a.jars ≡ some jar =
              ap (λ k. lookup k a.jars) (sym z) ∙ found in
            rw (put_jar-page a j jar' product_id, same)
              (deposits ∙ (ap jar_page (sym listed) ∙ h product_id))
        | inr other ↦ rw (put_jar-page a j jar' product_id, other) (h product_id)
      ]

  -- The writes that leave the deposits alone make no entry.
  abbrev pub bookkeeper : (now : ℕ) → Keeper now
  bookkeeper now = record {
    IsKept = IsBook b;
    IsKeptAccount = IsPage b;
    read = read-IsPage;
    write = write-IsBook;
    create = λ c id h. create-IsPage c id now h;
    change_jar = change_jar-IsPage now;
    change_score = λ k a s h le. h;
    change_features = λ k a f h lt. h;
    change_timezone = λ k a tz h. h;
    change_nonce = λ k a n h. h;
  }
