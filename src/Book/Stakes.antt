-- ===== src/Book/Stakes.antt =====
-- What a stake makes of the book.
use sweat_jar.Base.{
  ℕ, ◌≡◌, refl, sym, ap, ◌∙◌, true, false, Bool-cases, inl, inr, Option, none, some, List, [], ◌∷◌,
  ◌++◌, String, str_eq, eq_iff, add_u32,
}
use sweat_jar.Base.Ensures.{Ensures, returns, after, given}
use sweat_jar.Product.{assert_enabled, assert_cap}
use sweat_jar.Jar.{Deposit, Jar, push_deposit, empty_jar}
use sweat_jar.Account.{Account, jar_or_default, put_jar}
use sweat_jar.Account
use sweat_jar.Contract.{
  Env, Contract, get_product, put_account, get_or_create_account, to_deposit,
  assert_from_ft_contract,
}
use sweat_jar.Deposits.{DepositTicket, verify, write_deposit, deposit}
use sweat_jar.Airdrop.{FtMessage, stake, migrate, drop, or_else, receive, ft_on_transfer}
use sweat_jar.Base.Dict.{lookup, str_eq_refl}
use sweat_jar.Keeper.Settling.{cache_jar-IsKept}
use sweat_jar.Keeper.Scoring.{timezone_for-IsKept}
use sweat_jar.Book.{Book, jar_page, credited, entered_message, IsPlainMessage}
use sweat_jar.Book.Pages.{IsPage, IsBook, bookkeeper, create-IsPage, put_jar-page, put_account-page}

default-page : (o : Option Jar) → (jar_or_default o).deposits ≡ jar_page o
unfolding jar_or_default empty_jar jar_page
default-page none = refl
default-page (some jar) = refl

module _ (b : Book) (id product_id : String) (d : Deposit) where
  credited_here :
      (j : String) → str_eq product_id j ≡ true → credited b id product_id d id j ≡ b id j ++ d ∷ []
  unfolding credited
  credited_here j same = rw (str_eq_refl id, same) refl

  credited_beside :
      (j : String) → str_eq product_id j ≡ false → credited b id product_id d id j ≡ b id j
  unfolding credited
  credited_beside j other = rw (str_eq_refl id, other) refl

  credited_elsewhere : (k j : String) → str_eq id k ≡ false → credited b id product_id d k j ≡ b k j
  unfolding credited
  credited_elsewhere k j other = rw other refl

  -- A deposit pushed to an account's jar, as an entry on its page.
  pub deposit-IsPage :
      (a : Account)
      → IsPage b id a
      → IsPage
          (credited b id product_id d)
          id
          (Account.deposit a product_id d.principal d.created_at)
  unfolding Account.deposit push_deposit
  deposit-IsPage a h j =
      let jar = jar_or_default (lookup product_id a.jars) in
      let jar' = push_deposit jar d.created_at d.principal in
      put_jar-page b a product_id jar' j ∙ elim (Bool-cases (str_eq product_id j)) [
        | inl same ↦
            let z : product_id ≡ j = (eq_iff product_id j).0 same in
            let page = default-page (lookup product_id a.jars) ∙ (h product_id ∙ ap (b id) z) in
            rw same (ap (λ ds. ds ++ d ∷ []) page ∙ sym (credited_here j same))
        | inr other ↦ rw other (h j ∙ sym (credited_beside j other))
      ]

  pub write-credited :
      (c : Contract) (a : Account)
      → IsBook b c
      → IsPage (credited b id product_id d) id a
      → IsBook (credited b id product_id d) (put_account c id a)
  write-credited c a h ha k j = put_account-page b c id a k j ∙ elim (Bool-cases (str_eq id k)) [
    | inl same ↦
        let z : id ≡ k = (eq_iff id k).0 same in
        rw same (ha j ∙ ap (λ key. credited b id product_id d key j) z)
    | inr other ↦ rw other (h k j ∙ sym (credited_elsewhere k j other))
  ]

-- `Contract::deposit` makes its entry.
deposit-IsBook :
    (env : Env) (b : Book) (c : Contract) (id : String) (ticket : DepositTicket) (amount : ℕ)
    (signature : Option (List ℕ))
    → IsBook b c
    → Ensures
        (IsBook
          (credited b id ticket.product_id (record { created_at = env.now; principal = amount })))
        (deposit env c id ticket amount signature)
unfolding deposit write_deposit
deposit-IsBook env b c id ticket amount signature h =
    let a = get_or_create_account c id env.now in
    let d : Deposit = record { created_at = env.now; principal = amount } in
    let K = bookkeeper (credited b id ticket.product_id d) env.now in
    after (get_product c ticket.product_id) _ λ p _. after (assert_enabled p) _ λ _ _.
      after (assert_cap p amount) _ λ _ _.
        after (verify env c to_deposit id amount ticket signature) _ λ _ _.
          after (add_u32 a.nonce 1) _ λ nonce _.
            given _
              (timezone_for-IsKept (bookkeeper b env.now) id (record a { nonce = nonce }) p
                ticket.timezone (create-IsPage b c id env.now h))
              λ a' ha.
                given _
                  (cache_jar-IsKept K id (Account.deposit a' ticket.product_id amount env.now) p
                    (deposit-IsPage b id ticket.product_id d a' ha))
                  λ a'' ha'. returns _ (write-credited b id ticket.product_id d c a'' h ha')

pub ft_on_transfer-IsBook :
    (env : Env) (b : Book) (c : Contract) (sender : String) (amount : ℕ) (message : FtMessage)
    → IsPlainMessage message
    → IsBook b c
    → Ensures
        (λ r. IsBook (entered_message env sender amount message b) r.0)
        (ft_on_transfer env c sender amount message)
unfolding ft_on_transfer receive entered_message
ft_on_transfer-IsBook env b c sender amount (stake ticket signature receiver) plain h =
    after (assert_from_ft_contract env c) _ λ _ _.
      given _ (deposit-IsBook env b c (or_else receiver sender) ticket amount signature h)
        λ c' hc. returns _ hc
ft_on_transfer-IsBook env b c sender amount (migrate _ _) plain h = absurd plain
ft_on_transfer-IsBook env b c sender amount (drop _) plain h = absurd plain
