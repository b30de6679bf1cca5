-- ===== src/Book/Airdrops.antt =====
-- What an airdrop makes of the book.
use sweat_jar.Base.{ℕ, Option, List, [], ◌∷◌, String, ◌==◌}
use sweat_jar.Base.Ensures.{Ensures, returns, on_if, after, given}
use sweat_jar.Product.{Product, assert_enabled, assert_cap}
use sweat_jar.Jar.{Deposit}
use sweat_jar.Account
use sweat_jar.Contract.{Env, Contract, get_account, get_product}
use sweat_jar.Deposits.{DepositTicket, verify_airdrop}
use sweat_jar.Oracle.{BoosterData}
use sweat_jar.Airdrop.{
  create_airdrop_deposit, apply_airdrop_booster, airdrop_one, airdrop_each, airdrop,
}
use sweat_jar.Keeper.Settling.{cache_jar-IsKept}
use sweat_jar.Keeper.Depositing.{
  prepare_account_for_airdrop-IsKept, settle_interest_before_booster-IsKept,
  place_airdrop_booster-IsKept,
}
use sweat_jar.Book.{Book, credited}
use sweat_jar.Book.Pages.{IsBook, bookkeeper, read-IsPage}
use sweat_jar.Book.Stakes.{deposit-IsPage, write-credited}

-- One entry for each of the accounts, and for an account that is named twice two.
unfoldable pub credited_all : Book → List String → String → Deposit → Book
unfolding credited
credited_all b [] product d = b
credited_all b (id ∷ ids) product d = credited_all (credited b id product d) ids product d

module _ (now : ℕ) (ticket : DepositTicket) (amount : ℕ) (p : Product) (booster : ℕ)
    (timestamp : Option ℕ) where
  abbrev share : Deposit
  share = record { created_at = now; principal = amount }

  create_airdrop_deposit-IsBook :
      (b : Book) (c : Contract) (id : String)
      → IsBook b c
      → Ensures
          (IsBook (credited b id ticket.product_id share))
          (create_airdrop_deposit c now id ticket amount p)
  unfolding create_airdrop_deposit
  create_airdrop_deposit-IsBook b c id h =
      let K = bookkeeper (credited b id ticket.product_id share) now in
      after (get_account c id) _ λ a ha.
        given _
          (cache_jar-IsKept K id (Account.deposit a ticket.product_id amount now) p
            (deposit-IsPage b id ticket.product_id share a (read-IsPage b c id h ha)))
          λ a' ha'. returns _ (write-credited b id ticket.product_id share c a' h ha')

  airdrop_one-IsBook :
      (b : Book) (c : Contract) (id : String) (noted : BoosterData)
      → IsBook b c
      → Ensures
          (λ r. IsBook (credited b id ticket.product_id share) r.0)
          (airdrop_one c now id ticket amount p booster timestamp noted)
  unfolding airdrop_one apply_airdrop_booster
  airdrop_one-IsBook b c id noted h =
      let K = bookkeeper b now in
      let K' = bookkeeper (credited b id ticket.product_id share) now in
      given _ (prepare_account_for_airdrop-IsKept K c id ticket p h) λ c1 h1.
        given _ (settle_interest_before_booster-IsKept K c1 id booster h1) λ c2 h2.
          given _ (create_airdrop_deposit-IsBook b c2 id h2) λ c3 h3.
            on_if (booster == 0) _ _ (returns _ h3)
              (place_airdrop_booster-IsKept K' c3 id booster timestamp noted h3)

  airdrop_each-IsBook :
      (ids : List String) (b : Book) (c : Contract) (noted : BoosterData)
      → IsBook b c
      → Ensures
          (λ r. IsBook (credited_all b ids ticket.product_id share) r.0)
          (airdrop_each c now ids ticket amount p booster timestamp noted)
  unfolding airdrop_each credited_all
  airdrop_each-IsBook [] b c noted h = returns _ h
  airdrop_each-IsBook (id ∷ ids) b c noted h =
      given _ (airdrop_one-IsBook b c id noted h) λ r hr. airdrop_each-IsBook ids _ r.0 r.1 hr

-- `Contract::airdrop` makes an entry for each receiver.
pub airdrop-IsBook :
    (env : Env) (b : Book) (c : Contract) (ticket : DepositTicket) (amount : ℕ)
    (receivers : List String) (signature : Option (List ℕ)) (booster : ℕ) (timestamp : Option ℕ)
    → IsBook b c
    → Ensures
        (λ r.
          IsBook
            (credited_all b receivers ticket.product_id
              (record { created_at = env.now; principal = amount }))
            r.0)
        (airdrop env c ticket amount receivers signature booster timestamp)
unfolding airdrop
airdrop-IsBook env b c ticket amount receivers signature booster timestamp h =
    after (get_product c ticket.product_id) _ λ p _. after (assert_enabled p) _ λ _ _.
      after (assert_cap p amount) _ λ _ _.
        after (verify_airdrop env c ticket amount receivers signature) _
          λ _ _. airdrop_each-IsBook env.now ticket amount p booster timestamp receivers b c _ h
