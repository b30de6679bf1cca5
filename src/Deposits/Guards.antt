-- ===== src/Deposits/Guards.antt =====
-- The checks of a deposit (contract/src/feature/account/common.rs, `deposit`).
use sweat_jar.Base.{
  ℕ, ◌+◌, ◌≤◌, ◌≡◌, sym, ◌∙◌, subst, true, leb, Option, none, some, List, ok, >>=-eq-ok,
  ok-injective, require, require-eq-ok, arith, String, add_u64, add_u64-eq-ok, ticket_outdated,
  leb→le,
}
use sweat_jar.Base.Dict.{lookup}
use sweat_jar.Product.{Product, assert_enabled, assert_cap}
use sweat_jar.Product.Laws.{assert_cap-eq-ok}
use sweat_jar.Contract.{Env, Contract, Message, deposit_message, to_deposit, get_product}
use sweat_jar.Deposits.{
  DepositTicket, verify_expiration_date, max_ticket_lifetime_ms, verify_message, verify_key, verify,
  nonce_of, deposit,
}

-- What a product with a key asks of a deposit: a ticket in force for at most a week, and a
-- signature of the message under that key.
abbrev pub IsAuthorised : Env → Option (List ℕ) → DepositTicket → Message → Option (List ℕ) → Type 0
IsAuthorised env none ticket message signature = Unit
IsAuthorised env (some key) ticket message none = ⊥
IsAuthorised env (some key) ticket message (some signature) =
    (env.now ≤ ticket.valid_until)
    × (ticket.valid_until ≤ env.now + max_ticket_lifetime_ms)
    × (env.verifies key message signature ≡ true)

verify_expiration_date-lem :
    (ticket : DepositTicket) (now : ℕ) {u : Unit {0}}
    → verify_expiration_date ticket now ≡ ok u
    → (now ≤ ticket.valid_until) × (ticket.valid_until ≤ now + max_ticket_lifetime_ms)
unfolding verify_expiration_date
verify_expiration_date-lem ticket now h =
    let (_, h1, r1) = >>=-eq-ok (require (leb now ticket.valid_until) ticket_outdated) _ h in
    let (latest, h2, r2) = >>=-eq-ok (add_u64 now max_ticket_lifetime_ms) _ r1 in
    let b1 = require-eq-ok _ _ h1 in
    let b2 = require-eq-ok _ _ r2 in
    (ground arith, omega (arith, add_u64-eq-ok _ _ h2, leb→le _ _ b2))

verify_message-lem :
    (env : Env) (key : List ℕ) (message : Message) (signature : List ℕ) {u : Unit {0}}
    → verify_message env key message signature ≡ ok u
    → env.verifies key message signature ≡ true
unfolding verify_message
verify_message-lem env key message signature h = let b = require-eq-ok _ _ h in ground arith

verify_key-IsAuthorised :
    (env : Env) (key : Option (List ℕ)) (ticket : DepositTicket) (message : Message)
    (signature : Option (List ℕ)) {u : Unit {0}}
    → verify_key env key ticket message signature ≡ ok u
    → IsAuthorised env key ticket message signature
unfolding verify_key
verify_key-IsAuthorised env none ticket message signature h = tt
verify_key-IsAuthorised env (some key) ticket message none h = cc
verify_key-IsAuthorised env (some key) ticket message (some signature) h =
    let (_, h1, h2) = >>=-eq-ok (verify_expiration_date ticket env.now) _ h in
    let (e1, e2) = verify_expiration_date-lem ticket env.now h1 in
    (e1, e2, verify_message-lem env key message signature h2)

-- The message that a deposit's signature is of: it has the account's nonce in it.
abbrev pub message_of : Env → Contract → String → ℕ → DepositTicket → Message
message_of env c account_id amount ticket =
    deposit_message to_deposit env.current_account account_id ticket.product_id amount
      ticket.valid_until (nonce_of (lookup account_id c.accounts))

-- Where a deposit is accepted, a top-up of a jar included, the product is listed and enabled, the amount is
-- within its cap, and, if the product has a key, the ticket is in force and the signature of the deposit's
-- message is valid.
pub deposit-guards :
    (env : Env) (c : Contract) (account_id : String) (ticket : DepositTicket) (amount : ℕ)
    (signature : Option (List ℕ)) {out : Contract}
    → deposit env c account_id ticket amount signature ≡ ok out
    → (p : Product) × (get_product c ticket.product_id ≡ ok p)
      × (p.is_enabled ≡ true)
      × (p.cap.min_cap ≤ amount)
      × (amount ≤ p.cap.max_cap)
      × IsAuthorised env p.public_key ticket (message_of env c account_id amount ticket) signature
unfolding deposit assert_enabled verify
deposit-guards env c account_id ticket amount signature h =
    let (p, hp, h1) = >>=-eq-ok (get_product c ticket.product_id) _ h in
    let (_, h2, h3) = >>=-eq-ok (assert_enabled p) _ h1 in
    let (_, h4, h5) = >>=-eq-ok (assert_cap p amount) _ h3 in
    let (_, h6, h7) = >>=-eq-ok (verify env c to_deposit account_id amount ticket signature) _ h5 in
    let (p', hp', h8) = >>=-eq-ok (get_product c ticket.product_id) _ h6 in
    let e : p' ≡ p = ok-injective (sym hp' ∙ hp) in
    let (low, high) = assert_cap-eq-ok p amount h4 in
    (
      p,
      hp,
      require-eq-ok _ _ h2,
      low,
      high,
      subst
          (λ q.
            IsAuthorised env q.public_key ticket (message_of env c account_id amount ticket)
              signature)
          e (verify_key-IsAuthorised env p'.public_key ticket _ signature h8),
    )
