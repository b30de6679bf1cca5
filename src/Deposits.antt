-- ===== src/Deposits.antt =====
-- Deposits and their tickets (contract/src/feature/account/common.rs, `deposit`;
-- feature/account/verification/model.rs; model/src/data/deposit/model.rs; model/src/signer.rs).
use Prim.Native.Nat.{Ordering}
use Prim.Native.String.{compare}
use sweat_jar.Base.{
  ℕ, ◌+◌, ◌*◌, Bool, true, false, [], ◌∷◌, leb, ◌==◌, ◌&&◌, if◌then◌else◌, Option, none, some, List,
  length, Result, ok, panic, ◌>>=◌, ◌>>◌, require, signature_required, bad_signature,
  ticket_outdated, ticket_too_far, add_u64, add_u32, String,
}
use sweat_jar.Base.Dict.{lookup}
use sweat_jar.Time.{Timezone, ms_in_day}
use sweat_jar.Product.{Product, assert_enabled, assert_cap, is_score_based}
use sweat_jar.Account.{Account, try_set_timezone}
use sweat_jar.Account
use sweat_jar.Contract.{
  Env, Contract, Purpose, to_deposit, Message, deposit_message, airdrop_message, get_product,
  put_account, get_or_create_account, cache_jar,
}
pub mod Guards
pub mod Effect

pub record DepositTicket : Type 0 where
  pub product_id : String
  pub valid_until : ℕ
  pub timezone : Option Timezone

-- `MAX_TICKET_LIFETIME_MS`
abbrev max_ticket_lifetime_ms : ℕ
max_ticket_lifetime_ms = 7 * ms_in_day

-- `verify_expiration_date`
unfoldable verify_expiration_date : DepositTicket → ℕ → Result (Unit {0})
verify_expiration_date ticket now = do
  require (leb now ticket.valid_until) ticket_outdated
  latest ← add_u64 now max_ticket_lifetime_ms
  require (leb ticket.valid_until latest) ticket_too_far

-- `MessageVerifier`: a key of 32 bytes, a signature of 64, and the check of ed25519.
unfoldable verify_message : Env → List ℕ → Message → List ℕ → Result (Unit {0})
verify_message env key message signature =
    require (length key == 32 && length signature == 64 && env.verifies key message signature)
      bad_signature

unfoldable nonce_of : Option Account → ℕ
nonce_of none = 0
nonce_of (some a) = a.nonce

unfoldable verify_key :
    Env → Option (List ℕ) → DepositTicket → Message → Option (List ℕ) → Result (Unit {0})
unfolding verify_expiration_date verify_message
verify_key env none ticket message signature = ok tt
verify_key env (some key) ticket message none = panic signature_required
verify_key env (some key) ticket message (some signature) = do
  verify_expiration_date ticket env.now
  verify_message env key message signature

-- `Contract::verify`
unfoldable pub verify :
    Env → Contract → Purpose → String → ℕ → DepositTicket → Option (List ℕ) → Result (Unit {0})
unfolding verify_key nonce_of
verify env c purpose account_id amount ticket signature = do
  p ← get_product c ticket.product_id
  verify_key env p.public_key ticket
      (deposit_message purpose env.current_account account_id ticket.product_id amount
        ticket.valid_until (nonce_of (lookup account_id c.accounts)))
      signature

abbrev comes_first : Ordering → Bool
comes_first Ordering.gt = false
comes_first _ = true

-- `sorted.sort()`: account ids are ordered as texts.
unfoldable insert_sorted : String → List String → List String
insert_sorted id [] = id ∷ []
insert_sorted id (other ∷ ids) =
    if comes_first (compare id other) then id ∷ other ∷ ids else other ∷ insert_sorted id ids

unfoldable sort_receivers : List String → List String
unfolding insert_sorted
sort_receivers [] = []
sort_receivers (id ∷ ids) = insert_sorted id (sort_receivers ids)

-- `Contract::verify_airdrop`, with the receivers sorted as `AirdropMessage::new` does.
unfoldable pub verify_airdrop :
    Env → Contract → DepositTicket → ℕ → List String → Option (List ℕ) → Result (Unit {0})
unfolding verify_key sort_receivers
verify_airdrop env c ticket amount receivers signature = do
  p ← get_product c ticket.product_id
  verify_key env p.public_key ticket
      (airdrop_message env.current_account ticket.product_id amount ticket.valid_until
        (sort_receivers receivers))
      signature

-- `try_set_timezone`, where the product is score based.
unfoldable pub timezone_for : Account → Product → Option Timezone → Result Account
timezone_for a p tz = if is_score_based p.terms then try_set_timezone a tz else ok a

-- The writes of `Contract::deposit`, after its checks.
unfoldable pub write_deposit :
    Env → Contract → String → DepositTicket → ℕ → Product → Result Contract
unfolding timezone_for
write_deposit env c account_id ticket amount p = do
  let a = get_or_create_account c account_id env.now
  nonce ← add_u32 a.nonce 1
  a' ← timezone_for (record a { nonce = nonce }) p ticket.timezone
  a'' ← cache_jar (Account.deposit a' ticket.product_id amount env.now) p env.now
  ok (put_account c account_id a'')

-- `Contract::deposit`
unfoldable pub deposit :
    Env → Contract → String → DepositTicket → ℕ → Option (List ℕ) → Result Contract
unfolding verify write_deposit
deposit env c account_id ticket amount signature = do
  p ← get_product c ticket.product_id
  assert_enabled p
  assert_cap p amount
  verify env c to_deposit account_id amount ticket signature
  write_deposit env c account_id ticket amount p
