-- ===== src/Ledger/Due.antt =====
-- What a callback counts on, and what it takes from the principal (contract/src/feature, the `#[private]` functions).
use sweat_jar.Base.{ℕ, ◌+◌, ◌≡◌, refl, sym, ◌∙◌, List, [], ◌∷◌, ok, arith, String}
use sweat_jar.Base.Dict.{lookup}
use sweat_jar.Account.{Account}
use sweat_jar.Contract.{Contract, get_account, put_account}
use sweat_jar.Withdraw.{WithdrawalRequest}
use sweat_jar.Restake.Fee.{payout}
use sweat_jar.World.{
  Callback, after_claim_due, after_withdraw_due, after_bulk_withdraw_due,
  after_transfer_remainder_due, after_fee_withdrawn_due,
}
use sweat_jar.Held.Slots.{slots_of, owner_of}
use sweat_jar.Book.{jar_page, book}
use sweat_jar.Ledger.{
  principal, account_principal, share, put_account-principal, get_account-share, elsewhere-IsSplit,
  own-IsSplit,
}
use sweat_jar.Ledger.Partitions.{covered, IsDistinct, IsListed, IsListed-all}
use sweat_jar.Ledger.Mature.{page_of}
use sweat_jar.Ledger.Pages.{IsSame, IsTame}

abbrev pub requested : List WithdrawalRequest → ℕ
requested [] = 0
requested (r ∷ rs) = r.withdrawal.amount + requested rs

-- What the deposits that a callback counts on hold.
unfoldable pub counted_of : Callback → ℕ
counted_of (after_claim_due _) = 0
counted_of (after_withdraw_due call) = call.request.withdrawal.amount
counted_of (after_bulk_withdraw_due call) = requested call.requests
counted_of (after_transfer_remainder_due r) = r.deposit.amount + payout r.withdrawal
counted_of (after_fee_withdrawn_due _) = 0

-- What leaves the principal where the transfer has succeeded.
unfoldable pub paid_out : Callback → ℕ
paid_out (after_claim_due _) = 0
paid_out (after_withdraw_due call) = call.request.withdrawal.amount
paid_out (after_bulk_withdraw_due call) = requested call.requests
paid_out (after_transfer_remainder_due r) = payout r.withdrawal
paid_out (after_fee_withdrawn_due _) = 0

-- A failed claim restores no deposits.
abbrev pub IsTameCallback : Callback → Type 0
IsTameCallback (after_claim_due call) = IsTame call.account_rollback.new_jars
IsTameCallback _ = Unit

-- The deposits that the callback counts on are at the front of their jars.
abbrev pub IsDue : Contract → Callback → Type 0
IsDue c due =
    IsDistinct (slots_of due)
    × (covered (book c (owner_of due)) (slots_of due) ≡ counted_of due)
    × IsTameCallback due

-- An account that is stored again with less principal than it had.
pub put_less :
    (c : Contract) (id : String) {a : Account} (b : Account) (n : ℕ)
    → get_account c id ≡ ok a
    → account_principal b + n ≡ account_principal a
    → principal (put_account c id b) + n ≡ principal c
put_less c id b n ha less =
    omega (arith, put_account-principal c id b, get_account-share c id ha, less)

pub put_same :
    (c : Contract) (id : String) {a : Account} (b : Account)
    → get_account c id ≡ ok a
    → IsSame a b
    → principal (put_account c id b) + 0 ≡ principal c
put_same c id b ha (_, same, _) = put_less c id b 0 ha (omega (arith, same))

pub pages-IsListed :
    (c : Contract) (id : String) (ps : List (String × ℕ)) {a : Account} (b : Account)
    → get_account c id ≡ ok a
    → ((j : String) → jar_page (lookup j b.jars) ≡ jar_page (lookup j a.jars))
    → IsListed (book c id) ps b
pages-IsListed c id ps b ha same =
    IsListed-all (book c id) ps b (λ j. same j ∙ sym (page_of c id j ha))

-- The fees are no principal.
pub with_fees : (c : Contract) (fees : ℕ) → principal (record c { fee_amount = fees }) ≡ principal c
with_fees c fees =
    (elsewhere-IsSplit (principal c) (share c) c (record c { fee_amount = fees }) refl
      (own-IsSplit c)).0
