-- ===== src/Withdraw/Bulk.antt =====
-- The transfer of `withdraw_all` (contract/src/feature/withdraw/api.rs).
use sweat_jar.Base.{
  ℕ, ◌+◌, ◌<◌, ◌≡◌, refl, ap, false, leb, List, [], ◌∷◌, ◌++◌, Result, ok, panic, Panic, ◌>>=◌,
  >>=-eq-ok, ok-injective, arith, String, add_u128, add_u128-eq-ok, fee_exceeds_amount,
}
use sweat_jar.Contract.{Env, Contract, promise, Transfer, assert_gas}
use sweat_jar.Withdraw.{
  WithdrawalDto, WithdrawalRequest, AfterBulkWithdraw, net_amount, total_net_amount_from,
  total_net_amount, transfer_bulk_withdraw,
}
use sweat_jar.Withdraw.Conservation.{net_amount-lem}

abbrev pub amounts : List WithdrawalRequest → ℕ
amounts [] = 0
amounts (r ∷ rs) = r.withdrawal.amount + amounts rs

abbrev pub fees : List WithdrawalRequest → ℕ
fees [] = 0
fees (r ∷ rs) = r.withdrawal.fee + fees rs

total_net_amount_from-lem :
    (rs : List WithdrawalRequest) (acc : ℕ) {n : ℕ}
    → total_net_amount_from acc rs ≡ ok n
    → n + fees rs ≡ acc + amounts rs
unfolding total_net_amount_from
total_net_amount_from-lem [] acc h = omega (arith, ok-injective h)
total_net_amount_from-lem (r ∷ rs) acc h =
    let (net, hn, h1) = >>=-eq-ok (net_amount r.withdrawal) _ h in
    let (acc', ha, h2) = >>=-eq-ok (add_u128 acc net) _ h1 in
    omega (
      arith,
      net_amount-lem r.withdrawal hn,
      add_u128-eq-ok acc net ha,
      total_net_amount_from-lem rs acc' h2,
    )

-- The net amount of a request whose fee is above its amount.
net_amount-panics : (w : WithdrawalDto) → w.amount < w.fee → net_amount w ≡ panic fee_exceeds_amount
unfolding net_amount
net_amount-panics w h = let e : leb w.fee w.amount ≡ false = ground arith in rw e refl

>>=-panics {ℓ κ} :
    {A : Type ℓ} {B : Type κ} (m : Result A) (f : A → Result B)
    → ((a : A) → (e : Panic) × (f a ≡ panic e))
    → (e : Panic) × ((m >>= f) ≡ panic e)
>>=-panics (ok a) f h = h a
>>=-panics (panic e) f h = (e, refl)

total_net_amount_from-panics :
    (before after : List WithdrawalRequest) (r : WithdrawalRequest) (acc : ℕ)
    → r.withdrawal.amount < r.withdrawal.fee
    → (e : Panic) × (total_net_amount_from acc (before ++ r ∷ after) ≡ panic e)
unfolding total_net_amount_from
total_net_amount_from-panics [] after r acc h =
    (fee_exceeds_amount, rw (net_amount-panics r.withdrawal h) refl)
total_net_amount_from-panics (b ∷ before) after r acc h =
    >>=-panics (net_amount b.withdrawal) _ (λ net.
      >>=-panics (add_u128 acc net) _ (λ acc'. total_net_amount_from-panics before after r acc' h))

-- Where a bulk withdrawal is sent, there is one transfer, to the caller, of all the amounts less all the fees.
pub transfer_bulk_withdraw-lem :
    (env : Env) (c : Contract) (id : String) (rs : List WithdrawalRequest) {out : Contract}
    {t : Transfer} {call : AfterBulkWithdraw}
    → transfer_bulk_withdraw env c id rs ≡ ok (out, promise t call)
    → (t.receiver_id ≡ id) × (t.amount + fees rs ≡ amounts rs) × (call.requests ≡ rs)
unfolding transfer_bulk_withdraw total_net_amount
transfer_bulk_withdraw-lem env c id [] h = cc
transfer_bulk_withdraw-lem env c id (r ∷ rs) {out} {t} {call} h =
    let (_, _, h1) = >>=-eq-ok (assert_gas env _) _ h in
    let (net, hn, h2) = >>=-eq-ok (total_net_amount_from 0 (r ∷ rs)) _ h1 in
    let e : t ≡ record { receiver_id = id; amount = net } = cc in
    let e' : call ≡ record { account_id = id; requests = r ∷ rs } = cc in
    (
      ap (λ x. x.receiver_id) e,
      omega (arith, ap (λ x. x.amount) e, total_net_amount_from-lem (r ∷ rs) 0 hn),
      ap (λ x. x.requests) e',
    )

panic->>= {ℓ κ} :
    {A : Type ℓ} {B : Type κ} (m : Result A) (f : A → Result B) {e : Panic}
    → m ≡ panic e
    → (m >>= f) ≡ panic e
panic->>= m f h = rw h refl

sent-panics :
    (env : Env) (c : Contract) (id : String) (r : WithdrawalRequest) (rs : List WithdrawalRequest)
    → ((e : Panic) × (total_net_amount_from 0 (r ∷ rs) ≡ panic e))
    → (e : Panic) × (transfer_bulk_withdraw env c id (r ∷ rs) ≡ panic e)
unfolding transfer_bulk_withdraw total_net_amount
sent-panics env c id r rs (e, h) =
    >>=-panics (assert_gas env _) _ (λ _. (e, panic->>= (total_net_amount_from 0 (r ∷ rs)) _ h))

-- One request whose fee is above its amount (a fixed fee and nothing liquid in the jar, for example) makes
-- the whole bulk withdrawal panic, whatever the other requests are.
pub transfer_bulk_withdraw-panics :
    (env : Env) (c : Contract) (id : String) (before after : List WithdrawalRequest)
    (r : WithdrawalRequest)
    → r.withdrawal.amount < r.withdrawal.fee
    → (e : Panic) × (transfer_bulk_withdraw env c id (before ++ r ∷ after) ≡ panic e)
transfer_bulk_withdraw-panics env c id [] after r h =
    sent-panics env c id r after (total_net_amount_from-panics [] after r 0 h)
transfer_bulk_withdraw-panics env c id (b ∷ before) after r h =
    sent-panics env c id b (before ++ r ∷ after)
      (total_net_amount_from-panics (b ∷ before) after r 0 h)
