-- ===== src/Airdrop/Laws.antt =====
-- A transfer with an airdrop message (contract/src/feature/ft_receiver.rs).
use sweat_jar.Base.{
  ℕ, refl, ◌*◌, ◌/◌, ◌%◌, ◌<◌, ◌≡◌, sym, ap, ◌∙◌, true, ltb, ltb→lt, ◌==◌, length, ok, >>=-eq-ok,
  ok-injective, require, require-eq-ok, arith, String, not_permitted, receivers_empty,
  amount_not_divisible,
}
use sweat_jar.Contract.{Env, Contract, oracle, assert_from_ft_contract}
use sweat_jar.Base.Ensures.{outcome}
use sweat_jar.Book.{book}
use sweat_jar.Book.Airdrops.{credited_all, airdrop-IsBook}
use sweat_jar.Airdrop.{
  AirdropStakeMessage, drop, or_else, airdrop, receive_airdrop, receive, ft_on_transfer,
}

pub shared_out : (amount n : ℕ) → 0 < n → (amount % n == 0) ≡ true → amount / n * n ≡ amount
shared_out amount n pos e = let z : amount % n ≡ 0 = ground arith in omega (arith, z)

-- Where a transfer with an airdrop message is accepted, nothing is returned to its sender, who is an oracle. The
-- transferred amount is split without rest into one share for each receiver, and the deposits of all accounts are those
-- before with a share, made now, at the end of the product's jar of each receiver (two where one is named twice).
pub ft_on_transfer-airdrop :
    (env : Env) (c : Contract) (sender : String) (amount : ℕ) (m : AirdropStakeMessage)
    {out : Contract} {returned : ℕ}
    → ft_on_transfer env c sender amount (drop m) ≡ ok (out, returned)
    → (returned ≡ 0)
      × (env.has_role oracle sender ≡ true)
      × ((share : ℕ) × (share * length m.receivers ≡ amount)
          × ((id product_id : String)
              → book out id product_id
                ≡ credited_all
                    (book c)
                    m.receivers
                    m.ticket.product_id
                    (record { created_at = env.now; principal = share })
                    id
                    product_id))
unfolding ft_on_transfer receive receive_airdrop
ft_on_transfer-airdrop env c sender amount m {out} {returned} h =
    let (_, _, h1) = >>=-eq-ok (assert_from_ft_contract env c) _ h in
    let (c1, h2, h3) = >>=-eq-ok (receive_airdrop env c sender amount m) _ h1 in
    let (_, r1, h4) = >>=-eq-ok (require (env.has_role oracle sender) not_permitted) _ h2 in
    let (_, r2, h5) = >>=-eq-ok (require (ltb 0 (length m.receivers)) receivers_empty) _ h4 in
    let (_, r3, h6) =
      >>=-eq-ok (require (amount % length m.receivers == 0) amount_not_divisible) _ h5 in
    let share = amount / length m.receivers in
    let (r, ha, h7) =
      >>=-eq-ok
        (airdrop env c m.ticket share m.receivers m.signature (or_else m.booster 0)
          m.booster_timestamp)
        _ h6 in
    let e : c1 ≡ out = ap (λ x. x.0) (ok-injective h3) in
    let entries =
      outcome _
        (airdrop-IsBook env (book c) c m.ticket share m.receivers m.signature (or_else m.booster 0)
          m.booster_timestamp (λ id product_id. refl))
        ha in
    let e' : r.0 ≡ out = ok-injective h7 ∙ e in
    (
      sym (ap (λ x. x.1) (ok-injective h3)),
      require-eq-ok _ _ r1,
      (
        share,
        shared_out amount (length m.receivers) (ltb→lt _ _ (require-eq-ok _ _ r2))
            (require-eq-ok _ _ r3),
        λ id product_id. ap (λ x. book x id product_id) (sym e') ∙ entries id product_id,
      ),
    )
