-- ===== src/Ledger/Calls.antt =====
-- The principal under every call (model/src/api.rs).
use sweat_jar.Base.{
  ℕ, ◌+◌, ◌≡◌, refl, sym, ◌∙◌, inl, inr, Option-cases, List, [], ◌∷◌, ok, arith, String,
}
use sweat_jar.Base.Dict.{Dict, lookup, insert}
use sweat_jar.Base.Sums.{sum_of, value_of, sum_of-insert}
use sweat_jar.Base.Ensures.{Ensures, returns, after, given, weaken, outcome}
use sweat_jar.Jar.{Jar}
use sweat_jar.Jar
use sweat_jar.Contract.{Env, Contract, assert_role, maintainer, get_account}
use sweat_jar.Oracle.{unlock_listed, unlock_jars_for_account}
use sweat_jar.World.{Call, Callback, handle}
use sweat_jar.World.Kinds.{Kind, receiving, restaking, silent_kind, kind, IsSilent, call_cases}
use sweat_jar.World.Calls.{handle-IsKept}
use sweat_jar.Invariant.{IsContract}
use sweat_jar.Ledger.{
  principal, account_principal, jar_principal, share, IsSplit, ledger, own-IsSplit,
  elsewhere-IsSplit, write-IsSplit, get_account-share,
}
use sweat_jar.Ledger.Receipts.{ft_on_transfer-principal}
use sweat_jar.Ledger.Restakes.{restake-principal, restake_all-principal}

unlock_listed-principal :
    (ids : List String) (jars : Dict Jar)
    → sum_of jar_principal (unlock_listed jars ids) ≡ sum_of jar_principal jars
unfolding unlock_listed Jar.unlock jar_principal value_of
unlock_listed-principal [] jars = refl
unlock_listed-principal (id ∷ ids) jars = elim (Option-cases (lookup id jars)) [
  | inl absent ↦ rw absent (unlock_listed-principal ids jars)
  | inr (jar, found) ↦
      let swap = sum_of-insert jar_principal id (Jar.unlock jar) jars in
      rw found (
        unlock_listed-principal ids (insert id (Jar.unlock jar) jars)
        ∙ omega (arith, rw found at swap))
]

unlock-IsSplit :
    (env : Env) (c : Contract) (id : String) (ids : List String)
    → Ensures (IsSplit (principal c) (share c)) (unlock_jars_for_account env c id ids)
unfolding unlock_jars_for_account account_principal
unlock-IsSplit env c id ids = after (assert_role env maintainer) _ λ _ _.
    after (get_account c id) _ λ a ha. returns _ (
      write-IsSplit (principal c) (share c) c id _ (own-IsSplit c)
        (unlock_listed-principal ids a.jars ∙ sym (get_account-share c id ha)))

-- What a call brings to the contract.
unfoldable amount_of : Kind → ℕ
amount_of (receiving _ amount _) = amount
amount_of restaking = 0
amount_of silent_kind = 0

unfoldable pub received : Call → ℕ
unfolding amount_of
received call = amount_of (kind call)

silent-principal :
    (env : Env) (c : Contract) (call : Call)
    → IsSilent call
    → Ensures (λ r. principal r.0 ≡ principal c + received call) (handle env c call)
unfolding received amount_of
silent-principal env c call silent =
    weaken (λ r h. rw silent (omega (arith, h.0)))
      (handle-IsKept env (ledger (principal c) (share c) env.now) c (own-IsSplit c) IsSilent
        (λ sender amount message apt. cc) (λ from ticket signature amount apt. cc)
        (λ ticket signature amount apt. cc) (λ id ids _. unlock-IsSplit env c id ids)
        (λ c1 c2 same _ h. elsewhere-IsSplit (principal c) (share c) c1 c2 same h) call silent)

handle-Ensures :
    (env : Env) (c : Contract)
    → IsContract env.now c
    → (call : Call) → Ensures (λ r. principal r.0 ≡ principal c + received call) (handle env c call)
unfolding handle received amount_of
handle-Ensures env c sound =
    call_cases
      (λ call. Ensures (λ r. principal r.0 ≡ principal c + received call) (handle env c call))
      (λ sender amount message.
        given _ (ft_on_transfer-principal env c sender amount message) λ r h. returns _ h)
      (λ from ticket signature amount.
        given _ (restake-principal env c from ticket signature amount)
          λ r h. returns _ (omega (arith, h)))
      (λ ticket signature amount.
        given _ (restake_all-principal env c ticket signature amount sound)
          λ r h. returns _ (omega (arith, h)))
      (silent-principal env c)

-- Every call that returns keeps the principal of all deposits together, but for what it receives: in a
-- sound state, a token transfer to the contract (a stake, an airdrop, a migrated account) adds exactly
-- its amount, and every other call, restakes included, changes nothing of it.
pub handle-principal :
    (env : Env) (c : Contract) (call : Call) {c' : Contract} {due : List Callback}
    → IsContract env.now c
    → handle env c call ≡ ok (c', due)
    → principal c' ≡ principal c + received call
handle-principal env c call sound done = outcome _ (handle-Ensures env c sound call) done
