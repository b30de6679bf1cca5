-- ===== src/Invariant.antt =====
-- What holds of every stored account between two calls: the contract's state has no type that
-- says it, and the handlers rely on it.
use sweat_jar.Base.{
  sym, subst, ℕ, ◌≤◌, ◌<◌, ◌≡◌, refl, subst, Option, none, some, List, [], ◌∷◌, Result, ok, All,
  All-map, arith, String, u8_mod, Option-cases, inl, inr, ltb, ◌^◌, or_panic-eq-ok,
  account_not_found, jar_not_found,
}
use sweat_jar.Base.Dict.{
  Dict, lookup, insert, IsMap, insert-IsMap, All-insert, All-lookup, remove, remove-IsMap,
  All-remove,
}
use sweat_jar.Base.Ensures.{Ensures, on_some, outcome}
use sweat_jar.Keeper.{cache_time, IsQuiet, Keeper}
use sweat_jar.Score.{AccountScore, score_default}
use sweat_jar.Features.{new}
use sweat_jar.Jar.{Deposit, JarCache, Jar, empty_jar}
use sweat_jar.Jar.Maturity.{IsSorted}
use sweat_jar.Account.{Account, get_jar, put_jar, default_account}
use sweat_jar.Contract.{
  Contract, get_account, put_account, get_or_create_account, account_or_default,
}
pub mod Oracle
pub mod Depositing
pub mod Rollback
pub mod Claiming
pub mod Paying
pub mod Restaking

-- The deposits are in the order of their times, and none of them is later than now.
abbrev IsTimeline : ℕ → List Deposit → Type 0
IsTimeline now ds = IsSorted ds × All (λ d. d.created_at ≤ now) ds

abbrev pub IsJar : ℕ → Jar → Type 0
IsJar now jar = IsTimeline now jar.deposits × (cache_time jar.cache ≤ now)

-- A product has one jar, every jar is as above, the flags are a byte, and the scores are not from
-- the future.
abbrev pub IsAccount : ℕ → Account → Type 0
IsAccount now a =
    IsMap a.jars
    × All (λ e. IsJar now e.1) a.jars
    × (a.features.bits < u8_mod)
    × (a.score.updated_at ≤ now)

abbrev pub IsContract : ℕ → Contract → Type 0
IsContract now c = IsMap c.accounts × All (λ e. IsAccount now e.1) c.accounts

empty_jar-IsJar : (now : ℕ) → IsJar now empty_jar
unfolding empty_jar
empty_jar-IsJar now = ((tt, tt), omega arith)

default_account-IsAccount : (now : ℕ) → IsAccount now (default_account now)
unfolding default_account score_default new
default_account-IsAccount now = (tt, tt, omega arith, omega arith)

-- Time passes.
IsJar-later : (now later : ℕ) (jar : Jar) → now ≤ later → IsJar now jar → IsJar later jar
IsJar-later now later jar le ((sorted, past), cache) =
    ((sorted, All-map (λ d h. omega arith) jar.deposits past), omega arith)

IsAccount-later : (now later : ℕ) (a : Account) → now ≤ later → IsAccount now a → IsAccount later a
IsAccount-later now later a le (unique, jars, bits, score) =
    (unique, All-map (λ e h. IsJar-later now later e.1 le h) a.jars jars, bits, omega arith)

pub IsContract-later :
    (now later : ℕ) (c : Contract) → now ≤ later → IsContract now c → IsContract later c
IsContract-later now later c le (unique, accounts) =
    (unique, All-map (λ e h. IsAccount-later now later e.1 le h) c.accounts accounts)

-- What is read is as it should be, and so is what a write leaves.
module _ (now : ℕ) where
  pub get_jar-IsJar :
      (a : Account) (id : String) → IsAccount now a → Ensures (IsJar now) (get_jar a id)
  unfolding get_jar
  get_jar-IsJar a id h =
      on_some (lookup id a.jars) jar_not_found (λ jar e. All-lookup (IsJar now) id a.jars h.1 e)

  pub put_jar-IsAccount :
      (a : Account) (id : String) (jar : Jar)
      → IsAccount now a
      → IsJar now jar
      → IsAccount now (put_jar a id jar)
  unfolding put_jar
  put_jar-IsAccount a id jar (unique, jars, bits, score) hj =
      (insert-IsMap id jar a.jars unique, All-insert (IsJar now) id jar a.jars hj jars, bits, score)

  pub remove_jar-IsAccount :
      (a : Account) (id : String)
      → IsAccount now a
      → IsAccount now (record a { jars = remove id a.jars })
  remove_jar-IsAccount a id (unique, jars, bits, score) =
      (remove-IsMap id a.jars unique, All-remove (IsJar now) id a.jars jars, bits, score)

  pub get_account-IsAccount :
      (c : Contract) (id : String) → IsContract now c → Ensures (IsAccount now) (get_account c id)
  unfolding get_account
  get_account-IsAccount c id h =
      on_some (lookup id c.accounts) account_not_found
        (λ a e. All-lookup (IsAccount now) id c.accounts h.1 e)

  pub put_account-IsContract :
      (c : Contract) (id : String) (a : Account)
      → IsContract now c
      → IsAccount now a
      → IsContract now (put_account c id a)
  unfolding put_account
  put_account-IsContract c id a (unique, accounts) ha =
      (insert-IsMap id a c.accounts unique, All-insert (IsAccount now) id a c.accounts ha accounts)

  pub get_or_create_account-IsAccount :
      (c : Contract) (id : String)
      → IsContract now c
      → IsAccount now (get_or_create_account c id now)
  unfolding get_or_create_account account_or_default
  get_or_create_account-IsAccount c id h = elim (Option-cases (lookup id c.accounts)) [
    | inl absent ↦ rw absent (default_account-IsAccount now)
    | inr (a, found) ↦ rw found (All-lookup (IsAccount now) id c.accounts h.1 found)
  ]

pub change_jar-IsJar :
    (now : ℕ) (jar jar' : Jar) → IsJar now jar → IsQuiet now jar jar' → IsJar now jar'
change_jar-IsJar now jar jar' (timeline, cache) (deposits, _, change) = (
  subst (IsTimeline now) (sym deposits) timeline,
  elim change [ inl same ↦ subst (λ o. cache_time o ≤ now) (sym same) cache | inr fresh ↦ fresh ],
)

-- Soundness survives the writes that leave the deposits alone.
abbrev pub sound : (now : ℕ) → Keeper now
sound now = record {
  IsKept = IsContract now;
  IsKeptAccount = λ _ a. IsAccount now a;
  read = λ c id h e. outcome _ (get_account-IsAccount now c id h) e;
  write = λ c id a h ha. put_account-IsContract now c id a h ha;
  create = λ c id h. get_or_create_account-IsAccount now c id h;
  change_jar = λ id a j {jar} jar' h e quiet.
      let hj : IsJar now jar = outcome _ (get_jar-IsJar now a j h) e in
      put_jar-IsAccount now a j jar' h (change_jar-IsJar now jar jar' hj quiet);
  change_score = λ id a s h le. (h.0, h.1, h.2, le h.3);
  change_features = λ id a f h lt. (h.0, h.1, lt h.2, h.3);
  change_timezone = λ id a tz h. h;
  change_nonce = λ id a n h. h;
}
