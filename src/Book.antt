-- ===== src/Book.antt =====
-- The book of deposits, an abstraction of the contract's state: for each account and product the
-- deposits in the order in which they came. It forgets caches, locks, remainders, scores, flags,
-- timezones, nonces and the catalogue.
use sweat_jar.Base.{
  ℕ, Bool, ◌&&◌, if◌then◌else◌, Option, none, some, List, [], ◌∷◌, ◌++◌, String, str_eq,
}
use sweat_jar.Base.Dict.{lookup}
use sweat_jar.Jar.{Deposit, Jar}
use sweat_jar.Account.{Account}
use sweat_jar.Contract.{Env, Contract}
use sweat_jar.Airdrop.{FtMessage, stake, migrate, drop, or_else}
use sweat_jar.World.{Call}
use sweat_jar.World.Kinds.{Kind, receiving, restaking, silent_kind, kind}
pub mod Pages
pub mod Stakes
pub mod Airdrops
pub mod Refine

-- What an account has deposited in a product.
abbrev pub Book : Type 0
Book = String → String → List Deposit

unfoldable pub jar_page : Option Jar → List Deposit
jar_page none = []
jar_page (some jar) = jar.deposits

unfoldable pub account_page : Option Account → String → List Deposit
unfolding jar_page
account_page none product_id = []
account_page (some a) product_id = jar_page (lookup product_id a.jars)

unfoldable pub book : Contract → Book
unfolding account_page
book c id product_id = account_page (lookup id c.accounts) product_id

-- The entry that a stake makes in the book: a new deposit at the end of one page.
unfoldable pub credited : Book → String → String → Deposit → Book
credited b owner product d id product_id =
    if str_eq owner id && str_eq product product_id
    then b id product_id ++ d ∷ []
    else b id product_id

-- The abstract call: a stake is entered, and no other call makes an entry.
unfoldable entered_message : Env → String → ℕ → FtMessage → Book → Book
unfolding credited or_else
entered_message env sender amount (stake ticket _ receiver) b =
    credited b (or_else receiver sender) ticket.product_id
      (record { created_at = env.now; principal = amount })
entered_message env sender amount (migrate _ _) b = b
entered_message env sender amount (drop _) b = b

unfoldable entered_kind : Env → Kind → Book → Book
unfolding entered_message
entered_kind env (receiving sender amount message) b = entered_message env sender amount message b
entered_kind env restaking b = b
entered_kind env silent_kind b = b

unfoldable pub entered : Env → Call → Book → Book
unfolding entered_kind
entered env call b = entered_kind env (kind call) b

-- The calls whose abstract counterpart is above: all but restakes, airdrops and the migration of an
-- account.
abbrev IsPlainMessage : FtMessage → Type 0
IsPlainMessage (stake _ _ _) = Unit
IsPlainMessage (migrate _ _) = ⊥
IsPlainMessage (drop _) = ⊥

abbrev IsPlainKind : Kind → Type 0
IsPlainKind (receiving _ _ message) = IsPlainMessage message
IsPlainKind restaking = ⊥
IsPlainKind silent_kind = Unit

abbrev IsPlain : Call → Type 0
IsPlain call = IsPlainKind (kind call)
