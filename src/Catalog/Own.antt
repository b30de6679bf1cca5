-- ===== src/Catalog/Own.antt =====
-- Every product stands in the catalogue under its own id (contract/src/feature/product/api.rs).
use sweat_jar.Base.{
  ℕ, All, [], ◌∷◌, ◌≡◌, sym, ap, ◌∙◌, Bool-cases, inl, inr, some, some-injective, ok, or_panic,
  or_panic-eq-ok, product_not_found, String, str_eq, eq_iff,
}
use sweat_jar.Base.Dict.{Dict, lookup, lookup-insert}
use sweat_jar.Product.{Product}
use sweat_jar.Account.{Account}
use sweat_jar.Contract.{Contract, put_account, get_product}
use sweat_jar.Catalog.{put_product}
use sweat_jar.Keeper.{Keeper}

-- Every product is listed under its own id.
abbrev pub IsOwn : Contract → Type 0
IsOwn c = (id : String) (p : Product) → get_product c id ≡ ok p → p.id ≡ id

pub put_account-IsOwn :
    (c : Contract) (id : String) (a : Account) → IsOwn c → IsOwn (put_account c id a)
unfolding get_product put_account
put_account-IsOwn c id a h = h

pub entries-IsOwn : (c : Contract) → All (λ e. e.1.id ≡ e.0) c.products → IsOwn c
unfolding get_product lookup
entries-IsOwn c h id p e =
    go c.products h (or_panic-eq-ok (lookup id c.products) product_not_found e)
  where
    go : (m : Dict Product) → All (λ e. e.1.id ≡ e.0) m → lookup id m ≡ some p → p.id ≡ id
    go [] own found = cc
    go ((k, q) ∷ m) (own, owns) found = elim (Bool-cases (str_eq k id)) [
      | inl same ↦
          let z : some q ≡ some p = rw same at found in
          sym (ap (λ x. x.id) (some-injective q p z)) ∙ own ∙ (eq_iff k id).0 same
      | inr other ↦ go m owns (rw other at found)
    ]

pub same_products-IsOwn : (c c' : Contract) → c'.products ≡ c.products → IsOwn c → IsOwn c'
unfolding get_product
same_products-IsOwn c c' same h id p e = h id p (rw same at e)

-- A write to the catalogue under the product's id.
pub put_product-IsOwn :
    (c : Contract) (id : String) (p : Product) → p.id ≡ id → IsOwn c → IsOwn (put_product c id p)
unfolding get_product put_product
put_product-IsOwn c id p same h k q e = elim (Bool-cases (str_eq id k)) [
  | inl here ↦
      let found : or_panic (some p) product_not_found ≡ ok q =
        rw (lookup-insert id k p c.products, here) at e in
      let z : p ≡ q = some-injective p q (or_panic-eq-ok (some p) product_not_found found) in
      sym (ap (λ x. x.id) z) ∙ same ∙ (eq_iff id k).0 here
  | inr other ↦ h k q (rw (lookup-insert id k p c.products, other) at e)
]

-- The writes to accounts do not touch the products.
abbrev pub cataloguer : (now : ℕ) → Keeper now
cataloguer now = record {
  IsKept = IsOwn;
  IsKeptAccount = λ _ _. Unit;
  read = λ c id h e. tt;
  write = λ c id a h ha. put_account-IsOwn c id a h;
  create = λ c id h. tt;
  change_jar = λ id a j jar' h e quiet. tt;
  change_score = λ id a s h le. tt;
  change_features = λ id a f h lt. tt;
  change_timezone = λ id a tz h. tt;
  change_nonce = λ id a n h. tt;
}
