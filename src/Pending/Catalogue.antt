-- ===== src/Pending/Catalogue.antt =====
-- What a withdrawal of several products relies on in the catalogue and the list of products
-- (contract/src/feature/withdraw/api.rs, `withdraw_all`).
use sweat_jar.Base.{
  ◌≡◌, ◌≢◌, false, Bool-cases, inl, inr, Option, none, some, List, [], ◌∷◌, String, str_eq, eq_iff,
  All, map,
}
use sweat_jar.Base.Dict.{Dict, IsMap, keys, lookup}
use sweat_jar.Jar.{Jar}
use sweat_jar.Account.{Account}
use sweat_jar.Withdraw.{WithdrawalRequest, listed_or_all}
use sweat_jar.Book.{jar_page}
use sweat_jar.Held.Slots.{Avoids, request_slots}
use sweat_jar.Ledger.Partitions.{covered, IsDistinct, IsBounded}
use sweat_jar.Ledger.Due.{requested}

-- No product is asked for twice.
abbrev pub IsUnique : List String → Type 0
IsUnique [] = Unit
IsUnique (id ∷ ids) = All (λ j. j ≢ id) ids × IsUnique ids

keys-IsUnique : (m : Dict Jar) → IsMap m → IsUnique (keys m)
unfolding lookup
keys-IsUnique [] h = tt
keys-IsUnique ((k, _) ∷ m) (absent, h) = (absent_keys k m absent, keys-IsUnique m h)
  where
    absent_keys : (k : String) (m : Dict Jar) → lookup k m ≡ none → All (λ j. j ≢ k) (keys m)
    absent_keys k [] e = tt
    absent_keys k ((j, v) ∷ m) e = elim (Bool-cases (str_eq j k)) [
      | inl same ↦ absurd (let z = rw (lookup, same) at e in cc)
      | inr other ↦ (
        (λ z. absurd (let y = (eq_iff j k).1 z in cc)),
        absent_keys k m (rw (lookup, other) at e),
      )
    ]

-- A list of products that is a set, or none.
abbrev pub IsUniqueList : Option (List String) → Type 0
IsUniqueList none = Unit
IsUniqueList (some ids) = IsUnique ids

pub listed-IsUnique :
    (ids : Option (List String)) (a : Account)
    → IsMap a.jars
    → IsUniqueList ids
    → IsUnique (listed_or_all ids a)
unfolding listed_or_all
listed-IsUnique none a map unique = keys-IsUnique a.jars map
listed-IsUnique (some ids) a map unique = unique

-- The requests of a list of products, against the account they are made from.
abbrev pub IsCollected : Account → List String → List WithdrawalRequest → Type 0
IsCollected a ids rs =
    IsDistinct (request_slots rs)
    × (covered (λ j. jar_page (lookup j a.jars)) (request_slots rs) ≡ requested rs)
    × IsBounded (λ j. jar_page (lookup j a.jars)) (request_slots rs)
    × All (λ r. (jar : Jar) × (lookup r.product_id a.jars ≡ some jar) × (jar.is_locked ≡ false)) rs
    × ((x : String) → All (λ j. j ≢ x) ids → Avoids x (request_slots rs))
