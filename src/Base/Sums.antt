-- ===== src/Base/Sums.antt =====
-- The sum of a number over the values of a map.
use Prim.Native.String.{String}
use Prim.Native.Nat.{ℕ, ◌+◌}
use mathlib.Core.Path.{◌≡◌, refl}
use mathlib.Core.Option.{Option, none, some}
use mathlib.Core.List.{[], ◌∷◌}
use native.Mathlib.Omega.{arith}
use text.Mathlib.TextEquality.{eq_iff}
use sweat_jar.Base.Dict.{Dict, lookup, insert, remove, IsMap}

module _ {ℓ} {V : Type ℓ} (f : V → ℕ) where
  unfoldable pub sum_of : Dict V → ℕ
  sum_of [] = 0
  sum_of ((k, v) ∷ m) = f v + sum_of m

  unfoldable pub value_of : Option V → ℕ
  value_of none = 0
  value_of (some v) = f v

  pub sum_of-insert :
      (k : String) (v : V) (m : Dict V)
      → sum_of (insert k v m) + value_of (lookup k m) ≡ sum_of m + f v
  unfolding sum_of value_of insert lookup
  sum_of-insert k v [] = omega arith
  sum_of-insert k v ((j, w) ∷ m) = ground (arith, sum_of-insert k v m)

  sum_of-remove-none :
      (k : String) (m : Dict V) → lookup k m ≡ none → sum_of (remove k m) ≡ sum_of m
  unfolding sum_of remove lookup
  sum_of-remove-none k [] h = refl
  sum_of-remove-none k ((j, w) ∷ m) h = ground (arith, sum_of-remove-none k m)

  pub sum_of-remove :
      (k : String) (m : Dict V) → IsMap m → sum_of (remove k m) + value_of (lookup k m) ≡ sum_of m
  unfolding sum_of value_of remove lookup
  sum_of-remove k [] h = omega arith
  sum_of-remove k ((j, w) ∷ m) h =
      ground (arith, eq_iff j k, sum_of-remove k m h.1, sum_of-remove-none k m)
