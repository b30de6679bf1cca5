-- ===== src/Base/Dict.antt =====
-- A hash map with text keys, as an association list. The order of a `HashMap` is unspecified:
-- the list's order stands for whichever order the program meets.
use Prim.Native.String.{String}
use mathlib.Core.Path.{◌≡◌, refl, subst}
use mathlib.Core.Logic.{◌≢◌, inl, inr}
use mathlib.Core.Bool.{Bool, true, false}
use mathlib.Core.Option.{Option, none, some, some-injective}
use mathlib.Core.List.{List, [], ◌∷◌, map}
use native.Mathlib.Omega.{arith}
use text.Mathlib.Text.{◌==◌ as str_eq}
use text.Mathlib.TextEquality.{eq_iff}
use sweat_jar.Base.Tests.{if◌then◌else◌, Bool-cases}
use sweat_jar.Base.Lists.{All, All-map}

abbrev pub Dict {ℓ} : Type ℓ → Type ℓ
Dict V = List (String × V)

pub str_eq_refl : (k : String) → str_eq k k ≡ true
str_eq_refl k = (eq_iff k k).1 refl

module _ {ℓ} {V : Type ℓ} where
  unfoldable pub lookup : String → Dict V → Option V
  lookup key [] = none
  lookup key ((own, value) ∷ rest) = if str_eq own key then some value else lookup key rest

  unfoldable pub insert : String → V → Dict V → Dict V
  insert key value [] = (key, value) ∷ []
  insert key value ((own, old) ∷ rest) =
      if str_eq own key then (key, value) ∷ rest else (own, old) ∷ insert key value rest

  unfoldable pub remove : String → Dict V → Dict V
  remove k [] = []
  remove k ((j, w) ∷ m) = if str_eq j k then remove k m else (j, w) ∷ remove k m

  unfoldable pub contains : String → Dict V → Bool
  unfolding lookup
  contains k m = elim (lookup k m) [ none ↦ false | some _ ↦ true ]

  abbrev pub keys : Dict V → List String
  keys = map (λ e. e.0)

  -- No key is bound twice.
  abbrev pub IsMap : Dict V → Type ℓ
  IsMap [] = Unit
  IsMap ((k, v) ∷ m) = (lookup k m ≡ none) × IsMap m

  pub lookup-insert :
      (key asked : String) (value : V) (dict : Dict V)
      → lookup asked (insert key value dict)
        ≡ (if str_eq key asked then some value else lookup asked dict)
  unfolding insert lookup
  lookup-insert key asked value [] = refl
  lookup-insert key asked value ((own, old) ∷ rest) = ground (
    arith,
    lookup-insert key asked value rest,
    eq_iff own asked,
    eq_iff own key,
    eq_iff key asked,
  )

  pub lookup-insert_self : (k : String) (v : V) (m : Dict V) → lookup k (insert k v m) ≡ some v
  lookup-insert_self k v m = simp (lookup-insert, str_eq_refl)

  pub lookup-insert_ne :
      (k j : String) (v : V) (m : Dict V) → k ≢ j → lookup j (insert k v m) ≡ lookup j m
  lookup-insert_ne k j v m h = ground (arith, lookup-insert k j v m, eq_iff k j)

  pub lookup-remove :
      (k j : String) (m : Dict V)
      → lookup j (remove k m) ≡ (if str_eq k j then none else lookup j m)
  unfolding lookup remove
  lookup-remove k j [] = ground arith
  lookup-remove k j ((i, w) ∷ m) =
      ground (arith, eq_iff k j, eq_iff i k, eq_iff i j, lookup-remove k j m)

  pub insert-IsMap : (k : String) (v : V) (m : Dict V) → IsMap m → IsMap (insert k v m)
  unfolding insert lookup
  insert-IsMap k v [] h = (refl, tt)
  insert-IsMap k v ((i, w) ∷ m) h =
      ground (arith, eq_iff i k, eq_iff k i, insert-IsMap k v m h.1, lookup-insert k i v m)

module _ {ℓ} {V : Type ℓ} where
  lookup-tail :
      (k : String) (v : V) (m : Dict V) (e : String × V)
      → lookup k m ≡ none
      → lookup e.0 m ≡ some e.1
      → lookup e.0 ((k, v) ∷ m) ≡ some e.1
  unfolding lookup
  lookup-tail k v m e h he = elim (Bool-cases (str_eq k e.0)) [
    | inl same ↦ absurd (let z = (eq_iff k e.0).0 same in cc)
    | inr other ↦ rw other he
  ]

  -- In a map, every entry is what its key looks up.
  pub IsMap-entries : (m : Dict V) → IsMap m → All (λ e. lookup e.0 m ≡ some e.1) m
  unfolding lookup
  IsMap-entries [] h = tt
  IsMap-entries ((k, v) ∷ m) h =
      (rw (str_eq_refl k) refl, All-map (λ e. lookup-tail k v m e h.0) m (IsMap-entries m h.1))

module _ {ℓ κ} {V : Type ℓ} (P : V → Type κ) where
  -- What holds of every value, after an insertion and of a value looked up.
  pub All-insert :
      (k : String) (v : V) (m : Dict V) → P v → All (λ e. P e.1) m → All (λ e. P e.1) (insert k v m)
  unfolding insert
  All-insert k v [] pv h = (pv, tt)
  All-insert k v ((j, w) ∷ m) pv h = elim (Bool-cases (str_eq j k)) [
    | inl same ↦ rw same (pv, h.1)
    | inr other ↦ rw other (h.0, All-insert k v m pv h.1)
  ]

  pub All-lookup :
      (k : String) (m : Dict V) {v : V} → All (λ e. P e.1) m → lookup k m ≡ some v → P v
  unfolding lookup
  All-lookup k [] h e = cc
  All-lookup k ((j, w) ∷ m) {v} h e = elim (Bool-cases (str_eq j k)) [
    | inl same ↦ let z : w ≡ v = some-injective w v (rw same at e) in subst P z h.0
    | inr other ↦ All-lookup k m h.1 (rw other at e)
  ]

module _ {ℓ} {V : Type ℓ} where
  -- Without the entries of a key, a map is a map.
  pub remove-IsMap : (k : String) (m : Dict V) → IsMap m → IsMap (remove k m)
  unfolding remove
  remove-IsMap k [] h = tt
  remove-IsMap k ((j, w) ∷ m) h =
      ground (arith, eq_iff k j, lookup-remove k j m, remove-IsMap k m h.1)

  pub All-remove {κ} :
      (P : V → Type κ) (k : String) (m : Dict V)
      → All (λ e. P e.1) m
      → All (λ e. P e.1) (remove k m)
  unfolding remove
  All-remove P k [] h = tt
  All-remove P k ((j, w) ∷ m) h = elim (Bool-cases (str_eq j k)) [
    | inl same ↦ rw same (All-remove P k m h.1)
    | inr other ↦ rw other (h.0, All-remove P k m h.1)
  ]
