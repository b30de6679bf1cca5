-- ===== src/Pending.antt =====
-- Pending callbacks and the deposits that they count on, which are held until they run.
use sweat_jar.Base.{
  ℕ, ◌+◌, ◌≡◌, ◌≢◌, refl, sym, ap, ◌∙◌, subst, some-injective, List, [], ◌∷◌, ◌++◌, ok, arith,
  String, All, All-map, All-pick, length, take, Option, none, some, Result,
}
use sweat_jar.Base.Dict.{lookup}
use sweat_jar.Jar.{Deposit, Jar}
use sweat_jar.Jar.Liquid.{principal_sum}
use sweat_jar.Account.{Account}
use sweat_jar.Contract.{Contract, PromiseOrValue, value, promise}
use sweat_jar.World.{Callback}
use sweat_jar.Book.{jar_page, account_page, book}
use sweat_jar.Held.{IsHeld}
use sweat_jar.Held.Slots.{Avoids, slots_of, owner_of}
use sweat_jar.Held.Callbacks.{Misses}
use sweat_jar.Ledger.Partitions.{covered, IsDistinct}
use sweat_jar.Ledger.Due.{counted_of}
pub mod Locks
pub mod Withdrawals
pub mod Restakes
pub mod Claims
pub mod Catalogue
pub mod Bulk
pub mod Calls
pub mod Owned
pub mod Steps
pub mod Failures
pub mod Successes
pub mod Returns

-- The account's listed jars are held, each with as many deposits as are counted on, and these hold the total.
abbrev IsCounted : Contract → String → List (String × ℕ) → ℕ → Type 0
IsCounted c id [] total = total ≡ 0
IsCounted c id ((p, n) ∷ ps) total =
    (front : List Deposit) × (rest : ℕ) × IsHeld id p front c
    × (length front ≡ n)
    × (total ≡ principal_sum front + rest)
    × IsCounted c id ps rest

abbrev IsPending : Contract → Callback → Type 0
IsPending c due =
    IsDistinct (slots_of due) × IsCounted c (owner_of due) (slots_of due) (counted_of due)

module _ (c c' : Contract) (id : String) where
  pub IsCounted-carry :
      (ps : List (String × ℕ)) (total : ℕ)
      → All (λ e. (front : List Deposit) → IsHeld id e.0 front c → IsHeld id e.0 front c') ps
      → IsCounted c id ps total
      → IsCounted c' id ps total
  IsCounted-carry [] total keeps h = h
  IsCounted-carry ((p, n) ∷ ps) total (keep, keeps) (front, rest, held, len, sum, h) =
      (front, rest, keep front held, len, sum, IsCounted-carry ps rest keeps h)

take-front : (front back : List Deposit) → take (length front) (front ++ back) ≡ front
take-front [] back = refl
take-front (d ∷ front) back = ap (λ ds. d ∷ ds) (take-front front back)

held_page :
    (c : Contract) (id p : String) (front : List Deposit)
    → IsHeld id p front c
    → take (length front) (book c id p) ≡ front
unfolding book account_page jar_page
held_page c id p front (a, found, (jar, listed, (_, (back, e)))) =
    rw (found, listed, e) (take-front front back)

IsCounted-covered :
    (c : Contract) (id : String) (ps : List (String × ℕ)) (total : ℕ)
    → IsCounted c id ps total
    → covered (book c id) ps ≡ total
unfolding covered
IsCounted-covered c id [] total h = sym h
IsCounted-covered c id ((p, n) ∷ ps) total (front, rest, held, len, sum, h) =
    let page : take n (book c id p) ≡ front =
      ap (λ m. take m (book c id p)) (sym len) ∙ held_page c id p front held in
    omega (arith, ap principal_sum page, sum, IsCounted-covered c id ps rest h)

IsCounted-IsHeld :
    (c : Contract) (id : String) (ps : List (String × ℕ)) (total : ℕ)
    → IsCounted c id ps total
    → All (λ e. (front : List Deposit) × IsHeld id e.0 front c) ps
IsCounted-IsHeld c id [] total h = tt
IsCounted-IsHeld c id ((p, n) ∷ ps) total (front, rest, held, len, sum, h) =
    ((front, held), IsCounted-IsHeld c id ps rest h)

-- Two callbacks count on no jar together.
abbrev pub IsApart : Callback → Callback → Type 0
IsApart d e = owner_of d ≡ owner_of e → All (λ s. Avoids s.0 (slots_of e)) (slots_of d)

module _ where
  avoid_one : (p : String) (ps : List (String × ℕ)) → All (λ s. s.0 ≢ p) ps → All (λ s. p ≢ s.0) ps
  avoid_one p ps h = All-map (λ s ne same. ne (sym same)) ps h

  none_of : (qs : List (String × ℕ)) → All (λ s. Avoids s.0 []) qs
  none_of [] = tt
  none_of (q ∷ qs) = (tt, none_of qs)

  join :
      (p : String × ℕ) (ps qs : List (String × ℕ))
      → All (λ s. p.0 ≢ s.0) qs
      → All (λ s. Avoids s.0 ps) qs
      → All (λ s. Avoids s.0 (p ∷ ps)) qs
  join p ps [] others h = tt
  join p ps (q ∷ qs) (other, others) (h, hs) = ((other, h), join p ps qs others hs)

  swap : (ps qs : List (String × ℕ)) → All (λ s. Avoids s.0 qs) ps → All (λ s. Avoids s.0 ps) qs
  swap [] qs h = none_of qs
  swap (p ∷ ps) qs (hp, h) = join p ps qs (avoid_one p.0 qs hp) (swap ps qs h)

IsApart-sym : (d e : Callback) → IsApart d e → IsApart e d
IsApart-sym d e h same = swap (slots_of d) (slots_of e) (h (sym same))

-- No two of the pending callbacks count on one jar.
abbrev IsSpread : List Callback → Type 0
IsSpread [] = Unit
IsSpread (d ∷ ds) = All (IsApart d) ds × IsSpread ds

IsSpread-pick :
    (front : List Callback) (d : Callback) (back : List Callback)
    → IsSpread (front ++ d ∷ back)
    → All (IsApart d) (front ++ back) × IsSpread (front ++ back)
IsSpread-pick [] d back h = h
IsSpread-pick (e ∷ front) d back (apart, spread) =
    let (apart', spread') = IsSpread-pick front d back spread in
    let (ed, rest) = All-pick (IsApart e) front d back apart in
    ((IsApart-sym e d ed, apart'), (rest, spread'))

-- The callbacks that another one leaves alone.
IsApart-Misses : (d e : Callback) → IsApart d e → All (λ s. Misses (owner_of d) s.0 e) (slots_of d)
IsApart-Misses d e apart = go (slots_of d) apart
  where
    go :
        (ps : List (String × ℕ))
        → (owner_of d ≡ owner_of e → All (λ s. Avoids s.0 (slots_of e)) ps)
        → All (λ s. Misses (owner_of d) s.0 e) ps
    go [] h = tt
    go (p ∷ ps) h = ((λ same. (h (sym same)).0), go ps (λ same. (h same).1))

-- A callback that a call leaves pending: its deposits are held, and it counts on no jar that was held before.
abbrev IsNewCallback : Contract → Contract → Callback → Type 0
IsNewCallback c c' due =
    IsPending c' due
    × ((id p : String) (front : List Deposit) → IsHeld id p front c → Misses id p due)

abbrev IsNewPromise :
    {A C : Type 0} → (C → Callback) → Contract → Contract × PromiseOrValue A C → Type 0
IsNewPromise due c (c', value _) = Unit
IsNewPromise due c (c', promise _ call) = IsNewCallback c c' (due call)
