-- ===== src/Authority/Bootstrap.antt =====
-- The state that `init` leaves (contract/src/lib.rs).
use sweat_jar.Base.{◌≡◌, List, [], ok, String}
use sweat_jar.Base.{require, not_private, str_eq}
use sweat_jar.Base.Ensures.{Ensures, returns, outcome, after}
use sweat_jar.Contract.{Env, Contract, Role}
use sweat_jar.World.{World, Steps}
use sweat_jar.World.Reach.{IsWorld, Steps-IsWorld}
use sweat_jar.Authority.{Acl, init_authority, init}

module _ {S : Type 0} (acl : Acl S) where
  init-IsWorld :
      (env : Env) (s : S) (token fees previous super_admin : String)
      (roles : List (Role × List String))
      → Ensures
          (λ r. IsWorld (record { contract = r.0; now = env.now; pending = [] }))
          (init acl env s token fees previous super_admin roles)
  unfolding init
  init-IsWorld env s token fees previous super_admin roles =
      after (require (str_eq env.predecessor env.current_account) not_private) _ λ _ _.
        after (init_authority acl s env.predecessor super_admin roles) _
          λ s' _. returns _ ((tt, tt), tt)

  -- Every state that the contract reaches from the one that `init` makes is sound.
  init-Steps :
      (env : Env) (s : S) (token fees previous super_admin : String)
      (roles : List (Role × List String)) {c : Contract} {s' : S} {w : World}
      → init acl env s token fees previous super_admin roles ≡ ok (c, s')
      → Steps (record { contract = c; now = env.now; pending = [] }) w
      → IsWorld w
  init-Steps env s token fees previous super_admin roles h steps =
      Steps-IsWorld steps (outcome _ (init-IsWorld env s token fees previous super_admin roles) h)
