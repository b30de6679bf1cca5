-- ===== src/Book/Refine.antt =====
-- The contract's calls implement the abstract calls on the book.
use sweat_jar.Base.{
  ◌≡◌, refl, sym, ap, ◌∙◌, Bool-cases, inl, inr, Option-cases, List, [], ◌∷◌, ok, String, str_eq,
  eq_iff,
}
use sweat_jar.Base.Ensures.{Ensures, returns, after, given, weaken, outcome}
use sweat_jar.Jar.{Deposit, Jar, push_deposit, empty_jar}
use sweat_jar.Jar
use sweat_jar.Contract.{Env, Contract, maintainer, assert_role, get_account}
use sweat_jar.Oracle.{unlock_listed, unlock_jars_for_account}
use sweat_jar.World.Kinds.{IsSilent, call_cases}
use sweat_jar.World.Calls.{handle-IsKept}
use sweat_jar.Base.Dict.{Dict, lookup, insert, lookup-insert}
use sweat_jar.World.{Call, Callback, handle}
use sweat_jar.Book.{Book, account_page, jar_page, book, entered, entered_kind, IsPlain}
use sweat_jar.Book.Pages.{IsBook, bookkeeper, read-IsPage, write-IsBook}
use sweat_jar.Book.Stakes.{ft_on_transfer-IsBook}

unlock_listed-page :
    (ids : List String) (jars : Dict Jar) (j : String)
    → jar_page (lookup j (unlock_listed jars ids)) ≡ jar_page (lookup j jars)
unfolding unlock_listed Jar.unlock jar_page
unlock_listed-page [] jars j = refl
unlock_listed-page (id ∷ ids) jars j = elim (Option-cases (lookup id jars)) [
  | inl absent ↦ rw absent (unlock_listed-page ids jars j)
  | inr (jar, found) ↦ rw found (
      unlock_listed-page ids (insert id (Jar.unlock jar) jars) j ∙ elim (Bool-cases (str_eq id j)) [
        | inl same ↦
            let z : id ≡ j = (eq_iff id j).0 same in
            let e = ap (λ o. jar_page (lookup o jars)) z in
            rw (lookup-insert id j (Jar.unlock jar) jars, same) (ap jar_page (sym found) ∙ e)
        | inr other ↦ rw (lookup-insert id j (Jar.unlock jar) jars, other) refl
      ])
]

unlock-IsBook :
    (env : Env) (b : Book) (c : Contract) (id : String) (ids : List String)
    → IsBook b c
    → Ensures (IsBook b) (unlock_jars_for_account env c id ids)
unfolding unlock_jars_for_account
unlock-IsBook env b c id ids h = after (assert_role env maintainer) _ λ _ _.
    after (get_account c id) _ λ a ha.
      returns _
        (write-IsBook b c id _ h (λ j. unlock_listed-page ids a.jars j ∙ read-IsPage b c id h ha j))

-- A call that leaves the deposits alone makes no entry.
silent-IsBook :
    (env : Env) (b : Book) (c : Contract) (h : IsBook b c) (call : Call)
    → IsSilent call
    → Ensures (λ r. IsBook (entered env call b) r.0) (handle env c call)
unfolding book entered entered_kind
silent-IsBook env b c h call silent =
    weaken (λ r hr. rw silent hr)
      (handle-IsKept env (bookkeeper b env.now) c h IsSilent (λ sender amount message apt. cc)
        (λ from ticket signature amount apt. cc) (λ ticket signature amount apt. cc)
        (λ id ids _. unlock-IsBook env b c id ids h)
        (λ c1 c2 same _ h1 id product_id.
          ap (λ m. account_page (lookup id m) product_id) same ∙ h1 id product_id)
        call silent)

handle-IsBook :
    (env : Env) (b : Book) (c : Contract)
    → IsBook b c
    → (call : Call) → IsPlain call
    → Ensures (λ r. IsBook (entered env call b) r.0) (handle env c call)
unfolding handle entered entered_kind
handle-IsBook env b c h =
    call_cases
      (λ call. IsPlain call → Ensures (λ r. IsBook (entered env call b) r.0) (handle env c call))
      (λ sender amount message plain.
        given _ (ft_on_transfer-IsBook env b c sender amount message plain h) λ r hr. returns _ hr)
      (λ _ _ _ _ plain. absurd plain) (λ _ _ _ plain. absurd plain)
      (λ call silent _. silent-IsBook env b c h call silent)

-- The contract implements the book. Of every call that returns, restakes, airdrops and the migration of an
-- account excepted, the book of the new state is what the abstract call makes of the book of the
-- old one: a stake adds its deposit at the end of the page of its receiver and product, and every
-- other call leaves all pages as they are, whatever it does to the rest of the state.
pub handle-refines :
    (env : Env) (c : Contract) (call : Call) (id product_id : String) {c' : Contract}
    {due : List Callback}
    → IsPlain call
    → handle env c call ≡ ok (c', due)
    → book c' id product_id ≡ entered env call (book c) id product_id
handle-refines env c call id product_id plain done =
    outcome _ (handle-IsBook env (book c) c (λ _ _. refl) call plain) done id product_id
