-- ===== src/Users/Recorded.antt =====
-- What `create_user` of api/app/routers/users.py leaves behind, accepted or refused.
use mathlib.Core.Path.{subst}
use cpde_web.Prelude.{
  ℕ, suc, String, ◌≡◌, refl, sym, ◌∙◌, true, false, not, List, [], ◌∷◌, ◌++◌, ◌==◌, All, any, map,
  str_eq, arith, ◌≤◌,
}
use cpde_web.Prelude.Text.{codes, text_beq, lower}
use cpde_web.Prelude.Monad.{
  Result, ok, text, naming, require, raise_if, modify, gets, read, ◌and_then◌, ◌>>=◌, ◌>>◌,
}
use cpde_web.Prelude.Ensures.{
  Ensures, Ensures-raise_if, Ensures-transaction, Ensures-read, Ensures-bind, Holds, holds_ok,
  require_then, and_then_ok, ok_inj, negated,
}
use cpde_web.Store.{OrgNode, ScopeAssignment, User, Store}
use cpde_web.Scope.{user_has_scope}
use cpde_web.Users.Body.{UserIn, clean_email, is_accepted_user}
use cpde_web.Users.Assign.{
  assign, check_role, own_assignments, resolve_org_nodes, has_repeat, grant, replace_assignments,
}
use cpde_web.Users.Handler.{
  Viewed, new_user, is_taken_email, check_user, insert_user, view_user, add_user, create_user,
}
use cpde_web.Users.Granted.{
  own_assignments-grant, scope-grant_other, scope-grant_own, scope-users, resolve_org_nodes-ok,
  All-weaken,
}

pub check_role-ok :
    (roles : List String) (role_code : String) {B : Type 0} (m : Result B) {b : B}
    → (check_role roles role_code and_then λ _. m) ≡ ok b
    → (any (str_eq role_code) roles ≡ true) × (m ≡ ok b)
unfolding check_role
check_role-ok roles role_code m h =
    require_then (any (str_eq role_code) roles) 400 (naming "unknown role" (codes role_code)) h

module _ {N : Type 0} (Q : Unit {0} → Store N → Type 0) (E : Store N → Type 0) where
  pub replace-Ensures :
      (user_id : ℕ) (role_code : String) (nodes : List OrgNode) (s : Store N)
      → E s
      → (has_repeat nodes ≡ false → Q tt (grant user_id role_code nodes s))
      → Ensures Q E (replace_assignments user_id role_code nodes s)
  unfolding replace_assignments
  replace-Ensures user_id role_code nodes s e h =
      Ensures-raise_if Q E (has_repeat nodes) 500 (text "Internal Server Error")
        (modify (grant user_id role_code nodes)) s e h

module _ {N : Type 0} (roles : List String) where
  -- The assignments of a user are one role at units of the caller's scope.
  pub record IsGranted (caller_id user_id : ℕ) (role_code : String) (s t : Store N) : Type 0 where
    pub nodes : List OrgNode
    pub is_role : any (str_eq role_code) roles ≡ true
    pub has_no_repeat : has_repeat nodes ≡ false
    pub granted : own_assignments user_id t ≡ map (assign user_id role_code) nodes
    pub in_scope : All (λ (o : OrgNode). user_has_scope caller_id o.id s ≡ true) nodes
    pub within : (n : ℕ) → user_has_scope user_id n t ≡ true → user_has_scope caller_id n s ≡ true

  -- The store `s` of the request differs from the one that is written in its users alone.
  pub grant-IsGranted :
      (caller_id user_id : ℕ) (role_code : String) (nodes : List OrgNode) (s : Store N)
      (us : List User) (next : ℕ)
      → any (str_eq role_code) roles ≡ true
      → has_repeat nodes ≡ false
      → All (λ (o : OrgNode). user_has_scope caller_id o.id s ≡ true) nodes
      → IsGranted caller_id user_id role_code s
          (grant user_id role_code nodes (record s { users = us; next_id = next }))
  grant-IsGranted caller_id user_id role_code nodes s us next known once inside =
      let u = record s { users = us; next_id = next } in
      let P = λ (o : OrgNode). user_has_scope caller_id o.id s ≡ true in
      let Q = λ (o : OrgNode). user_has_scope caller_id o.id u ≡ true in
      record {
        nodes = nodes;
        is_role = known;
        has_no_repeat = once;
        granted = own_assignments-grant user_id role_code nodes u;
        in_scope = inside;
        within = λ n h.
            sym (scope-users s us next caller_id n)
            ∙ scope-grant_own user_id role_code nodes u caller_id n
                (All-weaken P Q (λ o e. scope-users s us next caller_id o.id ∙ e) nodes inside) h;
      }

  -- What the reads of `create_user` make sure of.
  abbrev IsChecked : UserIn → (caller_id : ℕ) → Store N → List OrgNode → Type 0
  IsChecked body caller_id s nodes =
      (any (str_eq body.role_code) roles ≡ true)
      × All (λ (o : OrgNode). user_has_scope caller_id o.id s ≡ true) nodes
      × (is_taken_email (clean_email body.email) s ≡ false)

  check_user-IsChecked :
      (body : UserIn) (caller_id : ℕ) (s : Store N)
      → Holds (IsChecked body caller_id s) (check_user roles body caller_id s)
  unfolding check_user
  check_user-IsChecked body caller_id s =
      holds_ok (IsChecked body caller_id s) (check_user roles body caller_id s) checked
    where
      checked :
          (nodes : List OrgNode)
          → check_user roles body caller_id s ≡ ok nodes
          → IsChecked body caller_id s nodes
      checked nodes h =
          let taken = is_taken_email (clean_email body.email) s in
          let detail = naming "a user with the email already exists" (clean_email body.email) in
          let k = λ (os : List OrgNode). require (not taken) 409 detail and_then λ _. ok os in
          let (known, h1) =
            check_role-ok roles body.role_code
              (resolve_org_nodes caller_id body.org_unit_codes s and_then k) h in
          let (os, e, h2) = and_then_ok (resolve_org_nodes caller_id body.org_unit_codes s) k h1 in
          let (free, h3) = require_then (not taken) 409 detail h2 in
          (
            known,
            subst (All (λ (o : OrgNode). user_has_scope caller_id o.id s ≡ true)) (ok_inj h3)
                (resolve_org_nodes-ok caller_id body.org_unit_codes s os e),
            negated taken free,
          )

  pub record IsCreated (body : UserIn) (caller_id : ℕ) (s t : Store N) : Type 0 where
    pub fresh : any (λ u. text_beq (lower u.email) (clean_email body.email)) s.users ≡ false
    pub users : t.users ≡ s.users ++ new_user s.next_id body ∷ []
    pub access : IsGranted caller_id s.next_id body.role_code s t
    pub others : (j n : ℕ) → (j == s.next_id) ≡ false → user_has_scope j n t ≡ user_has_scope j n s
    pub same_pursuits : t.pursuits ≡ s.pursuits
    pub same_assessments : t.assessments ≡ s.assessments
    pub next : s.next_id ≤ t.next_id

  created :
      (body : UserIn) (caller_id : ℕ) (s : Store N) (nodes : List OrgNode)
      → any (str_eq body.role_code) roles ≡ true
      → All (λ (o : OrgNode). user_has_scope caller_id o.id s ≡ true) nodes
      → is_taken_email (clean_email body.email) s ≡ false
      → has_repeat nodes ≡ false
      → IsCreated body caller_id s (grant s.next_id body.role_code nodes (insert_user body s))
  created body caller_id s nodes known inside free once =
      let us = s.users ++ new_user s.next_id body ∷ [] in
      record {
        fresh = free;
        users = refl;
        access =
            grant-IsGranted caller_id s.next_id body.role_code nodes s us (suc s.next_id) known once
              inside;
        others = λ j n ne.
            scope-grant_other s.next_id body.role_code nodes (insert_user body s) j n ne
            ∙ scope-users s us (suc s.next_id) j n;
        same_pursuits = refl;
        same_assessments = refl;
        next = omega arith;
      }

  module _ (order : List ScopeAssignment → List ScopeAssignment) where
    -- An accepted creation adds an active user with the cleaned email, which no user had, up to
    -- case; the assignments are exactly the sent role, which is known, at distinct units of the
    -- caller, so that the new user has scope over nothing that the caller has none over. Nobody
    -- else gains or loses scope, and a refused creation leaves the store as it was.
    pub create_user-IsCreated :
        (body : UserIn) (caller_id : ℕ) (s : Store N)
        → Ensures
            (λ _ t. IsCreated body caller_id s t)
            (λ t. t ≡ s)
            (create_user roles order body caller_id s)
    unfolding create_user add_user
    create_user-IsCreated body caller_id s =
        let Q = λ (_ : Viewed) (t : Store N). IsCreated body caller_id s t in
        let E = λ (t : Store N). Unit {0} in
        let refused = not (is_accepted_user body) in
        let add = λ (nodes : List OrgNode). add_user order body nodes s.next_id in
        let view = λ (_ : Unit {0}). gets (view_user order s.next_id) in
        let reads = read (check_user roles body caller_id) >>= add in
        Ensures-transaction Q E (raise_if refused 422 (text "the body is not valid") >> reads) s (
          Ensures-raise_if Q E refused 422 (text "the body is not valid") reads s tt λ _.
            Ensures-read Q E (check_user roles body caller_id) (IsChecked body caller_id s) add s tt
              (check_user-IsChecked body caller_id s)
              λ nodes (known, inside, free).
                Ensures-bind Q E (replace_assignments s.next_id body.role_code nodes) view
                  (insert_user body s)
                  (replace-Ensures (λ a t. Ensures Q E (view a t)) E s.next_id body.role_code nodes
                    (insert_user body s) tt
                    λ once. created body caller_id s nodes known inside free once))
