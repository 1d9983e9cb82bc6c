-- ===== src/Users/Updated.antt =====
-- What `update_user` of api/app/routers/users.py leaves behind, accepted or refused.
use mathlib.Core.Bool.{false≢true}
use cpde_web.Prelude.{
  ℕ, String, ◌≡◌, refl, sym, ◌∙◌, Bool, true, false, not, ◌&&◌, some, List, ◌==◌, update_where,
}
use cpde_web.Prelude.Monad.{Tx, text, raise_if, modify, gets, when, ◌>>=◌, ◌>>◌}
use cpde_web.Prelude.Ensures.{
  Ensures, Ensures-raise_if, Ensures-transaction, Ensures-read, Ensures-bind,
}
use cpde_web.Store.{OrgNode, ScopeAssignment, User, Store}
use cpde_web.Scope.{IdText, uuid, user_has_scope, parse_uuid}
use cpde_web.Scope.Parse.{parse-Ensures}
use cpde_web.Users.Body.{UserPatch, is_accepted_user_patch}
use cpde_web.Users.Assign.{visible_user, assignments, has_repeat, grant, replace_assignments}
use cpde_web.Users.Handler.{
  Viewed, set_user, deactivates, sets_access, role_of, view_user, check_target, update_row,
  plan_access, set_access, edit_user, update_user,
}
use cpde_web.Users.Granted.{scope-grant_other, scope-users, All-weaken}
use cpde_web.Users.Recorded.{IsGranted, replace-Ensures, grant-IsGranted}
use cpde_web.Users.Planned.{IsTarget, check_target-IsTarget, IsPlanned, plan_access-IsPlanned}

module _ {S B : Type 0} (Q : B → S → Type 0) (E : S → Type 0) where
  when-Ensures :
      (c : Bool) (m : Tx S (Unit {0})) (k : Unit {0} → Tx S B) (s : S)
      → (c ≡ true → Ensures Q E ((m >>= k) s))
      → (c ≡ false → Ensures Q E (k tt s))
      → Ensures Q E ((when c m >>= k) s)
  when-Ensures true m k s f g = f refl
  when-Ensures false m k s f g = g refl

module _ {N : Type 0} (roles : List String)
    (order : List ScopeAssignment → List ScopeAssignment) where
  pub record IsUpdated (user_text : IdText) (body : UserPatch) (caller_id : ℕ) (s t : Store N)
      : Type 0 where
    pub user_id : ℕ
    pub is_user : user_text ≡ uuid user_id
    pub before : User
    pub visible : visible_user caller_id user_id s ≡ some before
    pub not_own : (deactivates body.is_active && user_id == caller_id) ≡ false
    pub users : t.users ≡ update_where (λ u. u.id == user_id) (set_user body) s.users
    pub kept : sets_access body ≡ false → t.scope_assignments ≡ s.scope_assignments
    pub access :
        sets_access body ≡ true
        → (role_code : String) × (role_of body.role_code (assignments order user_id s)
            ≡ some role_code)
          × IsGranted roles caller_id user_id role_code s t
    pub others : (j n : ℕ) → (j == user_id) ≡ false → user_has_scope j n t ≡ user_has_scope j n s
    pub same_pursuits : t.pursuits ≡ s.pursuits
    pub same_assessments : t.assessments ≡ s.assessments
    pub same_next : t.next_id ≡ s.next_id

  module _ (user_text : IdText) (body : UserPatch) (caller_id user_id : ℕ) (s : Store N)
      (is_user : user_text ≡ uuid user_id) where
    abbrev users_after : List User
    users_after = update_where (λ u. u.id == user_id) (set_user body) s.users

    -- An edit that leaves the assignments.
    renamed :
        (existing : User)
        → IsTarget body caller_id user_id s existing
        → sets_access body ≡ false
        → IsUpdated user_text body caller_id s (update_row body user_id s)
    unfolding IsTarget
    renamed existing (visible, not_own) off = record {
      user_id = user_id;
      is_user = is_user;
      before = existing;
      visible = visible;
      not_own = not_own;
      users = refl;
      kept = λ _. refl;
      access = λ on. absurd (false≢true (sym off ∙ on));
      others = λ j n ne. scope-users s users_after s.next_id j n;
      same_pursuits = refl;
      same_assessments = refl;
      same_next = refl;
    }

    -- An edit that replaces them.
    reassigned :
        (existing : User) (x : String × List OrgNode)
        → IsTarget body caller_id user_id s existing
        → IsPlanned roles order body caller_id user_id (update_row body user_id s) x
        → sets_access body ≡ true
        → has_repeat x.1 ≡ false
        → IsUpdated user_text body caller_id s (grant user_id x.0 x.1 (update_row body user_id s))
    unfolding IsTarget IsPlanned assignments
    reassigned existing (role_code, nodes) (visible, not_own) (is_role, known, inside) on once =
        let u = update_row body user_id s in
        let P = λ (o : OrgNode). user_has_scope caller_id o.id u ≡ true in
        let Q = λ (o : OrgNode). user_has_scope caller_id o.id s ≡ true in
        let inside' =
          All-weaken P Q (λ o e. sym (scope-users s users_after s.next_id caller_id o.id) ∙ e) nodes
            inside in
        record {
          user_id = user_id;
          is_user = is_user;
          before = existing;
          visible = visible;
          not_own = not_own;
          users = refl;
          kept = λ off. absurd (false≢true (sym off ∙ on));
          access = λ _. (
            role_code,
            is_role,
            grant-IsGranted roles caller_id user_id role_code nodes s users_after s.next_id known
                once inside',
          );
          others = λ j n ne.
              scope-grant_other user_id role_code nodes u j n ne
              ∙ scope-users s users_after s.next_id j n;
          same_pursuits = refl;
          same_assessments = refl;
          same_next = refl;
        }

    edit_user-IsUpdated :
        Ensures
          (λ _ t. IsUpdated user_text body caller_id s t)
          (λ t. Unit {0})
          (edit_user roles order body caller_id user_id s)
    unfolding edit_user set_access
    edit_user-IsUpdated =
        let Q = λ (_ : Viewed) (t : Store N). IsUpdated user_text body caller_id s t in
        let E = λ (t : Store N). Unit {0} in
        let u = update_row body user_id s in
        let view = λ (_ : Unit {0}). gets (view_user order user_id) in
        let replace = λ (x : String × List OrgNode). replace_assignments user_id x.0 x.1 in
        let set = set_access roles order body caller_id user_id in
        let go_on = λ (_ : User).
          modify (update_row body user_id) >> (when (sets_access body) set >>= view) in
        Ensures-read Q E (check_target body caller_id user_id) (IsTarget body caller_id user_id s)
          go_on s tt (check_target-IsTarget body caller_id user_id s)
          λ existing target.
            when-Ensures Q E (sets_access body) set view u
              (λ on. Ensures-bind Q E set view u (
                let R = λ (a : Unit {0}) (t : Store N). Ensures Q E (view a t) in
                Ensures-read R E (plan_access roles order body caller_id user_id)
                  (IsPlanned roles order body caller_id user_id u) replace u tt
                  (plan_access-IsPlanned roles order body caller_id user_id u)
                  λ x planned.
                    replace-Ensures R E user_id x.0 x.1 u tt
                      λ once. reassigned existing x target planned on once))
              (λ off. renamed existing target off)

  -- An accepted edit of a user is on a user that the caller sees, and does not deactivate the
  -- caller. The sent columns of the row are set; without a role or units the assignments are kept,
  -- and with either they are exactly one known role at distinct units of the caller, so that the
  -- user has scope over nothing that the caller has none over. Nobody else gains or loses scope,
  -- and a refused edit leaves the store as it was.
  pub update_user-IsUpdated :
      (user_text : IdText) (body : UserPatch) (caller_id : ℕ) (s : Store N)
      → Ensures
          (λ _ t. IsUpdated user_text body caller_id s t)
          (λ t. t ≡ s)
          (update_user roles order user_text body caller_id s)
  unfolding update_user
  update_user-IsUpdated user_text body caller_id s =
      let Q = λ (_ : Viewed) (t : Store N). IsUpdated user_text body caller_id s t in
      let E = λ (t : Store N). Unit {0} in
      let refused = not (is_accepted_user_patch body) in
      let edit = edit_user roles order body caller_id in
      let parsed = parse_uuid user_text >>= edit in
      Ensures-transaction Q E (raise_if refused 422 (text "the body is not valid") >> parsed) s (
        Ensures-raise_if Q E refused 422 (text "the body is not valid") parsed s tt λ _.
          parse-Ensures Q E user_text edit s tt
            λ i is_user. edit_user-IsUpdated user_text body caller_id i s is_user)
