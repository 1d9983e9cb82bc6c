-- ===== src/Users/Planned.antt =====
-- What the reads of `update_user` (api/app/routers/users.py) make sure of: the target, and the access that
-- replaces the target's.
use mathlib.Core.Path.{subst}
use cpde_web.Prelude.{
  ℕ, String, ◌≡◌, ap, ◌∙◌, true, false, not, ◌&&◌, ◌||◌, some, List, ◌==◌, ==_iff, All, arith, any,
  str_eq,
}
use cpde_web.Prelude.Monad.{Result, ok, text, require, ◌and_then◌}
use cpde_web.Prelude.Ensures.{
  Holds, holds_ok, require_then, found_then, and_then_ok, ok_inj, negated,
}
use cpde_web.Store.{OrgNode, ScopeAssignment, User, Store}
use cpde_web.Store.Rows.{find?-passes}
use cpde_web.Scope.{user_has_scope}
use cpde_web.Users.Body.{UserPatch, is_empty}
use cpde_web.Users.Assign.{check_role, visible_user, assignments, resolve_org_nodes}
use cpde_web.Users.Handler.{deactivates, role_of, units_of, check_target, plan_access}
use cpde_web.Users.Granted.{resolve_org_nodes-ok}
use cpde_web.Users.Recorded.{check_role-ok}

module _ {N : Type 0} where
  -- The user is visible to the caller, who is another one where the user is deactivated.
  unfoldable pub IsTarget : UserPatch → (caller_id user_id : ℕ) → Store N → User → Type 0
  IsTarget body caller_id user_id s existing =
      (visible_user caller_id user_id s ≡ some existing)
      × ((deactivates body.is_active && user_id == caller_id) ≡ false)

  pub check_target-IsTarget :
      (body : UserPatch) (caller_id user_id : ℕ) (s : Store N)
      → Holds (IsTarget body caller_id user_id s) (check_target body caller_id user_id s)
  unfolding check_target IsTarget visible_user
  check_target-IsTarget body caller_id user_id s =
      holds_ok (IsTarget body caller_id user_id s) (check_target body caller_id user_id s) target
    where
      target :
          (u : User)
          → check_target body caller_id user_id s ≡ ok u
          → IsTarget body caller_id user_id s u
      target u h =
          let guard = λ (v : User). not (deactivates body.is_active && v.id == caller_id) in
          let own = text "you cannot deactivate your own account" in
          let p = λ (v : User).
            v.id == user_id
            && any (λ a. a.user_id == v.id && user_has_scope caller_id a.org_node_id s)
                s.scope_assignments in
          let (v, e, h1) =
            found_then (visible_user caller_id user_id s) 404 (text "user not found")
              (λ v. require (guard v) 400 own and_then λ _. ok v) h in
          let (g, h2) = require_then (guard v) 400 own h1 in
          let same = (==_iff v.id user_id).0 (ground (arith, find?-passes p s.users v e)) in
          (
            e ∙ ap some (ok_inj h2),
            subst (λ i. (deactivates body.is_active && i == caller_id) ≡ false) same
                (negated (deactivates body.is_active && v.id == caller_id) g),
          )

module _ {N : Type 0} (roles : List String)
    (order : List ScopeAssignment → List ScopeAssignment) where
  -- A known role, and units of the caller's scope.
  unfoldable pub IsPlanned :
      UserPatch → (caller_id user_id : ℕ) → Store N → String × List OrgNode → Type 0
  IsPlanned body caller_id user_id s x =
      (role_of body.role_code (assignments order user_id s) ≡ some x.0)
      × (any (str_eq x.0) roles ≡ true)
      × All (λ (o : OrgNode). user_has_scope caller_id o.id s ≡ true) x.1

  pub plan_access-IsPlanned :
      (body : UserPatch) (caller_id user_id : ℕ) (s : Store N)
      → Holds
          (IsPlanned body caller_id user_id s)
          (plan_access roles order body caller_id user_id s)
  unfolding plan_access IsPlanned
  plan_access-IsPlanned body caller_id user_id s =
      holds_ok (IsPlanned body caller_id user_id s)
        (plan_access roles order body caller_id user_id s) planned
    where
      planned :
          (x : String × List OrgNode)
          → plan_access roles order body caller_id user_id s ≡ ok x
          → IsPlanned body caller_id user_id s x
      planned x h =
          let current = assignments order user_id s in
          let names = units_of body.org_unit_codes current in
          let detail = text "a role and at least one org unit are both required" in
          let k = λ (role_code : String) (os : List OrgNode). Result.ok (role_code, os) in
          let rest = λ (role_code : String). check_role roles role_code and_then λ _.
          resolve_org_nodes caller_id names s and_then k role_code in
          let given = λ (role_code : String). not (str_eq role_code "" || is_empty names) in
          let (role_code, e, h1) =
            found_then (role_of body.role_code current) 400 detail
              (λ role_code. require (given role_code) 400 detail and_then λ _. rest role_code) h in
          let (g, h2) = require_then (given role_code) 400 detail h1 in
          let (known, h3) =
            check_role-ok roles role_code (resolve_org_nodes caller_id names s and_then k role_code)
              h2 in
          let (os, e4, h4) = and_then_ok (resolve_org_nodes caller_id names s) (k role_code) h3 in
          subst (IsPlanned body caller_id user_id s) (ok_inj h4)
            (e, known, resolve_org_nodes-ok caller_id names s os e4)
