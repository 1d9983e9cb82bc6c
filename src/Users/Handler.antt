-- ===== src/Users/Handler.antt =====
-- `create_user` and `update_user` of api/app/routers/users.py.
use mathlib.Core.Option
use cpde_web.Prelude.{
  ℕ, suc, String, Bool, true, false, not, ◌&&◌, ◌||◌, Option, none, some, List, [], ◌∷◌, ◌++◌, ◌==◌,
  any, find?, map, str_eq, is_some, update_where, if◌then◌else◌,
}
use cpde_web.Prelude.Text.{Text, text_beq, lower, strip}
use cpde_web.Prelude.Monad.{
  Tx, Result, ok, text, naming, found, require, raise_if, modify, gets, read, when, transaction,
  ◌and_then◌, ◌>>=◌, ◌>>◌,
}
use cpde_web.Store.{OrgNode, ScopeAssignment, User, Store}
use cpde_web.Scope.{IdText, parse_uuid}
use cpde_web.Users.Body.{
  UserIn, UserPatch, clean_email, is_empty, is_accepted_user, is_accepted_user_patch,
}
use cpde_web.Users.Assign.{
  check_role, visible_user, assignments, resolve_org_nodes, replace_assignments,
}

-- A user's row as it is read back, and the assignments.
abbrev pub Viewed : Type 0
Viewed = Option User × List (String × String)

abbrev pub new_user : (id : ℕ) → UserIn → User
new_user id body = record {
  id = id;
  email = clean_email body.email;
  display_name = strip body.display_name;
  is_active = true;
}

abbrev or_value : {A : Type 0} → Option A → A → A
or_value none old = old
or_value (some v) old = v

-- The columns of the UPDATE.
unfoldable pub set_user : UserPatch → User → User
set_user body u = record u {
  display_name = or_value (Option.map strip body.display_name) u.display_name;
  is_active = or_value body.is_active u.is_active;
}

abbrev pub deactivates : Option Bool → Bool
deactivates (some false) = true
deactivates _ = false

abbrev pub sets_access : UserPatch → Bool
sets_access body = is_some body.role_code || is_some body.org_unit_codes

abbrev first_role : List (String × String) → Option String
first_role [] = none
first_role (a ∷ _) = some a.1

-- `body.role_code or (current[0]["role_code"] if current else None)`
unfoldable pub role_of : Option String → List (String × String) → Option String
role_of none current = first_role current
role_of (some role_code) current =
    if str_eq role_code "" then first_role current else some role_code

abbrev pub units_of : Option (List String) → List (String × String) → List String
units_of none current = map (λ a. a.0) current
units_of (some org_unit_codes) current = org_unit_codes

module _ {N : Type 0} where
  abbrev pub is_taken_email : Text → Store N → Bool
  is_taken_email email s = any (λ u. text_beq (lower u.email) email) s.users

  abbrev pub insert_user : UserIn → Store N → Store N
  insert_user body s = record s {
    users = s.users ++ new_user s.next_id body ∷ [];
    next_id = suc s.next_id;
  }

  -- The guards on the target.
  unfoldable pub check_target : UserPatch → (caller_id user_id : ℕ) → Store N → Result User
  unfolding visible_user
  check_target body caller_id user_id s =
      found (visible_user caller_id user_id s) 404 (text "user not found") and_then λ existing.
      require (not (deactivates body.is_active && existing.id == caller_id)) 400
        (text "you cannot deactivate your own account")
      and_then λ _. ok existing

  abbrev pub update_row : UserPatch → (user_id : ℕ) → Store N → Store N
  update_row body user_id s = record s {
    users = update_where (λ u. u.id == user_id) (set_user body) s.users;
  }

module _ {N : Type 0} (roles : List String) where
  -- What is read before the INSERT.
  unfoldable pub check_user : UserIn → (caller_id : ℕ) → Store N → Result (List OrgNode)
  check_user body caller_id s = check_role roles body.role_code and_then λ _.
      resolve_org_nodes caller_id body.org_unit_codes s and_then λ nodes.
      require (not (is_taken_email (clean_email body.email) s)) 409
        (naming "a user with the email already exists" (clean_email body.email))
      and_then λ _. ok nodes

module _ {N : Type 0} (order : List ScopeAssignment → List ScopeAssignment) where
  unfoldable pub view_user : ℕ → Store N → Viewed
  unfolding assignments
  view_user user_id s = (find? (λ u. u.id == user_id) s.users, assignments order user_id s)

  unfoldable pub add_user : UserIn → List OrgNode → (user_id : ℕ) → Tx (Store N) Viewed
  unfolding replace_assignments view_user
  add_user body nodes user_id = do
    modify (insert_user body)
    replace_assignments user_id body.role_code nodes
    gets (view_user user_id)

module _ {N : Type 0} (roles : List String)
    (order : List ScopeAssignment → List ScopeAssignment) where
  unfoldable pub create_user : UserIn → (caller_id : ℕ) → Tx (Store N) Viewed
  unfolding is_accepted_user check_user check_role resolve_org_nodes add_user
  create_user body caller_id s =
      transaction
        (do
          raise_if (not (is_accepted_user body)) 422 (text "the body is not valid")
          nodes ← read (check_user roles body caller_id)
          add_user order body nodes s.next_id)
        s

  -- The role and the units that replace the assignments.
  unfoldable pub plan_access :
      UserPatch → (caller_id user_id : ℕ) → Store N → Result (String × List OrgNode)
  unfolding role_of
  plan_access body caller_id user_id s =
      let current = assignments order user_id s in
      found (role_of body.role_code current) 400
        (text "a role and at least one org unit are both required")
      and_then λ role_code.
          require (not (str_eq role_code "" || is_empty (units_of body.org_unit_codes current))) 400
            (text "a role and at least one org unit are both required")
          and_then λ _. check_role roles role_code and_then λ _.
              resolve_org_nodes caller_id (units_of body.org_unit_codes current) s and_then λ nodes.
              ok (role_code, nodes)

  unfoldable pub set_access : UserPatch → (caller_id user_id : ℕ) → Tx (Store N) (Unit {0})
  unfolding plan_access
  set_access body caller_id user_id = do
    access ← read (plan_access body caller_id user_id)
    replace_assignments user_id access.0 access.1

  unfoldable pub edit_user : UserPatch → (caller_id user_id : ℕ) → Tx (Store N) Viewed
  unfolding check_target set_access
  edit_user body caller_id user_id = do
    existing ← read (check_target body caller_id user_id)
    modify (update_row body user_id)
    when (sets_access body) (set_access body caller_id user_id)
    gets (view_user order user_id)

  unfoldable pub update_user : IdText → UserPatch → (caller_id : ℕ) → Tx (Store N) Viewed
  unfolding parse_uuid is_accepted_user_patch edit_user
  update_user user_text body caller_id = transaction (do
    raise_if (not (is_accepted_user_patch body)) 422 (text "the body is not valid")
    user_id ← parse_uuid user_text
    edit_user body caller_id user_id)
