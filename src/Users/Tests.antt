-- ===== src/Users/Tests.antt =====
-- A new user at the division of the sample, and an edit of the one user that it has.
use cpde_web.Prelude.{String, ◌≡◌, refl, Bool, false, Option, none, some, List, [], ◌∷◌}
use cpde_web.Prelude.Text.{codes, lower, strip, strip_left}
use cpde_web.Prelude.Monad.{http_exception, text}
use cpde_web.Prelude.Ensures.{Ensures}
use cpde_web.Store.{ScopeAssignment}
use cpde_web.Scope.{uuid, parse_uuid, user_has_scope, is_visible_from}
use cpde_web.Users.Body.{UserIn, UserPatch, is_accepted_user, is_accepted_user_patch, is_email}
use cpde_web.Users.Assign.{
  check_role, visible_user, assignments, with_codes, resolve_org_nodes, has_repeat,
  replace_assignments,
}
use cpde_web.Users.Handler.{
  check_user, view_user, add_user, create_user, check_target, plan_access, set_access, role_of,
  edit_user, update_user,
}
use cpde_web.Users.Recorded.{IsCreated, create_user-IsCreated}
use cpde_web.Users.Updated.{IsUpdated, update_user-IsUpdated}
use cpde_web.Sample.{sample}

abbrev roles : List String
roles = "admin" ∷ "capture_manager" ∷ []

abbrev in_order : List ScopeAssignment → List ScopeAssignment
in_order rows = rows

abbrev new_body : List String → UserIn
new_body org_unit_codes = record {
  email = codes " B@b.c ";
  display_name = codes "B";
  role_code = "admin";
  org_unit_codes = org_unit_codes;
}

create_user-IsCreated_example :
    Ensures
      (λ _ t. IsCreated roles (new_body ("DIV" ∷ [])) 7 sample t)
      (λ t. t ≡ sample)
      (create_user roles in_order (new_body ("DIV" ∷ [])) 7 sample)
create_user-IsCreated_example =
    create_user-IsCreated roles in_order (new_body ("DIV" ∷ [])) 7 sample

created_access :
    (create_user roles in_order (new_body ("DIV" ∷ [])) 7 sample).1.scope_assignments
    ≡ (record { user_id = 7; org_node_id = 1; role_code = "capture_manager" })
      ∷ (record { user_id = 20; org_node_id = 1; role_code = "admin" })
      ∷ []
unfolding create_user is_accepted_user is_email lower strip strip_left check_user check_role
    resolve_org_nodes user_has_scope is_visible_from add_user replace_assignments has_repeat
    view_user assignments with_codes
created_access = refl

-- The constraint on the assignments answers a unit that is named twice.
created_twice :
    (create_user roles in_order (new_body ("DIV" ∷ "DIV" ∷ [])) 7 sample).0
    ≡ http_exception 500 (text "Internal Server Error")
unfolding create_user is_accepted_user is_email lower strip strip_left check_user check_role
    resolve_org_nodes user_has_scope is_visible_from add_user replace_assignments has_repeat
    view_user assignments with_codes
created_twice = refl

abbrev patch_body : Option Bool → UserPatch
patch_body is_active = record {
  display_name = some (codes "C");
  role_code = some "admin";
  org_unit_codes = none;
  is_active = is_active;
}

update_user-IsUpdated_example :
    Ensures
      (λ _ t. IsUpdated roles in_order (uuid 7) (patch_body none) 7 sample t)
      (λ t. t ≡ sample)
      (update_user roles in_order (uuid 7) (patch_body none) 7 sample)
update_user-IsUpdated_example =
    update_user-IsUpdated roles in_order (uuid 7) (patch_body none) 7 sample

updated_access :
    (update_user roles in_order (uuid 7) (patch_body none) 7 sample).1.scope_assignments
    ≡ (record { user_id = 7; org_node_id = 1; role_code = "admin" }) ∷ []
unfolding update_user is_accepted_user_patch strip strip_left parse_uuid edit_user check_target
    visible_user user_has_scope is_visible_from set_access plan_access assignments with_codes
    role_of check_role resolve_org_nodes replace_assignments has_repeat view_user
updated_access = refl

updated_own :
    (update_user roles in_order (uuid 7) (patch_body (some false)) 7 sample).0
    ≡ http_exception 400 (text "you cannot deactivate your own account")
unfolding update_user is_accepted_user_patch strip strip_left parse_uuid edit_user check_target
    visible_user user_has_scope is_visible_from
updated_own = refl
