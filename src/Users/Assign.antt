-- ===== src/Users/Assign.antt =====
-- The units and the role of a user: `_visible_user`, `_assignments`, `_resolve_org_nodes`, `_role_id` and
-- `_replace_assignments` of api/app/routers/users.py.
use cpde_web.Prelude.{
  ℕ, String, Bool, false, not, ◌&&◌, ◌||◌, Option, none, some, List, [], ◌∷◌, ◌++◌, ◌==◌, any,
  find?, keep, map, str_eq,
}
use cpde_web.Prelude.Text.{codes}
use cpde_web.Prelude.Monad.{
  Tx, Result, ok, text, naming, found, require, raise_if, modify, ◌and_then◌, ◌>>◌,
}
use cpde_web.Store.{OrgNode, ScopeAssignment, User, Store}
use cpde_web.Scope.{user_has_scope}

-- `uq_user_scope`: one role, so a unit that comes twice.
unfoldable pub has_repeat : List OrgNode → Bool
has_repeat [] = false
has_repeat (o ∷ nodes) = any (λ x. x.id == o.id) nodes || has_repeat nodes

abbrev pub assign : (user_id : ℕ) → (role_code : String) → OrgNode → ScopeAssignment
assign user_id role_code node = record {
  user_id = user_id;
  org_node_id = node.id;
  role_code = role_code;
}

unfoldable pub check_role : (roles : List String) → (role_code : String) → Result (Unit {0})
check_role roles role_code =
    require (any (str_eq role_code) roles) 400 (naming "unknown role" (codes role_code))

-- The unit's code and the role of each.
unfoldable pub with_codes : List ScopeAssignment → List OrgNode → List (String × String)
with_codes [] org_nodes = []
with_codes (a ∷ rows) org_nodes = elim (find? (λ o. o.id == a.org_node_id) org_nodes) [
  | none ↦ with_codes rows org_nodes
  | some o ↦ (o.code, a.role_code) ∷ with_codes rows org_nodes
]

module _ {N : Type 0} where
  unfoldable pub visible_user : (caller_id user_id : ℕ) → Store N → Option User
  visible_user caller_id user_id s =
      find?
        (λ u.
          u.id == user_id
          && any (λ a. a.user_id == u.id && user_has_scope caller_id a.org_node_id s)
              s.scope_assignments)
        s.users

  abbrev pub own_assignments : ℕ → Store N → List ScopeAssignment
  own_assignments user_id s = keep (λ a. a.user_id == user_id) s.scope_assignments

  unfoldable pub assignments :
      (order : List ScopeAssignment → List ScopeAssignment) → ℕ → Store N → List (String × String)
  unfolding with_codes
  assignments order user_id s = with_codes (order (own_assignments user_id s)) s.org_nodes

  unfoldable pub resolve_org_nodes : (caller_id : ℕ) → List String → Store N → Result (List OrgNode)
  resolve_org_nodes caller_id [] s = ok []
  resolve_org_nodes caller_id (code ∷ rest) s =
      found (find? (λ o. str_eq o.code code && user_has_scope caller_id o.id s) s.org_nodes) 404
        (naming "org unit not found in your scope" (codes code))
      and_then λ o. resolve_org_nodes caller_id rest s and_then λ nodes. ok (o ∷ nodes)

  -- DELETE, then INSERT of each.
  abbrev pub grant : (user_id : ℕ) → (role_code : String) → List OrgNode → Store N → Store N
  grant user_id role_code nodes s = record s {
    scope_assignments =
        keep (λ a. not (a.user_id == user_id)) s.scope_assignments
        ++ map (assign user_id role_code) nodes;
  }

  -- A violation of the constraint is an error that no handler catches.
  unfoldable pub replace_assignments :
      (user_id : ℕ) → (role_code : String) → List OrgNode → Tx (Store N) (Unit {0})
  unfolding has_repeat
  replace_assignments user_id role_code nodes = do
    raise_if (has_repeat nodes) 500 (text "Internal Server Error")
    modify (grant user_id role_code nodes)
