-- ===== src/Scope.antt =====
-- Who sees what: the scope functions of ddl/07_scope.sql, and the resolvers of
-- api/app/plan_scope.py that check an id or code of the caller against a candidate set.
-- A text that should hold a UUID is `blank`, `malformed`, or the id that `UUID(...)` reads.
pub mod Parse
pub mod Visible
pub mod Resolve
mod Tests
use cpde_web.Prelude.{
  ℕ, zero, suc, String, Bool, true, false, Option, none, some, List, [], ◌∷◌, ◌==◌, ◌&&◌, ◌||◌, not,
  str_eq, if◌then◌else◌, length, find?, any, keep, map, is_some, ltb, reverse,
}
use cpde_web.Prelude.Monad.{
  Tx, Detail, text, ambiguous_business_unit, pure, raise, gets, or_raise, ◌>>=◌, ◌>>◌, raise_if,
}
use cpde_web.Store.{
  NodeType, business, business_unit, division, OrgNode, ScopeAssignment, User, Pursuit, Store,
}

pub data IdText : Type 0 where
  blank malformed : IdText
  uuid : ℕ → IdText

-- `_uuid` of api/app/routers_common.py
unfoldable pub parse_uuid : {S : Type 0} → IdText → Tx S ℕ
parse_uuid (uuid i) = pure i
parse_uuid blank = raise 404 (text "not found")
parse_uuid malformed = raise 404 (text "not found")

-- A picker's list leaves the test fixtures out.
unfoldable pub exclude_test_fixtures : List OrgNode → List OrgNode
exclude_test_fixtures nodes = keep (λ o. not o.is_test_fixture) nodes

abbrev pub candidate_payload : List OrgNode → List (ℕ × String × String)
candidate_payload nodes = map (λ o. (o.id, o.code, o.name)) nodes

-- The candidate that a caller's text names.
abbrev pub pick_node : IdText → List OrgNode → Option ℕ
pick_node (uuid wanted) nodes = elim (find? (λ o. o.id == wanted) nodes) [
  | none ↦ none
  | some o ↦ some o.id
]
pick_node _ nodes = none

-- `_assignable_candidate_nodes`: the divisions, and the business units without one.
abbrev pub is_division : OrgNode → Bool
is_division o = elim o.node_type [ division ↦ true | business ↦ false | business_unit ↦ false ]

abbrev pub is_business_unit : OrgNode → Bool
is_business_unit o = elim o.node_type [ business_unit ↦ true | business ↦ false | division ↦ false ]

abbrev pub is_child_of : ℕ → OrgNode → Bool
is_child_of id o = elim o.parent_id [ none ↦ false | some p ↦ p == id ]

unfoldable pub is_assignable : List OrgNode → OrgNode → Bool
is_assignable visible o =
    is_division o
    || (is_business_unit o && not (any (λ c. is_division c && is_child_of o.id c) visible))

module _ {N : Type 0} where
  abbrev pub node_of : ℕ → Store N → Option OrgNode
  node_of id s = find? (λ o. o.id == id) s.org_nodes

  abbrev pub is_assigned : ℕ → ℕ → Store N → Bool
  is_assigned user_id node_id s =
      any (λ a. a.user_id == user_id && a.org_node_id == node_id) s.scope_assignments

  -- `fn_user_visible_org_nodes`: a node is in the set if it is active, and assigned or the child of a
  -- node in the set. The walk goes up from the node; the fuel bounds the height of the tree.
  unfoldable pub is_visible_from : ℕ → ℕ → ℕ → Store N → Bool
  is_visible_from zero user_id node_id s = false
  is_visible_from (suc fuel) user_id node_id s = elim (node_of node_id s) [
    | none ↦ false
    | some o ↦
        o.is_active
        && (is_assigned user_id node_id s
            || elim o.parent_id [ none ↦ false | some p ↦ is_visible_from fuel user_id p s ])
  ]

  -- `fn_user_has_scope`
  unfoldable pub user_has_scope : ℕ → ℕ → Store N → Bool
  user_has_scope user_id node_id s = is_visible_from (length s.org_nodes) user_id node_id s

  -- `SCOPED`: the pursuit is in `fn_user_pursuits`.
  unfoldable pub scoped : ℕ → Store N → Pursuit N → Bool
  unfolding user_has_scope
  scoped user_id s p = p.is_active && user_has_scope user_id p.org_node_id s

  -- `SELECT ... FROM pursuit p WHERE p.id = %s AND {SCOPED}`
  abbrev pub scoped_pursuit : ℕ → ℕ → Store N → Option (Pursuit N)
  scoped_pursuit pursuit_id user_id s =
      find? (λ p. p.id == pursuit_id && scoped user_id s p) s.pursuits

  -- The query's `ORDER BY` puts the root first and then goes by code; the parameter is that order.
  unfoldable pub resolve_license_boundary_nodes :
      (order : List OrgNode → List OrgNode) → ℕ → Store N → List OrgNode
  resolve_license_boundary_nodes order user_id s = order (
      keep
        (λ o.
          user_has_scope user_id o.id s
          && ((o.is_license_boundary || not (is_some o.parent_id)) && o.is_active))
        s.org_nodes)

  plan_year_choice : Option IdText → List OrgNode → Tx (Store N) ℕ
  plan_year_choice wanted [] = raise 403 (text "no business unit in scope")
  plan_year_choice none (o ∷ []) = pure o.id
  plan_year_choice none (o ∷ nodes) =
      raise 409 (ambiguous_business_unit (candidate_payload (o ∷ nodes)))
  plan_year_choice (some blank) (o ∷ []) = pure o.id
  plan_year_choice (some blank) (o ∷ nodes) =
      raise 409 (ambiguous_business_unit (candidate_payload (o ∷ nodes)))
  plan_year_choice (some wanted) nodes =
      or_raise (pick_node wanted nodes) 404 (text "business unit not found in your scope")

  unfoldable pub resolve_plan_year_node :
      (order : List OrgNode → List OrgNode) → ℕ → Option IdText → Tx (Store N) ℕ
  unfolding plan_year_choice
  resolve_plan_year_node order user_id wanted s =
      plan_year_choice wanted (resolve_license_boundary_nodes order user_id s) s

  unfoldable pub visible_nodes : ℕ → Store N → List OrgNode
  visible_nodes user_id s = keep (λ o. o.is_active && user_has_scope user_id o.id s) s.org_nodes

  unfoldable pub assignable_candidate_nodes : ℕ → Store N → List OrgNode
  unfolding visible_nodes is_assignable
  assignable_candidate_nodes user_id s =
      let visible = visible_nodes user_id s in keep (is_assignable visible) visible

  unfoldable pub resolve_pursuit_org_node : ℕ → String → Tx (Store N) ℕ
  resolve_pursuit_org_node user_id org_unit_code s =
      (do
        node ←
            or_raise
              (find? (λ o. str_eq o.code org_unit_code) (assignable_candidate_nodes user_id s)) 404
              (text "org unit not found in your scope")
        pure node.id)
        s

  -- The active users whose own scope covers the node.
  unfoldable pub owner_candidates : ℕ → Store N → List User
  owner_candidates org_node_id s =
      keep (λ u. u.is_active && user_has_scope u.id org_node_id s) s.users

  abbrev pub owner_of_text : IdText → ℕ → Store N → Option ℕ
  owner_of_text (uuid wanted) org_node_id s =
      elim (find? (λ u. u.id == wanted) (owner_candidates org_node_id s)) [
        | none ↦ none
        | some u ↦ some wanted
      ]
  owner_of_text _ org_node_id s = none

  unfoldable pub resolve_pursuit_owner : ℕ → IdText → Tx (Store N) ℕ
  resolve_pursuit_owner org_node_id owner_user_id s =
      or_raise (owner_of_text owner_user_id org_node_id s) 404
        (text "owner not found in this pursuit's scope") s

  -- `_label_path`: names from the nearest license boundary down to the node. The fuel bounds the
  -- depth of the tree.
  label_chain : ℕ → OrgNode → Store N → List String
  label_chain zero o s = o.name ∷ []
  label_chain (suc fuel) o s = if o.is_license_boundary then o.name ∷ [] else elim o.parent_id [
    | none ↦ o.name ∷ []
    | some p ↦ elim (find? (λ q. q.id == p && q.is_active) s.org_nodes) [
      | none ↦ o.name ∷ []
      | some parent ↦ o.name ∷ label_chain fuel parent s
    ]
  ]

  unfoldable pub label_path : OrgNode → Store N → List String
  unfolding label_chain
  label_path o s = reverse (label_chain (length s.org_nodes) o s)
