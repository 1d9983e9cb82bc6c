-- ===== src/Scope/Tests.antt =====
-- The scope and the resolvers on the sample's tree.
use cpde_web.Prelude.{
  ℕ, ◌≡◌, ◌↔◌, ◌⊎◌, refl, true, false, none, some, List, ◌&&◌, ◌==◌, any, find?, arith,
}
use cpde_web.Prelude.Monad.{ok}
use cpde_web.Store.{OrgNode}
use cpde_web.Sample.{sample}
use cpde_web.Scope.{
  uuid, user_has_scope, is_visible_from, resolve_plan_year_node, plan_year_choice,
  resolve_license_boundary_nodes, resolve_pursuit_org_node, is_division, is_business_unit,
  is_child_of, is_assignable, visible_nodes, assignable_candidate_nodes,
}
use cpde_web.Scope.Visible.{SeesNode, user_has_scope_iff}
use cpde_web.Scope.Resolve.{
  IsOrder, is_plan_node, resolve_plan_year_node_iff, resolve_pursuit_org_node-IsLeaf,
}

user_has_scope_iff_example : (user_has_scope 7 1 sample ≡ true) ↔ ((h : ℕ) × SeesNode 7 sample h 1)
user_has_scope_iff_example = user_has_scope_iff 7 sample 1

abbrev as_stored : List OrgNode → List OrgNode
as_stored nodes = nodes

as_stored-IsOrder : IsOrder as_stored
as_stored-IsOrder p nodes = refl

resolve_plan_year_node_iff_example :
    ((resolve_plan_year_node as_stored 7 (some (uuid 1)) sample).0 ≡ ok 1) ↔ (
      (◌≡◌ {A = ℕ} 1 1)
      × (any (λ o. is_plan_node as_stored 7 sample o && o.id == 1) sample.org_nodes ≡ true))
resolve_plan_year_node_iff_example =
    resolve_plan_year_node_iff as_stored 7 sample as_stored-IsOrder 1 1

chosen_node : (resolve_plan_year_node as_stored 7 none sample).0 ≡ ok 1
unfolding resolve_plan_year_node plan_year_choice resolve_license_boundary_nodes user_has_scope
    is_visible_from
chosen_node = refl

moved : (resolve_pursuit_org_node 7 "DIV" sample).0 ≡ ok 1
unfolding resolve_pursuit_org_node assignable_candidate_nodes is_assignable visible_nodes
    user_has_scope is_visible_from
moved = refl

resolve_pursuit_org_node-IsLeaf_example :
    (o : OrgNode) × (find? (λ a. a.id == 1) sample.org_nodes ≡ some o)
    × (o.code ≡ "DIV")
    × (o.is_active ≡ true)
    × (user_has_scope 7 1 sample ≡ true)
    × (is_division o ≡ true
        ⊎ ((is_business_unit o ≡ true)
            × (any (λ c. is_division c && is_child_of 1 c) (visible_nodes 7 sample) ≡ false)))
resolve_pursuit_org_node-IsLeaf_example =
    resolve_pursuit_org_node-IsLeaf 7 sample "DIV" 1 (omega arith) moved
