-- ===== src/Scope/Resolve.antt =====
-- The candidate sets of the resolvers of api/app/plan_scope.py.
use cpde_web.Prelude.{
  ◌≤◌, none_not_some, some_inj, ℕ, ◌≡◌, refl, sym, ap, ◌∙◌, ◌↔◌, ◌⊎◌, Bool, true, false, not, ◌&&◌,
  ◌||◌, Option, none, some, String, List, [], ◌∷◌, arith, ◌==◌, ==_iff, str_eq, eq_iff, length,
  find?, any, count, keep, is_some, inl, inr, Option-cases, Bool-cases,
}
use mathlib.Core.Path.{subst}
use cpde_web.Prelude.Monad.{Detail, ok, text, pure, ◌>>=◌, or_raise, or_raise-ok}
use cpde_web.Store.Rows.{
  find?-passes, find?-keep, find?-key, count-keep, any-count, count-any, find?-any, any-find?,
  length-count, count-keep_all,
}
use cpde_web.Store.{OrgNode, User, Store}
use cpde_web.Scope.{
  uuid, pick_node, user_has_scope, resolve_license_boundary_nodes, resolve_plan_year_node,
  plan_year_choice, is_division, is_business_unit, is_child_of, visible_nodes, is_assignable,
  assignable_candidate_nodes, resolve_pursuit_org_node,
}

-- An `ORDER BY` loses no row and adds none.
abbrev pub IsOrder : (List OrgNode → List OrgNode) → Type 0
IsOrder order = (p : OrgNode → Bool) (l : List OrgNode) → count p (order l) ≡ count p l

abbrev picked : Option OrgNode → Option ℕ
picked none = none
picked (some o) = some o.id

-- The user that was found answers for the id that was asked for.
abbrev chosen : ℕ → Option User → Option ℕ
chosen i none = none
chosen i (some u) = some i

module _ {N : Type 0} (order : List OrgNode → List OrgNode) (user_id : ℕ) (s : Store N) where
  -- A node that the user may plan for: in scope, active, and a license boundary or the root.
  abbrev pub is_plan_node : OrgNode → Bool
  is_plan_node o =
      user_has_scope user_id o.id s
      && ((o.is_license_boundary || not (is_some o.parent_id)) && o.is_active)

  any-candidates :
      IsOrder order
      → (p : OrgNode → Bool) → any p (resolve_license_boundary_nodes order user_id s) ≡ true
      → any (λ o. is_plan_node o && p o) s.org_nodes ≡ true
  unfolding resolve_license_boundary_nodes
  any-candidates ordered p h =
      let c = any-count p (order (keep is_plan_node s.org_nodes)) h in
      count-any (λ o. is_plan_node o && p o) s.org_nodes
        (omega
          (arith, ordered p (keep is_plan_node s.org_nodes), count-keep p is_plan_node s.org_nodes))

  candidates-any :
      IsOrder order
      → (p : OrgNode → Bool) → any (λ o. is_plan_node o && p o) s.org_nodes ≡ true
      → any p (resolve_license_boundary_nodes order user_id s) ≡ true
  unfolding resolve_license_boundary_nodes
  candidates-any ordered p h =
      let c = any-count (λ o. is_plan_node o && p o) s.org_nodes h in
      count-any p (order (keep is_plan_node s.org_nodes)) (
        omega
          (arith, ordered p (keep is_plan_node s.org_nodes), count-keep p is_plan_node s.org_nodes))

  pick_node-some :
      (i n : ℕ) (nodes : List OrgNode)
      → pick_node (uuid i) nodes ≡ some n
      → (i ≡ n) × (any (λ o. o.id == i) nodes ≡ true)
  pick_node-some i n nodes h = elim (Option-cases (find? (λ o. o.id == i) nodes)) [
    | inl e ↦ absurd (none_not_some (sym (ap picked e) ∙ h))
    | inr (q, e) ↦ (
      sym ((==_iff q.id i).0 (find?-passes (λ o. o.id == i) nodes q e))
          ∙ some_inj (sym (ap picked e) ∙ h),
      find?-any (λ o. o.id == i) nodes q e,
    )
  ]

  pick_node-back :
      (i : ℕ) (nodes : List OrgNode)
      → any (λ o. o.id == i) nodes ≡ true
      → pick_node (uuid i) nodes ≡ some i
  pick_node-back i nodes h =
      let (q, e, pq) = any-find? (λ o. o.id == i) nodes h in
      ap picked e ∙ ap some ((==_iff q.id i).0 pq)

  choice_uuid :
      (i n : ℕ) (nodes : List OrgNode)
      → (plan_year_choice (some (uuid i)) nodes s).0 ≡ ok n
      → (i ≡ n) × (any (λ o. o.id == i) nodes ≡ true)
  unfolding plan_year_choice
  choice_uuid i n [] h = cc
  choice_uuid i n (o ∷ nodes) h = pick_node-some i n (o ∷ nodes) (
      or_raise-ok 404 (text "business unit not found in your scope") s
        (pick_node (uuid i) (o ∷ nodes)) n h)

  choice_uuid_back :
      (i : ℕ) (nodes : List OrgNode)
      → any (λ o. o.id == i) nodes ≡ true
      → (plan_year_choice (some (uuid i)) nodes s).0 ≡ ok i
  unfolding plan_year_choice
  choice_uuid_back i [] h = cc
  choice_uuid_back i (o ∷ nodes) h =
      ap (λ c. (or_raise c 404 (text "business unit not found in your scope") s).0)
        (pick_node-back i (o ∷ nodes) h)

  -- Where the sort keeps the number of nodes that pass each test, a named business unit is
  -- accepted exactly if it is in scope, active, and a license boundary or the root, and it is then
  -- the one that is used.
  pub resolve_plan_year_node_iff :
      IsOrder order
      → (i n : ℕ)
      → ((resolve_plan_year_node order user_id (some (uuid i)) s).0 ≡ ok n)
        ↔ ((i ≡ n) × (any (λ o. is_plan_node o && o.id == i) s.org_nodes ≡ true))
  unfolding resolve_plan_year_node
  resolve_plan_year_node_iff ordered i n =
      let nodes = resolve_license_boundary_nodes order user_id s in
      (
        (λ h.
            let (e, a) = choice_uuid i n nodes h in (e, any-candidates ordered (λ o. o.id == i) a)),
        (λ h. choice_uuid_back i nodes (candidates-any ordered (λ o. o.id == i) h.1) ∙ ap ok h.0),
      )

  choice_none :
      (n : ℕ) (nodes : List OrgNode)
      → (plan_year_choice none nodes s).0 ≡ ok n
      → (length nodes ≡ 1) × (any (λ o. o.id == n) nodes ≡ true)
  unfolding plan_year_choice
  choice_none n [] h = cc
  choice_none n (o ∷ []) h = (refl, ground (arith, ==_iff o.id n))
  choice_none n (o ∷ p ∷ nodes) h = cc

  -- Where the sort keeps the number of nodes that pass each test, a business unit is chosen
  -- without being named only if it is the only one that the user may plan for.
  pub resolve_plan_year_node_single :
      IsOrder order
      → (n : ℕ) → (resolve_plan_year_node order user_id none s).0 ≡ ok n
      → (count is_plan_node s.org_nodes ≡ 1)
        × (any (λ o. is_plan_node o && o.id == n) s.org_nodes ≡ true)
  unfolding resolve_plan_year_node resolve_license_boundary_nodes
  resolve_plan_year_node_single ordered n h =
      let nodes = resolve_license_boundary_nodes order user_id s in
      let (one, a) = choice_none n nodes h in
      (
        omega (
          arith,
          length-count nodes,
          ordered (λ o. true) (keep is_plan_node s.org_nodes),
          count-keep_all is_plan_node s.org_nodes,
        ),
        any-candidates ordered (λ o. o.id == n) a,
      )

module _ {N : Type 0} (user_id : ℕ) (s : Store N) where
  found_node :
      (code : ℕ) (detail : Detail) (x : Option OrgNode) (n : ℕ)
      → ((or_raise x code detail >>= λ node. pure node.id) s).0 ≡ ok n
      → (o : OrgNode) × (x ≡ some o) × (o.id ≡ n)
  found_node code detail none n h = cc
  found_node code detail (some o) n h = (o, refl, cc)

  leaf_of :
      (org_unit_code : String) (o : OrgNode)
      → (is_assignable (visible_nodes user_id s) o && str_eq o.code org_unit_code) ≡ true
      → (o.code ≡ org_unit_code)
        × (is_division o ≡ true
            ⊎ ((is_business_unit o ≡ true)
                × (any (λ c. is_division c && is_child_of o.id c) (visible_nodes user_id s)
                    ≡ false)))
  unfolding is_assignable
  leaf_of org_unit_code o t = elim (Bool-cases (is_division o)) [
    | inl d ↦ (ground (arith, eq_iff o.code org_unit_code), inl d)
    | inr nd ↦ (ground (arith, eq_iff o.code org_unit_code), inr (ground arith, ground arith))
  ]

  -- Where at most one unit has the id that a code resolves to, the row of the store with that id
  -- has the given code, is active and in the scope of the user, and is a division, or a business
  -- unit that has no division below it among the units that the user sees.
  pub resolve_pursuit_org_node-IsLeaf :
      (org_unit_code : String) (n : ℕ)
      → count (λ o. o.id == n) s.org_nodes ≤ 1
      → (resolve_pursuit_org_node user_id org_unit_code s).0 ≡ ok n
      → (o : OrgNode) × (find? (λ a. a.id == n) s.org_nodes ≡ some o)
        × (o.code ≡ org_unit_code)
        × (o.is_active ≡ true)
        × (user_has_scope user_id n s ≡ true)
        × (is_division o ≡ true
            ⊎ ((is_business_unit o ≡ true)
                × (any (λ c. is_division c && is_child_of n c) (visible_nodes user_id s) ≡ false)))
  unfolding resolve_pursuit_org_node assignable_candidate_nodes visible_nodes
  resolve_pursuit_org_node-IsLeaf org_unit_code n one h =
      let visible = visible_nodes user_id s in
      let named = λ (o : OrgNode). str_eq o.code org_unit_code in
      let sees = λ (c : OrgNode). c.is_active && user_has_scope user_id c.id s in
      let both = λ (a : OrgNode). is_assignable visible a && named a in
      let all = λ (a : OrgNode). sees a && both a in
      let (o, e, same) =
        found_node 404 (text "org unit not found in your scope")
          (find? named (keep (is_assignable visible) visible)) n h in
      let f = sym (find?-keep named (is_assignable visible) visible) ∙ e in
      let g = sym (find?-keep both sees s.org_nodes) ∙ f in
      let passes = find?-passes all s.org_nodes o g in
      let (code, leaf) = leaf_of org_unit_code o (find?-passes both visible o f) in
      (
        o,
        find?-key all (λ a. a.id == n) o s.org_nodes g ((==_iff o.id n).1 same) one,
        code,
        ground arith,
        subst (λ k. user_has_scope user_id k s ≡ true) same (ground arith),
        subst
            (λ k.
              is_division o ≡ true
              ⊎ ((is_business_unit o ≡ true)
                  × (any (λ c. is_division c && is_child_of k c) visible ≡ false)))
            same leaf,
      )
