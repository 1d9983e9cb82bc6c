-- ===== src/Patch/Stale.antt =====
-- The comparison of the lost-update guard of `patch_pursuit` (api/app/routers/write.py), and the errors of
-- the steps after it, none of which is the guard's.
use cpde_web.Prelude.{
  ℕ, ◌+◌, ◌<◌, ◌≡◌, ◌↔◌, ◌⊎◌, String, Bool, true, false, Option, none, some, List, arith, find?,
  ◌==◌,
}
use cpde_web.Prelude.Monad.{
  text, ambiguous_business_unit, modified, bid_required, naming, Result, ok, http_exception, Tx,
  pure, or_raise, raise_if, require, found, ◌and_then◌, ◌>>=◌, ◌>>◌,
}
use cpde_web.Store.{Pursuit, Store}
use cpde_web.Scope.{
  IdText, resolve_pursuit_org_node, resolve_pursuit_owner, assignable_candidate_nodes,
  owner_of_text,
}
use cpde_web.Dependency.{
  resolve_pursuit_dependency, is_lpta, dependency_candidates, has_text, chain_hits, chain_cap,
  deps_of,
}
use cpde_web.Patch.Body.{Sent, PursuitPatch, is_stale}
use cpde_web.Patch.Plan.{
  RefRow, References, resolve_code, resolve_org, resolve_owner, resolve_dependency, resolve_fields,
}

-- More than a millisecond between the expected time, if there is one, and that of the row.
abbrev pub IsApart : Option ℕ → ℕ → Type 0
IsApart none updated_at = ⊥
IsApart (some expected) updated_at = (expected + 1000 < updated_at) ⊎ (updated_at + 1000 < expected)

pub is_stale_iff :
    (expected : Option ℕ) (updated_at : ℕ)
    → (is_stale expected updated_at ≡ true) ↔ IsApart expected updated_at
unfolding is_stale
is_stale_iff none updated_at = ((λ e. cc), (λ h. absurd h))
is_stale_iff (some expected) updated_at = ((λ e. ground arith), (λ h. ground arith))

-- Another answer than that of the guard.
abbrev pub IsOther : {A : Type 0} → Result A → Type 0
IsOther (ok a) = Unit
IsOther (http_exception code (text message)) = Unit
IsOther (http_exception code (ambiguous_business_unit nodes)) = Unit
IsOther (http_exception code (modified changed_by changed_at)) = ⊥
IsOther (http_exception code (bid_required decision)) = Unit
IsOther (http_exception code (naming message value)) = Unit

pub IsOther-then :
    {A B : Type 0} (r : Result A) (f : A → Result B)
    → IsOther r
    → ((a : A) → IsOther (f a))
    → IsOther (r and_then f)
IsOther-then (ok a) f h g = g a
IsOther-then (http_exception code (text message)) f h g = tt
IsOther-then (http_exception code (ambiguous_business_unit nodes)) f h g = tt
IsOther-then (http_exception code (modified changed_by changed_at)) f h g = absurd h
IsOther-then (http_exception code (bid_required decision)) f h g = tt
IsOther-then (http_exception code (naming message value)) f h g = tt

pub IsOther-require :
    (c : Bool) (code : ℕ) (message : String) → IsOther (require c code (text message))
IsOther-require true code message = tt
IsOther-require false code message = tt

pub IsOther-found :
    {A : Type 0} (o : Option A) (code : ℕ) (message : String)
    → IsOther (found o code (text message))
IsOther-found none code message = tt
IsOther-found (some a) code message = tt

module _ {S A B : Type 0} where
  IsOther-or_raise :
      (o : Option A) (code : ℕ) (message : String) (k : A → Tx S B) (s : S)
      → ((a : A) → IsOther (k a s).0)
      → IsOther ((or_raise o code (text message) >>= k) s).0
  IsOther-or_raise none code message k s h = tt
  IsOther-or_raise (some a) code message k s h = h a

module _ {S B : Type 0} where
  IsOther-raise_if :
      (c : Bool) (code : ℕ) (message : String) (k : Tx S B) (s : S)
      → IsOther (k s).0
      → IsOther ((raise_if c code (text message) >> k) s).0
  IsOther-raise_if true code message k s h = tt
  IsOther-raise_if false code message k s h = h

IsOther-resolved :
    {S : Type 0} (o : Option ℕ) (code : ℕ) (message : String) (s : S)
    → IsOther (or_raise o code (text message) s).0
IsOther-resolved none code message s = tt
IsOther-resolved (some n) code message s = tt

resolve_code-IsOther :
    {A : Type 0} (key : String) (rows : List (RefRow A)) (sent : Sent String)
    → IsOther (resolve_code key rows sent)
unfolding resolve_code
resolve_code-IsOther key rows none = tt
resolve_code-IsOther key rows (some none) = tt
resolve_code-IsOther key rows (some (some code)) =
    IsOther-then (found (find? _ rows) 400 (text key)) (λ r. ok (some (some r.value)))
      (IsOther-found (find? _ rows) 400 key) λ r. tt

module _ {N : Type 0} (user_id : ℕ) (s : Store N) where
  resolve_org-IsOther : (sent : Sent String) → IsOther (resolve_org user_id sent s)
  unfolding resolve_org resolve_pursuit_org_node
  resolve_org-IsOther none = tt
  resolve_org-IsOther (some none) = tt
  resolve_org-IsOther (some (some code)) =
      IsOther-then (resolve_pursuit_org_node user_id code s).0 (λ n. ok (some n))
        (IsOther-or_raise (find? _ (assignable_candidate_nodes user_id s)) 404
          "org unit not found in your scope" (λ node. pure node.id) s λ o. tt)
        λ n. tt

  resolve_owner-IsOther :
      (org_node_id : ℕ) (sent : Sent IdText) → IsOther (resolve_owner org_node_id sent s)
  unfolding resolve_owner resolve_pursuit_owner
  resolve_owner-IsOther org_node_id none = tt
  resolve_owner-IsOther org_node_id (some none) = tt
  resolve_owner-IsOther org_node_id (some (some owner)) =
      IsOther-then (resolve_pursuit_owner org_node_id owner s).0 (λ u. ok (some (some u)))
        (IsOther-resolved (owner_of_text owner org_node_id s) 404
          "owner not found in this pursuit's scope" s)
        λ u. tt

  resolve_dependency-IsOther :
      (pursuit_id : ℕ) (clears : Bool) (sent : Sent String)
      → IsOther (resolve_dependency pursuit_id user_id clears sent s)
  unfolding resolve_dependency resolve_pursuit_dependency
  resolve_dependency-IsOther pursuit_id clears none = tt
  resolve_dependency-IsOther pursuit_id clears (some none) = tt
  resolve_dependency-IsOther pursuit_id clears (some (some uid)) =
      let k2 = λ (target : Pursuit N).
        raise_if (chain_hits chain_cap (deps_of s) target.id pursuit_id) 400
          (text "this would create a dependency cycle")
        >> pure target.id in
      let k1 = λ (target : Pursuit N).
        raise_if (target.id == pursuit_id) 400 (text "a pursuit cannot depend on itself")
        >> k2 target in
      let x =
        find? (λ (p : Pursuit N). has_text uid p.external_opportunity_id)
          (dependency_candidates user_id s) in
      let k0 = or_raise x 404 (text "dependency target not found in your scope") >>= k1 in
      IsOther-then (resolve_pursuit_dependency pursuit_id user_id uid s).0 (λ t. ok (some (some t)))
        (IsOther-raise_if (is_lpta pursuit_id s) 400 "an LPTA pursuit cannot have a dependency" k0 s
          (IsOther-or_raise x 404 "dependency target not found in your scope" k1 s λ target.
            IsOther-raise_if (target.id == pursuit_id) 400 "a pursuit cannot depend on itself"
              (k2 target) s
              (IsOther-raise_if (chain_hits chain_cap (deps_of s) target.id pursuit_id) 400
                "this would create a dependency cycle" (pure target.id) s tt)))
        λ t. tt

  pub resolve_fields-IsOther :
      (refs : References) (pursuit_id : ℕ) (body : PursuitPatch N) (existing : Pursuit N)
      → IsOther (resolve_fields refs pursuit_id user_id body existing s)
  unfolding resolve_fields
  resolve_fields-IsOther refs pursuit_id body existing =
      IsOther-then _ _ (resolve_code-IsOther "market_code" refs.markets body.market_code) λ m.
        IsOther-then _ _
          (resolve_code-IsOther "opportunity_type_code" refs.opportunity_types
            body.opportunity_type_code)
          λ t.
            IsOther-then _ _
              (resolve_code-IsOther "contract_type_code" refs.contract_types
                body.contract_type_code)
              λ c.
                IsOther-then _ _
                  (resolve_code-IsOther "pipeline_stage_code" refs.pipeline_stages
                    body.pipeline_stage_code)
                  λ p. IsOther-then _ _ (resolve_org-IsOther body.org_unit_code) λ n.
                    IsOther-then _ _ (resolve_owner-IsOther _ body.owner_user_id) λ o.
                      IsOther-then _ _
                        (IsOther-require _ 400 "a sole source pursuit cannot have a dependency")
                        λ u.
                          IsOther-then _ _
                            (resolve_dependency-IsOther pursuit_id _ body.depends_on_opp_id) λ d. tt
