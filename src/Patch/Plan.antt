-- ===== src/Patch/Plan.antt =====
-- `patch_pursuit` of api/app/routers/write.py up to its UPDATE: the refusals in their order, the
-- codes and ids that are resolved, and the columns that are written. All of it reads the store.
use cpde_web.Prelude.{
  ℕ, String, Bool, true, false, Option, none, some, List, ◌==◌, ◌&&◌, ◌||◌, not, str_eq, is_some,
  find?, any, if◌then◌else◌,
}
use cpde_web.Prelude.Text.{Text}
use cpde_web.Prelude.Monad.{Result, ok, text, modified, ◌and_then◌, require, found}
use cpde_web.Store.{Stage, pre_bh, Pursuit, Store}
use cpde_web.Scope.{IdText, scoped_pursuit, resolve_pursuit_org_node, resolve_pursuit_owner}
use cpde_web.Dependency.{has_text, resolve_pursuit_dependency}
use cpde_web.Patch.Body.{
  Sent, PursuitPatch, is_null, is_value, merge, merge_value, merged_flag, is_one_bidder,
  dates_in_order, is_stale, writes_something,
}

-- A row of a reference table, and what a pursuit that refers to it holds.
pub record RefRow (A : Type 0) : Type 0 where
  pub code : String
  pub value : A
  pub is_active : Bool

-- The tables of `PURSUIT_REFS`; markets are the tenant's own. An opportunity type has its group.
pub record References : Type 0 where
  pub markets : List (RefRow String)
  pub opportunity_types : List (RefRow (Option String))
  pub contract_types : List (RefRow ℕ)
  pub pipeline_stages : List (RefRow Stage)

-- The values of the columns that the body names by codes and ids.
pub record Resolved : Type 0 where
  pub market : Sent String
  pub opportunity_type : Sent (Option String)
  pub contract_type : Sent ℕ
  pub pipeline_stage : Sent Stage
  pub org_node : Option ℕ
  pub owner : Sent ℕ
  pub dependency : Sent ℕ

-- `SELECT id FROM {table} WHERE code = %s AND is_active`
unfoldable pub resolve_code :
    {A : Type 0} → (key : String) → List (RefRow A) → Sent String → Result (Sent A)
resolve_code key rows none = ok none
resolve_code key rows (some none) = ok (some none)
resolve_code key rows (some (some code)) =
    found (find? (λ r. str_eq r.code code && r.is_active) rows) 400 (text key) and_then λ r.
    ok (some (some r.value))

abbrev pub is_pre_bh : Option Stage → Bool
is_pre_bh (some pre_bh) = true
is_pre_bh _ = false

-- A pursuit's opportunity type by the group that is joined to it.
abbrev pub joined : Sent (Option String) → Option String → Option String
joined none old = old
joined (some none) old = none
joined (some (some group)) old = group

abbrev pub or_node : Option ℕ → ℕ → ℕ
or_node none old = old
or_node (some n) old = n

module _ {N : Type 0} where
  abbrev pub email_of : Option ℕ → Store N → Option Text
  email_of none s = none
  email_of (some user_id) s = elim (find? (λ u. u.id == user_id) s.users) [
    | none ↦ none
    | some u ↦ some u.email
  ]

  -- What the body alone is refused for.
  unfoldable pub check_body : PursuitPatch N → (is_admin : Bool) → Result (Unit {0})
  check_body body is_admin =
      require (not (is_null body.org_unit_code)) 400 (text "org_unit_code cannot be cleared")
      and_then λ _.
          require (not (is_value body.external_opportunity_id && not is_admin)) 403
            (text "only an administrator can change the Opportunity ID")
          and_then λ _. require (writes_something body) 400 (text "no writable fields")

  -- What the stored row is refused for: its stage, a newer version, an outcome, and the merged values.
  unfoldable pub check_row : PursuitPatch N → Pursuit N → Store N → Result (Unit {0})
  check_row body existing s =
      require (not (is_some body.planned_investment && is_pre_bh existing.stage_code)) 400
        (text "Investment is derived from the questionnaire until Post-BH or Post-PTW")
      and_then λ _.
          require (not (is_stale body.expected_updated_at existing.updated_at)) 409
            (modified (email_of existing.updated_by s) existing.updated_at)
          and_then λ _.
              require (not (is_some existing.outcome)) 409
                (text "pursuit is closed and cannot be edited")
              and_then λ _.
                  require
                    (not (
                      merged_flag body.is_sole_source existing.is_sole_source
                      && not (is_one_bidder (merge body.bidders existing.bidders))))
                    400 (text "a sole source pursuit has exactly one bidder")
                  and_then λ _.
                      require
                        (dates_in_order existing.bp_start_date
                          (merge body.proposal_due_date existing.proposal_due_date)
                          (merge body.contract_award_date existing.contract_award_date)
                          (merge body.period_end_date existing.period_end_date))
                        400 (text "dates must run B&P start -> proposal due -> award -> period end")

  unfoldable pub resolve_org : ℕ → Sent String → Store N → Result (Option ℕ)
  resolve_org user_id none s = ok none
  resolve_org user_id (some none) s = ok none
  resolve_org user_id (some (some code)) s =
      (resolve_pursuit_org_node user_id code s).0 and_then λ n. ok (some n)

  -- Against the node that the pursuit will have.
  unfoldable pub resolve_owner : (org_node_id : ℕ) → Sent IdText → Store N → Result (Sent ℕ)
  resolve_owner org_node_id none s = ok none
  resolve_owner org_node_id (some none) s = ok (some none)
  resolve_owner org_node_id (some (some owner)) s =
      (resolve_pursuit_owner org_node_id owner s).0 and_then λ u. ok (some (some u))

  -- Turned sole source, with a dependency that the body does not name.
  abbrev pub clears_dependency : PursuitPatch N → Pursuit N → Bool
  clears_dependency body existing =
      not (is_some body.depends_on_opp_id)
      && merged_flag body.is_sole_source false
      && not existing.is_sole_source
      && is_some existing.depends_on_pursuit_id

  unfoldable pub resolve_dependency :
      (pursuit_id user_id : ℕ) → (clears : Bool) → Sent String → Store N → Result (Sent ℕ)
  resolve_dependency pursuit_id user_id clears none s = ok (if clears then some none else none)
  resolve_dependency pursuit_id user_id clears (some none) s = ok (some none)
  resolve_dependency pursuit_id user_id clears (some (some uid)) s =
      (resolve_pursuit_dependency pursuit_id user_id uid s).0 and_then λ t. ok (some (some t))

  unfoldable pub resolve_fields :
      References → (pursuit_id user_id : ℕ) → PursuitPatch N → Pursuit N → Store N → Result Resolved
  unfolding resolve_code resolve_org resolve_owner resolve_dependency
  resolve_fields refs pursuit_id user_id body existing s =
      resolve_code "market_code" refs.markets body.market_code and_then λ market.
      resolve_code "opportunity_type_code" refs.opportunity_types body.opportunity_type_code
      and_then λ opportunity_type.
          resolve_code "contract_type_code" refs.contract_types body.contract_type_code
          and_then λ contract_type.
              resolve_code "pipeline_stage_code" refs.pipeline_stages body.pipeline_stage_code
              and_then λ pipeline_stage.
                  resolve_org user_id body.org_unit_code s and_then λ org_node.
                  resolve_owner (or_node org_node existing.org_node_id) body.owner_user_id s
                  and_then λ owner.
                      require
                        (not (
                          is_value body.depends_on_opp_id
                          && merged_flag body.is_sole_source existing.is_sole_source))
                        400 (text "a sole source pursuit cannot have a dependency")
                      and_then λ _.
                          resolve_dependency pursuit_id user_id (clears_dependency body existing)
                            body.depends_on_opp_id s
                          and_then λ dependency. ok (record {
                            market = market;
                            opportunity_type = opportunity_type;
                            contract_type = contract_type;
                            pipeline_stage = pipeline_stage;
                            org_node = org_node;
                            owner = owner;
                            dependency = dependency;
                          })

  -- `uq_pursuit_ext_opp`: the sent opportunity id is another pursuit's.
  abbrev pub is_taken : ℕ → Sent String → Store N → Bool
  is_taken pursuit_id (some (some uid)) s =
      any (λ p. not (p.id == pursuit_id) && has_text uid p.external_opportunity_id) s.pursuits
  is_taken pursuit_id _ s = false

  -- What the database refuses: a null in a NOT NULL column, and a second row with one key.
  unfoldable pub violates : ℕ → PursuitPatch N → Store N → Bool
  violates pursuit_id body s =
      is_null body.name
      || is_null body.is_sole_source
      || is_taken pursuit_id body.external_opportunity_id s

  -- The `SET` list.
  unfoldable pub set_fields : PursuitPatch N → Resolved → (user_id now : ℕ) → Pursuit N → Pursuit N
  set_fields body r user_id now p = record p {
    external_opportunity_id = merge body.external_opportunity_id p.external_opportunity_id;
    name = merge_value body.name p.name;
    org_node_id = or_node r.org_node p.org_node_id;
    owner_user_id = merge r.owner p.owner_user_id;
    depends_on_pursuit_id = merge r.dependency p.depends_on_pursuit_id;
    stage_code = merge r.pipeline_stage p.stage_code;
    type_group = joined r.opportunity_type p.type_group;
    market_code = merge r.market p.market_code;
    contract_type_id = merge r.contract_type p.contract_type_id;
    is_sole_source = merged_flag body.is_sole_source p.is_sole_source;
    bidders = merge body.bidders p.bidders;
    bid_decision = merge body.bid_decision p.bid_decision;
    proposal_due_date = merge body.proposal_due_date p.proposal_due_date;
    contract_award_date = merge body.contract_award_date p.contract_award_date;
    period_end_date = merge body.period_end_date p.period_end_date;
    planned_total_award_value = merge body.planned_total_award_value p.planned_total_award_value;
    planned_fee_rate = merge body.planned_fee_rate p.planned_fee_rate;
    planned_investment = merge body.planned_investment p.planned_investment;
    updated_at = now;
    updated_by = some user_id;
  }

  -- Everything before the UPDATE.
  unfoldable pub plan :
      References
      → (pursuit_id user_id : ℕ) → (is_admin : Bool) → PursuitPatch N
      → Store N
      → Result (Pursuit N × Resolved)
  unfolding check_body check_row resolve_fields violates
  plan refs pursuit_id user_id is_admin body s = check_body body is_admin and_then λ _.
      found (scoped_pursuit pursuit_id user_id s) 404 (text "pursuit not found")
      and_then λ existing. check_row body existing s and_then λ _.
          resolve_fields refs pursuit_id user_id body existing s and_then λ r.
          require (not (violates pursuit_id body s)) 500 (text "Internal Server Error")
          and_then λ _. ok (existing, r)
