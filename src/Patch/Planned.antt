-- ===== src/Patch/Planned.antt =====
-- What is known of an edit that `patch_pursuit` (api/app/routers/write.py) has not refused before its UPDATE.
use mathlib.Core.Path.{subst}
use cpde_web.Prelude.{ℕ, ◌≡◌, Bool, true, false, none, some, ◌&&◌, not, is_some, is_some-none}
use cpde_web.Prelude.Monad.{ok}
use cpde_web.Prelude.Ensures.{
  require_then, found_then, and_then_ok, Holds, ok_inj, negated, required, holds_ok,
}
use cpde_web.Store.{Pursuit, Store}
use cpde_web.Scope.{scoped_pursuit}
use cpde_web.Patch.Body.{
  PursuitPatch, is_null, is_value, merge, merged_flag, is_one_bidder, dates_in_order, is_stale,
}
use cpde_web.Patch.Plan.{
  References, Resolved, is_pre_bh, check_body, check_row, resolve_code, resolve_org, resolve_owner,
  resolve_dependency, resolve_fields, or_node, clears_dependency, violates, plan,
}

module _ {N : Type 0} (body : PursuitPatch N) (existing : Pursuit N) (s : Store N) where
  pub record IsCheckedRow : Type 0 where
    pub not_derived : (is_some body.planned_investment && is_pre_bh existing.stage_code) ≡ false
    pub not_stale : is_stale body.expected_updated_at existing.updated_at ≡ false
    pub is_open : existing.outcome ≡ none
    pub one_bidder :
        (merged_flag body.is_sole_source existing.is_sole_source
          && not (is_one_bidder (merge body.bidders existing.bidders)))
        ≡ false
    pub in_order :
        dates_in_order existing.bp_start_date
          (merge body.proposal_due_date existing.proposal_due_date)
          (merge body.contract_award_date existing.contract_award_date)
          (merge body.period_end_date existing.period_end_date)
        ≡ true

  check_row-ok : (u : Unit {0}) → check_row body existing s ≡ ok u → IsCheckedRow
  unfolding check_row
  check_row-ok u h =
      let (c1, h1) =
        require_then (not (is_some body.planned_investment && is_pre_bh existing.stage_code)) _ _
          h in
      let (c2, h2) =
        require_then (not (is_stale body.expected_updated_at existing.updated_at)) _ _ h1 in
      let (c3, h3) = require_then (not (is_some existing.outcome)) _ _ h2 in
      let (c4, h4) =
        require_then
          (not (
            merged_flag body.is_sole_source existing.is_sole_source
            && not (is_one_bidder (merge body.bidders existing.bidders))))
          _ _ h3 in
      record {
        not_derived = negated (is_some body.planned_investment && is_pre_bh existing.stage_code) c1;
        not_stale = negated (is_stale body.expected_updated_at existing.updated_at) c2;
        is_open = is_some-none existing.outcome (negated (is_some existing.outcome) c3);
        one_bidder =
            negated
              (merged_flag body.is_sole_source existing.is_sole_source
                && not (is_one_bidder (merge body.bidders existing.bidders)))
              c4;
        in_order =
            required
              (dates_in_order existing.bp_start_date
                (merge body.proposal_due_date existing.proposal_due_date)
                (merge body.contract_award_date existing.contract_award_date)
                (merge body.period_end_date existing.period_end_date))
              _ _ u h4;
      }

module _ {N : Type 0} (refs : References) (i user_id : ℕ) (body : PursuitPatch N)
    (existing : Pursuit N) (s : Store N) where
  pub record IsResolved (r : Resolved) : Type 0 where
    pub is_org : resolve_org user_id body.org_unit_code s ≡ ok r.org_node
    pub is_owner :
        resolve_owner (or_node r.org_node existing.org_node_id) body.owner_user_id s ≡ ok r.owner
    pub not_sole :
        (is_value body.depends_on_opp_id && merged_flag body.is_sole_source existing.is_sole_source)
        ≡ false
    pub is_dependency :
        resolve_dependency i user_id (clears_dependency body existing) body.depends_on_opp_id s
        ≡ ok r.dependency

  resolve_fields-ok :
      (r : Resolved) → resolve_fields refs i user_id body existing s ≡ ok r → IsResolved r
  unfolding resolve_fields
  resolve_fields-ok r h =
      let (market, e1, h1) =
        and_then_ok (resolve_code "market_code" refs.markets body.market_code) _ h in
      let (opportunity_type, e2, h2) =
        and_then_ok
          (resolve_code "opportunity_type_code" refs.opportunity_types body.opportunity_type_code) _
          h1 in
      let (contract_type, e3, h3) =
        and_then_ok (resolve_code "contract_type_code" refs.contract_types body.contract_type_code)
          _ h2 in
      let (pipeline_stage, e4, h4) =
        and_then_ok
          (resolve_code "pipeline_stage_code" refs.pipeline_stages body.pipeline_stage_code) _ h3 in
      let (org_node, e5, h5) = and_then_ok (resolve_org user_id body.org_unit_code s) _ h4 in
      let (owner, e6, h6) =
        and_then_ok (resolve_owner (or_node org_node existing.org_node_id) body.owner_user_id s) _
          h5 in
      let (c7, h7) =
        require_then
          (not (
            is_value body.depends_on_opp_id
            && merged_flag body.is_sole_source existing.is_sole_source))
          _ _ h6 in
      let (dependency, e8, h8) =
        and_then_ok
          (resolve_dependency i user_id (clears_dependency body existing) body.depends_on_opp_id s)
          _ h7 in
      let shape = ok_inj h8 in
      subst IsResolved shape (record {
        is_org = e5;
        is_owner = e6;
        not_sole =
            negated
              (is_value body.depends_on_opp_id
                && merged_flag body.is_sole_source existing.is_sole_source)
              c7;
        is_dependency = e8;
      })

module _ {N : Type 0} (refs : References) (i user_id : ℕ) (is_admin : Bool) (body : PursuitPatch N)
    (s : Store N) where
  -- The row that is edited, and the values that are written.
  pub record IsPlanned (x : Pursuit N × Resolved) : Type 0 where
    pub in_scope : scoped_pursuit i user_id s ≡ some x.0
    pub may_rename : (is_value body.external_opportunity_id && not is_admin) ≡ false
    pub checked : IsCheckedRow body x.0 s
    pub resolved : IsResolved refs i user_id body x.0 s x.1
    pub storable : violates i body s ≡ false

  plan-ok : (x : Pursuit N × Resolved) → plan refs i user_id is_admin body s ≡ ok x → IsPlanned x
  unfolding plan check_body
  plan-ok x h =
      let (u, e0, h0) = and_then_ok (check_body body is_admin) _ h in
      let (existing, e1, h1) = found_then (scoped_pursuit i user_id s) _ _ _ h0 in
      let (v, e2, h2) = and_then_ok (check_row body existing s) _ h1 in
      let (r, e3, h3) = and_then_ok (resolve_fields refs i user_id body existing s) _ h2 in
      let (c4, h4) = require_then (not (violates i body s)) _ _ h3 in
      let (c5, h5) = require_then (not (is_null body.org_unit_code)) _ _ e0 in
      let (c6, h6) =
        require_then (not (is_value body.external_opportunity_id && not is_admin)) _ _ h5 in
      subst IsPlanned (ok_inj h4) (record {
        in_scope = e1;
        may_rename = negated (is_value body.external_opportunity_id && not is_admin) c6;
        checked = check_row-ok body existing s v e2;
        resolved = resolve_fields-ok refs i user_id body existing s r e3;
        storable = negated (violates i body s) c4;
      })

  pub plan-IsPlanned : Holds IsPlanned (plan refs i user_id is_admin body s)
  plan-IsPlanned = holds_ok IsPlanned (plan refs i user_id is_admin body s) plan-ok
