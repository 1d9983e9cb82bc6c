-- ===== src/Patch/Tests.antt =====
-- Edits of the sample's second pursuit.
use cpde_web.Prelude.{
  ◌↔◌, ℕ, ◌≡◌, refl, true, false, none, some, [], ◌∷◌, inl, inr, Bool-cases, arith, ◌==◌,
}
use cpde_web.Prelude.Thousandths.{thousandths}
use cpde_web.Prelude.Monad.{ok, is_ok, http_exception, modified}
use cpde_web.Prelude.Ensures.{Ensures}
use cpde_web.Store.{undecided, pre_bh, Pursuit}
use cpde_web.Scope.{uuid, scoped_pursuit, scoped, user_has_scope, is_visible_from, parse_uuid}
use cpde_web.Recalc.{Payload, EngineAnswer, solved}
use cpde_web.Sample.{sample, sample_pursuit, sample_cache, sample-IsValid, sample-IsHistory}
use cpde_web.Dependency.{deps_of, chain_cap}
use cpde_web.Dependency.Acyclic.{Ends, absent, last, next, IsAcyclic}
use cpde_web.Patch.Body.{
  PursuitPatch, is_accepted_patch, is_stale, writes_something, dates_in_order, present_dates,
  is_sorted, is_sorted_from,
}
use cpde_web.Patch.Plan.{
  References, check_body, check_row, resolve_fields, resolve_code, resolve_org, resolve_owner,
  resolve_dependency, violates, set_fields, plan,
}
use cpde_web.Patch.Handler.{write_fields, apply_patch, patch_pursuit}
use cpde_web.Patch.Recorded.{IsPatch, patch_pursuit-IsPatch}
use cpde_web.Patch.Acyclic.{patch_pursuit-IsAcyclic}
use cpde_web.Patch.Stale.{IsApart}
use cpde_web.Patch.Refused.{patch_pursuit-modified_iff}

abbrev engine : Pursuit ℕ → Payload thousandths → EngineAnswer thousandths
engine pu payload = solved 600 "solved"

abbrev references : References
references = record {
  markets = (record { code = "NAVY"; value = "NAVY"; is_active = true }) ∷ [];
  opportunity_types = [];
  contract_types = [];
  pipeline_stages = (record { code = "PRE_BH"; value = pre_bh; is_active = true }) ∷ [];
}

abbrev empty : PursuitPatch ℕ
empty = record {
  expected_updated_at = none;
  name = none;
  external_opportunity_id = none;
  market_code = none;
  opportunity_type_code = none;
  contract_type_code = none;
  pipeline_stage_code = none;
  org_unit_code = none;
  owner_user_id = none;
  depends_on_opp_id = none;
  bid_decision = none;
  bidders = none;
  is_sole_source = none;
  planned_total_award_value = none;
  planned_fee_rate = none;
  planned_investment = none;
  proposal_due_date = none;
  contract_award_date = none;
  period_end_date = none;
}

-- Turned sole source, which ends the dependency.
abbrev sole : PursuitPatch ℕ
sole = record empty {
  bidders = some (some 1);
  is_sole_source = some (some true);
  market_code = some (some "NAVY");
}

patch_pursuit-IsPatch_example :
    Ensures
      (λ _ t. IsPatch thousandths (uuid 2) sole 7 false sample t)
      (λ t. t ≡ sample)
      (patch_pursuit thousandths sample_cache engine references (uuid 2) sole 7 false sample)
patch_pursuit-IsPatch_example =
    patch_pursuit-IsPatch thousandths sample_cache engine references (uuid 2) sole 7 false sample
      sample-IsValid sample-IsHistory

accepted :
    is_ok (patch_pursuit thousandths sample_cache engine references (uuid 2) sole 7 false sample).0
    ≡ true
unfolding patch_pursuit is_accepted_patch plan check_body writes_something check_row dates_in_order
    present_dates is_sorted is_sorted_from is_stale resolve_fields resolve_code resolve_org
    resolve_owner resolve_dependency violates apply_patch set_fields write_fields parse_uuid scoped
    user_has_scope is_visible_from
accepted = refl

sample_short : (j : ℕ) → Ends (deps_of sample) chain_cap j
sample_short j = elim (Bool-cases (1 == j)) [
  | inl one ↦ last 49 j (ground arith)
  | inr ne1 ↦ elim (Bool-cases (2 == j)) [
    | inl two ↦ next 49 j 1 (ground arith) (last 48 1 refl)
    | inr ne2 ↦ absent 50 j (ground arith)
  ]
]

patch_pursuit-IsAcyclic_example :
    Ensures
      (λ _ t. IsAcyclic (deps_of t))
      (λ t. t ≡ sample)
      (patch_pursuit thousandths sample_cache engine references (uuid 2) sole 7 false sample)
patch_pursuit-IsAcyclic_example =
    patch_pursuit-IsAcyclic thousandths sample_cache engine references (uuid 2) sole 7 false sample
      sample-IsValid sample-IsHistory sample_short

-- Read before the last change, by more than a millisecond.
abbrev late : PursuitPatch ℕ
late = record empty { expected_updated_at = some 2000; bidders = some (some 2) }

valid : is_accepted_patch thousandths late ≡ true
unfolding is_accepted_patch
valid = refl

checked : check_body late false ≡ ok tt
unfolding check_body writes_something
checked = refl

in_scope : scoped_pursuit 2 7 sample ≡ some (sample_pursuit 2 (some 1) (some undecided))
unfolding scoped user_has_scope is_visible_from
in_scope = refl

patch_pursuit-modified_iff_example :
    (patch_pursuit thousandths sample_cache engine references (uuid 2) late 7 false sample
      ≡ (http_exception 409 (modified none 0), sample))
    ↔ IsApart (some 2000) 0
patch_pursuit-modified_iff_example =
    patch_pursuit-modified_iff thousandths sample_cache engine references 2 7 false late
      (sample_pursuit 2 (some 1) (some undecided)) sample valid checked in_scope refl
