-- ===== src/Sample.antt =====
-- Data for the tests of the other modules: two open pursuits of one division, the second of which
-- depends on the first, and a user who sees both.
use cpde_web.Store.Valid.{HasOneCurrent, HasOneId, IsValid}
use cpde_web.Prelude.Text.{codes}
use cpde_web.Prelude.Thousandths.{thousandths}
use cpde_web.Scoring.{Row, Cache, flat}
use cpde_web.Lifecycle.Closing.{IsHistory}
use cpde_web.Prelude.{ℕ, ◌==◌, ◌≤◌, count, arith, true, false, none, some, Option, [], ◌∷◌}
use cpde_web.Store.{
  option, base, dependent_won, questionnaire, BidDecision, bid, undecided, division, OrgNode,
  Pursuit, Assessment, Store, pre_bh,
}

abbrev pub sample_node : OrgNode
sample_node = record {
  id = 1;
  code = "DIV";
  name = "Division";
  node_type = division;
  parent_id = none;
  is_license_boundary = true;
  is_active = true;
  is_test_fixture = false;
}

abbrev pub sample_pursuit : ℕ → Option ℕ → Option BidDecision → Pursuit ℕ
sample_pursuit i dep decision = record {
  id = i;
  external_opportunity_id = some "OPP";
  name = "Pursuit";
  org_node_id = 1;
  owner_user_id = none;
  depends_on_pursuit_id = dep;
  stage_code = some pre_bh;
  type_group = none;
  market_code = none;
  contract_type_id = some 3;
  is_sole_source = false;
  bidders = some 3;
  bid_decision = decision;
  outcome = none;
  outcome_date = none;
  bp_start_date = none;
  proposal_due_date = none;
  contract_award_date = none;
  period_end_date = none;
  planned_total_award_value = none;
  planned_fee_rate = none;
  planned_investment = none;
  black_hat_ptw_complete = false;
  is_active = true;
  updated_at = 0;
  updated_by = none;
}

abbrev pub sample_row : ℕ → ℕ → ℕ → Assessment ℕ
sample_row i pursuit_id pwin = record {
  id = i;
  pursuit_id = pursuit_id;
  scenario = base;
  assessment_type = questionnaire;
  engine_version = "engine:/v1/run";
  calculated_at = 0;
  calculated_by = none;
  pwin = some pwin;
  base_pwin = some pwin;
  blended_pwin = none;
  is_sole_source_pwin = false;
  investment = none;
  completed_date = none;
  aggressiveness_option_id = none;
  margin_rate = none;
  bid_price = none;
  is_current = true;
}

abbrev pub sample : Store ℕ
sample = record {
  org_nodes = sample_node ∷ [];
  scope_assignments = (record { user_id = 7; org_node_id = 1; role_code = "capture_manager" }) ∷ [];
  users =
      (record { id = 7; email = codes "a@b.c"; display_name = codes "A"; is_active = true }) ∷ [];
  pursuits = sample_pursuit 1 none (some bid) ∷ sample_pursuit 2 (some 1) (some undecided) ∷ [];
  assessments = sample_row 10 1 400 ∷ sample_row 11 2 200 ∷ [];
  answers = (record { pwin_assessment_id = 11; question = "P1"; value = option 4 "Low" }) ∷ [];
  contract_types = (record { id = 3; code = "FFP"; label = "FFP" }) ∷ [];
  question_options =
      (record { id = 4; question = "P1"; code = "A"; label_text = "Low"; is_active = true }) ∷ [];
  next_id = 20;
  now = 5;
}

abbrev pub price_row : Row thousandths
price_row = record { tech = 0; mgmt = 0; pp = 0; client_price = 20; comp_price = 0 }

abbrev pub sample_cache : Cache thousandths ℕ
sample_cache = record {
  tables = some ((codes "p1", flat ((codes "low", price_row) ∷ [])) ∷ []);
  base_score = some 500;
  fee_rates = some ((codes "ffp", 80) ∷ []);
  questionnaire = some 1;
  last_fetched = 4;
}

one_current : HasOneCurrent sample.assessments
one_current i base = ground arith
one_current i dependent_won = ground arith

one_id : HasOneId sample.assessments
one_id i = ground arith

pub sample-IsValid : IsValid sample
sample-IsValid = record {
  one_current = one_current;
  one_id = one_id;
  old_ids = (omega arith, (omega arith, tt));
}

one_pursuit : (i : ℕ) → count (λ p. p.id == i) sample.pursuits ≤ 1
one_pursuit i = ground arith

pub sample-IsHistory : IsHistory sample
sample-IsHistory = record { one_pursuit = one_pursuit; decided_bid = ((λ e. cc), ((λ e. cc), tt)) }
