-- ===== src/Store.antt =====
-- The tables of the database (ddl/01_schema.sql and its patches) as lists of rows, as far as the
-- modelled handlers read or write them. Ids are numbers; a code of a reference table stands in the
-- row in place of the foreign key to it. `now` is the transaction's timestamp and `next_id` the
-- next id that `gen_random_uuid` gives.
pub mod Rows
pub mod Valid
use cpde_web.Prelude.Text.{Text}
use cpde_web.Prelude.{
  ℕ, String, Bool, true, false, Option, none, some, List, ◌==◌, ◌&&◌, ◌||◌, find?,
}

pub data Scenario : Type 0 where
  base dependent_won : Scenario

pub data AssessmentType : Type 0 where
  questionnaire black_hat ptw : AssessmentType

pub data Outcome : Type 0 where
  won lost cancelled no_bid : Outcome

pub data BidDecision : Type 0 where
  bid no_bid undecided : BidDecision

pub data NodeType : Type 0 where
  business business_unit division : NodeType

pub data Stage : Type 0 where
  pre_bh post_bh post_ptw : Stage

pub record OrgNode : Type 0 where
  pub id : ℕ
  pub code : String
  pub name : String
  pub node_type : NodeType
  pub parent_id : Option ℕ
  pub is_license_boundary : Bool
  pub is_active : Bool
  pub is_test_fixture : Bool

pub record ScopeAssignment : Type 0 where
  pub user_id : ℕ
  pub org_node_id : ℕ
  pub role_code : String

pub record User : Type 0 where
  pub id : ℕ
  pub email : Text
  pub display_name : Text
  pub is_active : Bool

pub record Pursuit (N : Type 0) : Type 0 where
  pub id : ℕ
  pub external_opportunity_id : Option String
  pub name : String
  pub org_node_id : ℕ
  pub owner_user_id : Option ℕ
  pub depends_on_pursuit_id : Option ℕ
  pub stage_code : Option Stage
  pub type_group : Option String
  pub market_code : Option String
  pub contract_type_id : Option ℕ
  pub is_sole_source : Bool
  pub bidders : Option ℕ
  pub bid_decision : Option BidDecision
  pub outcome : Option Outcome
  pub outcome_date : Option ℕ
  pub bp_start_date : Option ℕ
  pub proposal_due_date : Option ℕ
  pub contract_award_date : Option ℕ
  pub period_end_date : Option ℕ
  pub planned_total_award_value : Option N
  pub planned_fee_rate : Option N
  pub planned_investment : Option N
  pub black_hat_ptw_complete : Bool
  pub is_active : Bool
  pub updated_at : ℕ
  pub updated_by : Option ℕ

pub record Assessment (N : Type 0) : Type 0 where
  pub id : ℕ
  pub pursuit_id : ℕ
  pub scenario : Scenario
  pub assessment_type : AssessmentType
  pub engine_version : String
  pub calculated_at : ℕ
  pub calculated_by : Option ℕ
  pub pwin : Option N
  pub base_pwin : Option N
  pub blended_pwin : Option N
  pub is_sole_source_pwin : Bool
  pub investment : Option N
  pub completed_date : Option ℕ
  pub aggressiveness_option_id : Option ℕ
  pub margin_rate : Option N
  pub bid_price : Option N
  pub is_current : Bool

-- `ck_pwin_answer_one_value`: exactly one of the three columns is set. An option's id stands with
-- its label.
pub data AnswerValue (N : Type 0) : Type 0 where
  option : ℕ → String → AnswerValue N
  numeric : N → AnswerValue N
  boolean : Bool → AnswerValue N

pub record Answer (N : Type 0) : Type 0 where
  pub pwin_assessment_id : ℕ
  pub question : String
  pub value : AnswerValue N

pub record ContractType : Type 0 where
  pub id : ℕ
  pub code : String
  pub label : String

pub record QuestionOption : Type 0 where
  pub id : ℕ
  pub question : String
  pub code : String
  pub label_text : String
  pub is_active : Bool

pub record Store (N : Type 0) : Type 0 where
  pub org_nodes : List OrgNode
  pub scope_assignments : List ScopeAssignment
  pub users : List User
  pub pursuits : List (Pursuit N)
  pub assessments : List (Assessment N)
  pub answers : List (Answer N)
  pub contract_types : List ContractType
  pub question_options : List QuestionOption
  pub next_id : ℕ
  pub now : ℕ

abbrev pub same_scenario : Scenario → Scenario → Bool
same_scenario base base = true
same_scenario dependent_won dependent_won = true
same_scenario _ _ = false

abbrev pub is_questionnaire : AssessmentType → Bool
is_questionnaire questionnaire = true
is_questionnaire _ = false

-- The rows that `uq_pwin_current` lets exist once: the current ones of a pursuit and scenario.
abbrev pub is_current_of : {N : Type 0} → ℕ → Scenario → Assessment N → Bool
is_current_of pursuit_id scenario a =
    a.pursuit_id == pursuit_id && same_scenario a.scenario scenario && a.is_current

-- `SELECT ... WHERE pursuit_id = %s AND scenario = %s AND is_current`
abbrev pub current_of : {N : Type 0} → ℕ → Scenario → Store N → Option (Assessment N)
current_of pursuit_id scenario s = find? (is_current_of pursuit_id scenario) s.assessments

-- `SELECT ... FROM pursuit WHERE id = %s`
abbrev pub pursuit_of : {N : Type 0} → ℕ → Store N → Option (Pursuit N)
pursuit_of pursuit_id s = find? (λ p. p.id == pursuit_id) s.pursuits

abbrev pub dependency_of : {N : Type 0} → Option (Pursuit N) → Option (Option ℕ)
dependency_of none = none
dependency_of (some p) = some p.depends_on_pursuit_id
