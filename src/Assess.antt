-- ===== src/Assess.antt =====
-- The append-only write of an assessment that recalc.py and routers/bhptw.py share: the row that was
-- current for the pursuit and scenario is demoted, and a new current row is inserted.
pub mod Laws
pub mod Insert
mod Tests
use cpde_web.Prelude.{
  ℕ, suc, String, Bool, true, false, Option, none, some, List, [], ◌∷◌, ◌++◌, update_where,
}
use cpde_web.Store.{Scenario, AssessmentType, Assessment, Store, is_current_of}
use cpde_web.Pwin.{demote}

module _ {N : Type 0} where
  -- A new row with the columns that every INSERT names, and the others NULL.
  abbrev pub new_row :
      Scenario → AssessmentType → String → (pursuit_id user_id : ℕ) → Store N → Assessment N
  new_row scenario type version pursuit_id user_id s = record {
    id = s.next_id;
    pursuit_id = pursuit_id;
    scenario = scenario;
    assessment_type = type;
    engine_version = version;
    calculated_at = s.now;
    calculated_by = some user_id;
    pwin = none;
    base_pwin = none;
    blended_pwin = none;
    is_sole_source_pwin = false;
    investment = none;
    completed_date = none;
    aggressiveness_option_id = none;
    margin_rate = none;
    bid_price = none;
    is_current = true;
  }

  -- `UPDATE pwin_assessment SET is_current = FALSE WHERE pursuit_id = ... AND scenario = ... AND
  -- is_current`
  unfoldable pub demote_current : ℕ → Scenario → Store N → Store N
  demote_current pursuit_id scenario s = record s {
    assessments = update_where (is_current_of pursuit_id scenario) demote s.assessments;
  }

  unfoldable pub insert_assessment : Assessment N → Store N → Store N
  insert_assessment row s = record s {
    assessments = s.assessments ++ row ∷ [];
    next_id = suc s.next_id;
  }

  unfoldable pub append_current : Assessment N → Store N → Store N
  unfolding demote_current insert_assessment
  append_current row s = insert_assessment row (demote_current row.pursuit_id row.scenario s)
