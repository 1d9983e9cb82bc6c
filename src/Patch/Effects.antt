-- ===== src/Patch/Effects.antt =====
-- What `patch_pursuit` of api/app/routers/write.py does to the Pwin after its UPDATE: the rule of a
-- sole source, and the recalculations whose refusal does not refuse the edit.
use cpde_web.Prelude.{
  ℕ, Bool, true, false, Option, none, some, ◌==◌, ◌&&◌, find?, any, update_where, if◌then◌else◌,
}
use cpde_web.Prelude.Num.{Float}
use cpde_web.Prelude.Monad.{Tx, Detail, pure, modify, catch, ◌>>=◌, ◌>>◌}
use cpde_web.Store.{
  Scenario, base, dependent_won, questionnaire, Pursuit, Assessment, Store, same_scenario,
  is_questionnaire, is_current_of,
}
use cpde_web.Scoring.{Cache}
use cpde_web.Assess.{new_row, insert_assessment}
use cpde_web.Recalc.{Payload, EngineAnswer, is_past_pre_bh, recalculate_pwin}
use cpde_web.Dependency.{has_text}
use cpde_web.Patch.Body.{PursuitPatch}

-- A recalculation inside `try`.
pub data Attempt (N : Type 0) : Type 0 where
  recalculated : N → Attempt N
  refused : Detail → Attempt N

-- The keys that the effects add to the row of the response; an absent `pwin` and a null are one.
pub record PwinEffects (N : Type 0) : Type 0 where
  pub pwin : Option N
  pub pwin_needs_recalc : Bool
  pub base_recalc_done : Bool
  pub pwin_recalc_error : Option Detail
  pub dependent_won_recalc_error : Option Detail

abbrev pub no_effects : {N : Type 0} → PwinEffects N
no_effects = record {
  pwin = none;
  pwin_needs_recalc = false;
  base_recalc_done = false;
  pwin_recalc_error = none;
  dependent_won_recalc_error = none;
}

-- `refs.get("pipeline_stage_code") == "PRE_BH"`, from a stage that is known and another one.
abbrev pub reverts : {N : Type 0} → PursuitPatch N → Pursuit N → Bool
reverts body existing =
    (elim body.pipeline_stage_code [ none ↦ false | some code ↦ has_text "PRE_BH" code ])
    && is_past_pre_bh existing.stage_code

module _ (fl : Float) where
  open fl use {Num, div, of_nat}

  abbrev pub sole_source_pwin : Num
  sole_source_pwin = div (of_nat 95) (of_nat 100)

  abbrev pub set_sole : (user_id now : ℕ) → Assessment Num → Assessment Num
  set_sole user_id now a = record a {
    pwin = some sole_source_pwin;
    blended_pwin = some sole_source_pwin;
    is_sole_source_pwin = true;
    calculated_at = now;
    calculated_by = some user_id;
  }

  abbrev pub sole_row : (pursuit_id user_id : ℕ) → Store Num → Assessment Num
  sole_row pursuit_id user_id s =
      record (new_row base questionnaire "sole-source-rule" pursuit_id user_id s) {
        pwin = some sole_source_pwin;
        blended_pwin = some sole_source_pwin;
        is_sole_source_pwin = true;
      }

  -- The UPDATE of the current BASE row, or where it hits none the INSERT of one.
  unfoldable pub turn_on : (pursuit_id user_id : ℕ) → Store Num → Store Num
  turn_on pursuit_id user_id s =
      if any (is_current_of pursuit_id base) s.assessments
      then record s {
        assessments =
            update_where (is_current_of pursuit_id base) (set_sole user_id s.now) s.assessments;
      }
      else insert_assessment (sole_row pursuit_id user_id s) s

  abbrev pub sole_effects : PwinEffects Num
  sole_effects = record no_effects { pwin = some sole_source_pwin }

  -- `stale`
  abbrev pub stale_row : (pursuit_id : ℕ) → Store Num → Option (Assessment Num)
  stale_row pursuit_id s =
      find? (λ a. is_current_of pursuit_id base a && a.is_sole_source_pwin) s.assessments

  abbrev pub has_dependent_won : (pursuit_id : ℕ) → Store Num → Bool
  has_dependent_won pursuit_id s =
      any
        (λ a.
          a.pursuit_id == pursuit_id
          && (same_scenario a.scenario dependent_won && is_questionnaire a.assessment_type))
        s.assessments

  abbrev pub off_effects : Option Num → Attempt Num → PwinEffects Num
  off_effects stale_pwin (recalculated v) = record no_effects {
    pwin = some v;
    base_recalc_done = true;
  }
  off_effects stale_pwin (refused detail) = record no_effects {
    pwin = stale_pwin;
    pwin_needs_recalc = true;
    pwin_recalc_error = some detail;
  }

  abbrev pub base_effects : PwinEffects Num → Attempt Num → PwinEffects Num
  base_effects e (recalculated v) = record e { pwin = some v }
  base_effects e (refused detail) = record e {
    pwin_needs_recalc = true;
    pwin_recalc_error = some detail;
  }

  abbrev pub dependent_effects : PwinEffects Num → Attempt Num → PwinEffects Num
  dependent_effects e (recalculated v) = e
  dependent_effects e (refused detail) = record e {
    pwin_needs_recalc = true;
    dependent_won_recalc_error = some detail;
  }

  module _ {Q : Type 0} (cache : Cache fl Q) (engine : Pursuit Num → Payload fl → EngineAnswer fl)
      (pursuit_id user_id : ℕ) where
    unfoldable pub attempt : Scenario → Tx (Store Num) (Attempt Num)
    attempt scenario =
        catch
          (do
            r ← recalculate_pwin fl cache engine none true scenario pursuit_id user_id
            pure (recalculated r.pwin))
          (λ detail. pure (refused detail))

    -- Only where the current BASE row is that of the sole source rule.
    unfoldable pub turn_off_row : Option (Assessment Num) → Tx (Store Num) (PwinEffects Num)
    unfolding attempt
    turn_off_row none = pure no_effects
    turn_off_row (some stale) = do tried ← attempt base; pure (off_effects stale.pwin tried)

    unfoldable pub turn_off : Tx (Store Num) (PwinEffects Num)
    unfolding turn_off_row
    turn_off s = turn_off_row (stale_row pursuit_id s) s

    unfoldable pub sole_source_effects :
        (sole_changed is_sole_source : Bool) → Tx (Store Num) (PwinEffects Num)
    unfolding turn_on turn_off
    sole_source_effects false is_sole_source = pure no_effects
    sole_source_effects true true = do modify (turn_on pursuit_id user_id); pure sole_effects
    sole_source_effects true false = turn_off

    unfoldable pub recalc_dependent : PwinEffects Num → Tx (Store Num) (PwinEffects Num)
    unfolding attempt
    recalc_dependent e s =
        if has_dependent_won pursuit_id s
        then (do tried ← attempt dependent_won; pure (dependent_effects e tried)) s
        else pure e s

    unfoldable pub revert_effects :
        (reverted : Bool) → PwinEffects Num → Tx (Store Num) (PwinEffects Num)
    unfolding attempt recalc_dependent
    revert_effects false e = pure e
    revert_effects true e = do tried ← attempt base; recalc_dependent (base_effects e tried)
