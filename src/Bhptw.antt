-- ===== src/Bhptw.antt =====
-- The Black Hat and PTW submissions: api/app/routers/bhptw.py. Each handler gets the id of the caller
-- whose role has been checked, and runs in the transaction of `tenant_tx`.
pub mod Recorded
pub mod Loads
pub mod Submit
mod Tests
use cpde_web.Prelude.{
  ℕ, String, Bool, true, false, Option, none, some, List, [], ◌∷◌, ◌==◌, ◌&&◌, ◌||◌, not, str_eq,
  if◌then◌else◌, ltb, find?, any, all, is_some, update_where,
}
use cpde_web.Prelude.Num.{Float}
use cpde_web.Prelude.Text.{has_length}
use cpde_web.Prelude.Monad.{
  Tx, ok, text, pure, raise_if, gets, or_raise, modify, transaction, ◌>>=◌, ◌>>◌,
}
use cpde_web.Store.{
  Scenario, base, dependent_won, AssessmentType, questionnaire, black_hat, ptw, Pursuit, Assessment,
  Store, QuestionOption, same_scenario, is_questionnaire,
}
use cpde_web.Scope.{IdText, parse_uuid, scoped_pursuit}
use cpde_web.Scoring.{Cache, resolve_fee}
use cpde_web.Pwin.{apply_dependency_blend}
use cpde_web.Assess.{new_row, append_current}

abbrev pub is_dependent_won : Scenario → Bool
is_dependent_won base = false
is_dependent_won dependent_won = true

abbrev pub is_analyst_entered : AssessmentType → Bool
is_analyst_entered questionnaire = false
is_analyst_entered black_hat = true
is_analyst_entered ptw = true

-- `_check_completed_date`'s test
abbrev precedes : Option ℕ → Option ℕ → Bool
precedes (some completed) (some start) = ltb completed start
precedes _ _ = false

abbrev pub needed : (has_dep : Bool) → List Scenario
needed true = base ∷ dependent_won ∷ []
needed false = base ∷ []

module _ {N : Type 0} where
  unfoldable pub load_pursuit : (pursuit_id user_id : ℕ) → Scenario → Tx (Store N) (Pursuit N)
  load_pursuit pursuit_id user_id scenario s =
      (do
        row ← or_raise (scoped_pursuit pursuit_id user_id s) 404 (text "pursuit not found")
        raise_if (is_some row.outcome) 409 (text "pursuit is closed and cannot be edited")
        raise_if (is_dependent_won scenario && not (is_some row.depends_on_pursuit_id)) 400
            (text "this pursuit has no dependency; there is no dependent-won scenario to record")
        raise_if
            (not (
              any (λ a. a.pursuit_id == pursuit_id && is_questionnaire a.assessment_type)
                s.assessments))
            400 (text "Complete the Pwin questionnaire before entering Black Hat or PTW data")
        pure row)
        s

  -- The scenario has a current BLACK_HAT or PTW row.
  abbrev pub is_done : ℕ → List (Assessment N) → Scenario → Bool
  is_done pursuit_id rows sc =
      any
        (λ a.
          (a.pursuit_id == pursuit_id && (a.is_current && is_analyst_entered a.assessment_type))
          && same_scenario a.scenario sc)
        rows

  abbrev set_complete : Bool → Pursuit N → Pursuit N
  set_complete complete p = record p { black_hat_ptw_complete = complete }

  -- `_recompute_complete`
  unfoldable pub recompute_complete : ℕ → (has_dep : Bool) → Tx (Store N) Bool
  recompute_complete pursuit_id has_dep s =
      let complete = all (is_done pursuit_id s.assessments) (needed has_dep) in
      (
        ok complete,
        record s {
          pursuits = update_where (λ p. p.id == pursuit_id) (set_complete complete) s.pursuits;
        },
      )

module _ (fl : Float) where
  open fl use {Num, zero, one, leq, div, of_nat}

  pub record BlackHatIn : Type 0 where
    pub scenario : Scenario
    pub aggressiveness_option_code : String
    pub investment : Option Num
    pub completed_date : Option ℕ
    pub base_pwin : Num

  pub record PtwIn : Type 0 where
    pub scenario : Scenario
    pub margin_rate : Num
    pub bid_price : Num
    pub investment : Option Num
    pub completed_date : Option ℕ
    pub base_pwin : Num

  pub record Submitted : Type 0 where
    pub assessment : Assessment Num
    pub fee_rate : Num
    pub black_hat_ptw_complete : Bool

  abbrev is_prob : Num → Bool
  is_prob x = leq zero x && leq x one

  abbrev is_nonneg : Option Num → Bool
  is_nonneg none = true
  is_nonneg (some x) = leq zero x

  -- The `Field` constraints; a body that breaks one is answered 422 before the handler runs.
  unfoldable pub black_hat_body_ok : BlackHatIn → Bool
  black_hat_body_ok body =
      has_length 1 50 body.aggressiveness_option_code
      && (is_nonneg body.investment && is_prob body.base_pwin)

  unfoldable pub ptw_body_ok : PtwIn → Bool
  ptw_body_ok body =
      (leq zero body.margin_rate && leq body.margin_rate (div (of_nat 30) (of_nat 100)))
      && (leq zero body.bid_price && (is_nonneg body.investment && is_prob body.base_pwin))

  -- The columns that both INSERTs fill: a BASE row of a dependent pursuit gets its `pwin` from the
  -- blend that follows.
  abbrev entered :
      (has_dep : Bool) → Scenario → Num → Option Num → Option ℕ → Assessment Num → Assessment Num
  entered has_dep scenario base_pwin investment completed row = record row {
    base_pwin = some base_pwin;
    pwin = if has_dep && not (is_dependent_won scenario) then none else some base_pwin;
    investment = investment;
    completed_date = completed;
  }

  abbrev black_hat_row : (has_dep : Bool) → BlackHatIn → ℕ → Assessment Num → Assessment Num
  black_hat_row has_dep body option_id row =
      record (entered has_dep body.scenario body.base_pwin body.investment body.completed_date
        row) { aggressiveness_option_id = some option_id }

  abbrev ptw_row : (has_dep : Bool) → PtwIn → Assessment Num → Assessment Num
  ptw_row has_dep body row =
      record (entered has_dep body.scenario body.base_pwin body.investment body.completed_date
        row) { margin_rate = some body.margin_rate; bid_price = some body.bid_price }

  -- The demotion, the INSERT, and the blend of a dependent pursuit.
  unfoldable pub submit_row : Option ℕ → Assessment Num → Store Num → Store Num
  submit_row none row s = append_current row s
  submit_row (some predecessor_id) row s =
      apply_dependency_blend fl row.pursuit_id predecessor_id (append_current row s)

  -- The row of the response: re-read after the blend if it is the one that was blended.
  abbrev pub reread : ℕ → Assessment Num → Store Num → Assessment Num
  reread id row s = elim (find? (λ a. a.id == id) s.assessments) [
    | none ↦ row
    | some a ↦ record row { pwin = a.pwin; blended_pwin = a.blended_pwin }
  ]

  abbrev coalesce : Option Num → Option Num → Option Num
  coalesce none old = old
  coalesce (some x) old = some x

  abbrev set_plan : Num → Option Num → ℕ → ℕ → Pursuit Num → Pursuit Num
  set_plan fee investment user_id now p = record p {
    planned_fee_rate = some fee;
    planned_investment = coalesce investment p.planned_investment;
    updated_at = now;
    updated_by = some user_id;
  }

  abbrev write_plan : ℕ → Num → Option Num → ℕ → Store Num → Store Num
  write_plan pursuit_id fee investment user_id s = record s {
    pursuits =
        update_where (λ p. p.id == pursuit_id) (set_plan fee investment user_id s.now) s.pursuits;
  }

  -- What both handlers do once the fee and the row are known.
  unfoldable pub finish :
      Pursuit Num
      → (user_id : ℕ) → (fee : Num) → (investment : Option Num) → Assessment Num
      → Tx (Store Num) Submitted
  unfolding submit_row recompute_complete
  finish pu user_id fee investment row = do
    modify (submit_row pu.depends_on_pursuit_id row)
    answer ← gets (λ t.
        if is_some pu.depends_on_pursuit_id && not (is_dependent_won row.scenario)
        then reread row.id row t
        else row)
    modify (write_plan row.pursuit_id fee investment user_id)
    complete ← recompute_complete row.pursuit_id (is_some pu.depends_on_pursuit_id)
    pure (record { assessment = answer; fee_rate = fee; black_hat_ptw_complete = complete })

  module _ {Q : Type 0} (cache : Cache fl Q) where
    -- The active P1 option with the given code.
    abbrev p1_option : String → Store Num → Option QuestionOption
    p1_option code s =
        find? (λ o. str_eq o.question "P1" && (str_eq o.code code && o.is_active))
          s.question_options

    unfoldable pub submit_black_hat : IdText → BlackHatIn → (user_id : ℕ) → Tx (Store Num) Submitted
    unfolding black_hat_body_ok load_pursuit finish
    submit_black_hat pursuit_text body user_id = transaction (do
      raise_if (not (black_hat_body_ok body)) 422 (text "invalid body")
      pursuit_id ← parse_uuid pursuit_text
      pu ← load_pursuit pursuit_id user_id body.scenario
      raise_if (precedes body.completed_date pu.bp_start_date) 400
          (text "completed date cannot be before B&P start")
      opt ← λ s.
          or_raise (p1_option body.aggressiveness_option_code s) 400
            (text "unknown price aggressiveness option") s
      fee ← resolve_fee fl cache pu.contract_type_id opt.id
      raise_if (not (is_prob fee)) 400 (text "computed fee is out of range")
      fresh ← gets (new_row body.scenario black_hat "analyst-entered" pursuit_id user_id)
      finish pu user_id fee body.investment
          (black_hat_row (is_some pu.depends_on_pursuit_id) body opt.id fresh))

  unfoldable pub submit_ptw : IdText → PtwIn → (user_id : ℕ) → Tx (Store Num) Submitted
  unfolding ptw_body_ok load_pursuit finish
  submit_ptw pursuit_text body user_id = transaction (do
    raise_if (not (ptw_body_ok body)) 422 (text "invalid body")
    pursuit_id ← parse_uuid pursuit_text
    pu ← load_pursuit pursuit_id user_id body.scenario
    raise_if (precedes body.completed_date pu.bp_start_date) 400
        (text "completed date cannot be before B&P start")
    fresh ← gets (new_row body.scenario ptw "analyst-entered" pursuit_id user_id)
    finish pu user_id body.margin_rate body.investment
        (ptw_row (is_some pu.depends_on_pursuit_id) body fresh))
