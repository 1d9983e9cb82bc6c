-- ===== src/Bhptw/Recorded.antt =====
-- The store after `submit_row` of a Black Hat or PTW submission (api/app/routers/bhptw.py).
use cpde_web.Prelude.{
  none_not_some, some_inj, ℕ, ◌+◌, ◌≡◌, refl, sym, ap, ◌∙◌, ◌≢◌, true, not, ◌&&◌, Option, none,
  some, List, length, is_some, if◌then◌else◌,
}
use mathlib.Core.Path.{subst}
use cpde_web.Prelude.Num.{Float}
use cpde_web.Store.{
  Scenario, base, dependent_won, AssessmentType, Pursuit, Answer, Assessment, Store, current_of,
}
use cpde_web.Store.Valid.{IsValid}
use cpde_web.Pwin.{apply_dependency_blend, dep_win, dep_factor, blended_of}
use cpde_web.Pwin.Blend.{current_of-blend}
use cpde_web.Pwin.Kept.{formula_cong, current_of-blend_other, blend-IsValid, length-blend}
use cpde_web.Assess.{append_current}
use cpde_web.Assess.Laws.{
  current_of-append, current_of-append_other, append_current-IsValid, length-append_current,
}
use cpde_web.Bhptw.{is_dependent_won, submit_row}

module _ (fl : Float) where
  open fl use {Num}

  -- The Pwin that the formula gives from the rows of the store.
  abbrev pub formula : ℕ → ℕ → Num → Store Num → Num
  formula pursuit_id predecessor_id b s =
      blended_of fl b (dep_win fl pursuit_id b s) (dep_factor fl predecessor_id s)

  -- The constraints hold; there is one row more; the current row of the pursuit and scenario is the
  -- new one, with the type and the Pwin that were entered; a BASE row of a dependent
  -- pursuit has the blended Pwin; and no other current row moved, but for the BASE row that is
  -- blended.
  pub record IsRecorded (type : AssessmentType) (pursuit_id : ℕ) (scenario : Scenario) (b : Num)
      (dep : Option ℕ) (s t : Store Num) : Type 0 where
    pub valid : IsValid t
    pub one_more : length t.assessments ≡ length s.assessments + 1
    pub row : Assessment Num
    pub is_latest : current_of pursuit_id scenario t ≡ some row
    pub is_new : row.id ≡ s.next_id
    pub has_type : row.assessment_type ≡ type
    pub has_base : row.base_pwin ≡ some b
    pub standalone : dep ≡ none → row.pwin ≡ some b
    pub dependent_won_standalone : scenario ≡ dependent_won → row.pwin ≡ some b
    pub blended :
        (p : ℕ)
        → dep ≡ some p
        → scenario ≡ base
        → p ≢ pursuit_id
        → row.pwin ≡ some (formula pursuit_id p b s)
    pub others :
        (i : ℕ) (sc : Scenario)
        → (((i ≡ pursuit_id) × (sc ≡ scenario)) → ⊥)
        → (((i ≡ pursuit_id) × (sc ≡ base)) → ⊥)
        → current_of i sc t ≡ current_of i sc s

  module _ (type : AssessmentType) (row : Assessment Num) (b : Num) (s : Store Num) (v : IsValid s)
      (fresh : row.id ≡ s.next_id) (current : row.is_current ≡ true)
      (typed : row.assessment_type ≡ type) (has : row.base_pwin ≡ some b) where
    -- Without a dependency the appended row stays as it was entered.
    record_alone :
        row.pwin ≡ some b
        → IsRecorded type row.pursuit_id row.scenario b none s (append_current row s)
    record_alone p = record {
      valid = append_current-IsValid row s fresh v;
      one_more = length-append_current row s;
      row = row;
      is_latest = current_of-append row s current;
      is_new = fresh;
      has_type = typed;
      has_base = has;
      standalone = λ _. p;
      dependent_won_standalone = λ _. p;
      blended = λ q e. absurd (none_not_some e);
      others = λ i sc apart _. current_of-append_other row i sc s current apart;
    }

    module _ (p : ℕ) where
      appended : Store Num
      appended = append_current row s

      -- A BASE row of a dependent pursuit is blended.
      record_base :
          row.scenario ≡ base
          → IsRecorded type row.pursuit_id base b
              (some p)
              s
              (apply_dependency_blend fl row.pursuit_id p appended)
      unfolding appended append_current
      record_base is_base =
          let valid_appended = append_current-IsValid row s fresh v in
          let x =
            blended_of fl b (dep_win fl row.pursuit_id b appended) (dep_factor fl p appended) in
          let found : current_of row.pursuit_id base appended ≡ some row =
            subst (λ sc. current_of row.pursuit_id sc appended ≡ some row) is_base
              (current_of-append row s current) in
          let unseen = λ (i : ℕ) (sc : Scenario) (apart : ((i ≡ row.pursuit_id) × (sc ≡ base)) → ⊥).
            current_of-append_other row i sc s current (λ e. apart (e.0, e.1 ∙ is_base)) in
          record {
            valid = blend-IsValid fl row.pursuit_id p appended valid_appended;
            one_more = length-blend fl row.pursuit_id p appended ∙ length-append_current row s;
            row = record row { pwin = some x; blended_pwin = some x };
            is_latest = current_of-blend fl row.pursuit_id p appended found has;
            is_new = fresh;
            has_type = typed;
            has_base = has;
            standalone = λ e. absurd (none_not_some (sym e));
            dependent_won_standalone = λ e. cc;
            blended = λ q e _ ne. ap some (
                subst (λ k. x ≡ formula row.pursuit_id k b s) (some_inj e)
                  (formula_cong fl row.pursuit_id p b s appended
                    (unseen row.pursuit_id dependent_won (λ e'. cc))
                    (unseen p base (λ e'. ne (sym (some_inj e) ∙ e'.0))) refl));
            others = λ i sc apart apart_base.
                current_of-blend_other fl row.pursuit_id p i sc appended valid_appended.one_id
                  apart_base
                ∙ unseen i sc apart_base;
          }

      -- A DEPENDENT_WON row stays as it was entered, and the BASE row is blended.
      record_dependent_won :
          row.scenario ≡ dependent_won
          → row.pwin ≡ some b
          → IsRecorded type row.pursuit_id dependent_won b
              (some p)
              s
              (apply_dependency_blend fl row.pursuit_id p appended)
      unfolding appended
      record_dependent_won is_dw entered_pwin =
          let valid_appended = append_current-IsValid row s fresh v in
          let unseen = λ (i : ℕ) (sc : Scenario) (apart : ((i ≡ row.pursuit_id) × (sc ≡ base)) → ⊥).
            current_of-blend_other fl row.pursuit_id p i sc appended valid_appended.one_id apart in
          record {
            valid = blend-IsValid fl row.pursuit_id p appended valid_appended;
            one_more = length-blend fl row.pursuit_id p appended ∙ length-append_current row s;
            row = row;
            is_latest =
                unseen row.pursuit_id dependent_won (λ e. cc)
                ∙ subst (λ sc. current_of row.pursuit_id sc appended ≡ some row) is_dw
                    (current_of-append row s current);
            is_new = fresh;
            has_type = typed;
            has_base = has;
            standalone = λ e. absurd (none_not_some (sym e));
            dependent_won_standalone = λ _. entered_pwin;
            blended = λ q e is_base. cc;
            others = λ i sc apart apart_base.
                unseen i sc apart_base
                ∙ current_of-append_other row i sc s current (λ e. apart (e.0, e.1 ∙ is_dw));
          }

  module _ (type : AssessmentType) (row : Assessment Num) (b : Num) (s : Store Num) (v : IsValid s)
      (fresh : row.id ≡ s.next_id) (current : row.is_current ≡ true)
      (typed : row.assessment_type ≡ type) (has : row.base_pwin ≡ some b) where
    by_scenario :
        (p : ℕ) (sc : Scenario)
        → row.scenario ≡ sc
        → row.pwin ≡ (if not (is_dependent_won sc) then none else some b)
        → IsRecorded type row.pursuit_id sc b
            (some p)
            s
            (apply_dependency_blend fl row.pursuit_id p (append_current row s))
    unfolding appended
    by_scenario p base e entered_pwin = record_base type row b s v fresh current typed has p e
    by_scenario p dependent_won e entered_pwin =
        record_dependent_won type row b s v fresh current typed has p e entered_pwin

    pub submit_row-IsRecorded :
        (dep : Option ℕ)
        → row.pwin ≡ (if is_some dep && not (is_dependent_won row.scenario) then none else some b)
        → IsRecorded type row.pursuit_id row.scenario b dep s (submit_row fl dep row s)
    unfolding submit_row
    submit_row-IsRecorded none entered_pwin =
        record_alone type row b s v fresh current typed has entered_pwin
    submit_row-IsRecorded (some p) entered_pwin = by_scenario p row.scenario refl entered_pwin

    kept_by_scenario :
        (p : ℕ) (sc : Scenario)
        → row.scenario ≡ sc
        → row.pwin ≡ some b
        → IsRecorded type row.pursuit_id sc b
            (some p)
            s
            (apply_dependency_blend fl row.pursuit_id p (append_current row s))
    unfolding appended
    kept_by_scenario p base e kept = record_base type row b s v fresh current typed has p e
    kept_by_scenario p dependent_won e kept =
        record_dependent_won type row b s v fresh current typed has p e kept

    -- A row that is inserted with its Pwin, to be blended afterwards.
    pub kept_row-IsRecorded :
        (dep : Option ℕ)
        → row.pwin ≡ some b
        → IsRecorded type row.pursuit_id row.scenario b dep s (submit_row fl dep row s)
    unfolding submit_row
    kept_row-IsRecorded none kept = record_alone type row b s v fresh current typed has kept
    kept_row-IsRecorded (some p) kept = kept_by_scenario p row.scenario refl kept

  -- The other tables do not matter to a record.
  pub IsRecorded-other :
      {type : AssessmentType} {pursuit_id : ℕ} {sc : Scenario} {b : Num} {dep : Option ℕ}
      {s t : Store Num} (ps : List (Pursuit Num)) (ws : List (Answer Num))
      → IsRecorded type pursuit_id sc b dep s t
      → IsRecorded type pursuit_id sc b dep s (record t { pursuits = ps; answers = ws })
  IsRecorded-other ps ws r = record {
    valid = record {
      one_current = r.valid.one_current;
      one_id = r.valid.one_id;
      old_ids = r.valid.old_ids;
    };
    one_more = r.one_more;
    row = r.row;
    is_latest = r.is_latest;
    is_new = r.is_new;
    has_type = r.has_type;
    has_base = r.has_base;
    standalone = r.standalone;
    dependent_won_standalone = r.dependent_won_standalone;
    blended = r.blended;
    others = r.others;
  }
