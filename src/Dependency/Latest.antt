-- ===== src/Dependency/Latest.antt =====
-- The latest questionnaire of a scenario (`latest_questionnaire_id` of api/app/recalc.py) after the first
-- one has been inserted.
use cpde_web.Prelude.{
  ◌≡◌, refl, Bool, true, none, some, List, [], ◌∷◌, ◌++◌, ◌==◌, ◌&&◌, ==_refl, arith, Bool-cases,
  inl, inr,
}
use cpde_web.Store.{Assessment, Store, questionnaire, same_scenario, is_questionnaire}
use cpde_web.Assess.Laws.{same_scenario_refl}
use cpde_web.Dependency.{latest, later_of, latest_questionnaire}

module _ {N : Type 0} where
  latest-append :
      (p : Assessment N → Bool) (row : Assessment N) (l : List (Assessment N))
      → latest p l ≡ none
      → p row ≡ true
      → latest p (l ++ row ∷ []) ≡ some row
  unfolding latest later_of
  latest-append p row [] h e = rw e refl
  latest-append p row (x ∷ l) h e = elim (Bool-cases (p x)) [
    | inl on ↦ ground arith
    | inr off ↦ rw off (latest-append p row l (ground arith) e)
  ]

  pub latest_questionnaire-insert :
      (row : Assessment N) (s t : Store N)
      → t.assessments ≡ s.assessments ++ row ∷ []
      → row.assessment_type ≡ questionnaire
      → latest_questionnaire row.pursuit_id row.scenario s ≡ none
      → latest_questionnaire row.pursuit_id row.scenario t ≡ some row
  unfolding latest_questionnaire
  latest_questionnaire-insert row s t same typed h = rw same (
      latest-append
        (λ a.
          a.pursuit_id == row.pursuit_id
          && same_scenario a.scenario row.scenario
          && is_questionnaire a.assessment_type)
        row s.assessments h
        (rw (==_refl row.pursuit_id, same_scenario_refl row.scenario, typed) refl))
