-- ===== src/Answers/Handler.antt =====
-- The writes of `set_questionnaire_answers` of api/app/routers/write.py, and the endpoint.
use cpde_web.Prelude.{
  ℕ, String, Bool, true, false, Option, none, some, List, [], ◌∷◌, ◌++◌, ◌==◌, ◌&&◌, ◌||◌, not,
  is_some, any, keep, update_where, if◌then◌else◌,
}
use cpde_web.Prelude.Num.{Float}
use cpde_web.Prelude.Dict.{Dict}
use cpde_web.Prelude.Text.{Text, codes, text_beq, text_eq}
use cpde_web.Prelude.Monad.{Tx, text, pure, modify, read, raise_if, transaction, ◌>>=◌, ◌>>◌}
use cpde_web.Store.{
  Scenario, questionnaire, Pursuit, Assessment, Answer, option, numeric, boolean, Store,
  is_current_of,
}
use cpde_web.Scope.{IdText, parse_uuid}
use cpde_web.Scoring.{Cache}
use cpde_web.Dependency.{has_text}
use cpde_web.Pwin.{drop_dependency}
use cpde_web.Assess.{new_row, insert_assessment}
use cpde_web.Bhptw.{is_dependent_won}
use cpde_web.Answers.Spec.{Spec, AnswerOf}
use cpde_web.Answers.Check.{
  QuestionnaireAnswersIn, is_accepted_body, Write, delete, upsert, Checked, check,
}

-- A BASE save that makes an LPTA of a pursuit with a dependency.
abbrev pub is_base : Scenario → Bool
is_base scenario = not (is_dependent_won scenario)

pub record Saved : Type 0 where
  pub scenario : Scenario
  pub answers : Dict Text (Option String)
  pub dependency_cleared : Bool

module _ {N : Type 0} where
  -- The answer of an assessment to a question.
  abbrev pub answers_to : (assessment_id : ℕ) → Text → Answer N → Bool
  answers_to assessment_id code w =
      w.pwin_assessment_id == assessment_id && text_beq (codes w.question) code

  abbrev pub set_option : ℕ → String → Answer N → Answer N
  set_option option_id label w = record w { value = option option_id label }

  -- The DELETE, and the INSERT with its ON CONFLICT.
  unfoldable pub write_answer : (assessment_id : ℕ) → Write → List (Answer N) → List (Answer N)
  write_answer assessment_id (delete code) ws = keep (λ w. not (answers_to assessment_id code w)) ws
  write_answer assessment_id (upsert code option_id question label) ws =
      if any (answers_to assessment_id code) ws
      then update_where (answers_to assessment_id code) (set_option option_id label) ws
      else ws
        ++ record {
          pwin_assessment_id = assessment_id;
          question = question;
          value = option option_id label;
        }
          ∷ []

  unfoldable pub write_answers :
      (assessment_id : ℕ) → List Write → List (Answer N) → List (Answer N)
  unfolding write_answer
  write_answers assessment_id [] ws = ws
  write_answers assessment_id (w ∷ writes) ws =
      write_answers assessment_id writes (write_answer assessment_id w ws)

  abbrev pub has_option : Answer N → Bool
  has_option w = elim w.value [ option i label ↦ true | numeric x ↦ false | boolean b ↦ false ]

  -- `ck_pwin_answer_one_value`: the ON CONFLICT sets the option beside a number that is there.
  unfoldable pub violates_one_value : (assessment_id : ℕ) → List Write → List (Answer N) → Bool
  violates_one_value assessment_id [] ws = false
  violates_one_value assessment_id (delete code ∷ writes) ws =
      violates_one_value assessment_id writes ws
  violates_one_value assessment_id (upsert code i q label ∷ writes) ws =
      any (λ w. answers_to assessment_id code w && not (has_option w)) ws
      || violates_one_value assessment_id writes ws

  abbrev pub saved_row : Scenario → (pursuit_id user_id : ℕ) → Store N → Assessment N
  saved_row scenario pursuit_id user_id s =
      record (new_row scenario questionnaire "manual:answer-save" pursuit_id user_id s) {
        is_current = not (any (is_current_of pursuit_id scenario) s.assessments);
      }

  -- The assessment that holds the answers, inserted where the scenario has none.
  unfoldable pub ensure_row :
      Option (Assessment N) → Scenario → (pursuit_id user_id : ℕ) → Store N → ℕ × Store N
  ensure_row (some a) scenario pursuit_id user_id s = (a.id, s)
  ensure_row none scenario pursuit_id user_id s =
      (s.next_id, insert_assessment (saved_row scenario pursuit_id user_id s) s)

  abbrev pub clears : Scenario → AnswerOf → Pursuit N → Bool
  clears scenario given pu =
      is_base scenario && has_text "LPTA" (given (codes "P2")) && is_some pu.depends_on_pursuit_id

  unfoldable pub clear_lpta : Bool → (pursuit_id user_id : ℕ) → Store N → Store N
  clear_lpta false pursuit_id user_id s = s
  clear_lpta true pursuit_id user_id s = record s {
    pursuits = update_where (λ p. p.id == pursuit_id) (drop_dependency user_id s.now) s.pursuits;
  }

module _ (fl : Float) where
  open fl use {Num}

  -- From the first write on.
  unfoldable pub save :
      QuestionnaireAnswersIn → (pursuit_id user_id : ℕ) → Checked Num → Tx (Store Num) Saved
  unfolding ensure_row write_answers violates_one_value clear_lpta
  save body pursuit_id user_id checked s =
      let (assessment_id, s') = ensure_row checked.latest body.scenario pursuit_id user_id s in
      let cleared = clears body.scenario checked.given checked.pursuit in
      (do
        raise_if (violates_one_value assessment_id checked.writes s'.answers) 500
            (text "Internal Server Error")
        modify (λ t. record t { answers = write_answers assessment_id checked.writes t.answers })
        modify (clear_lpta cleared pursuit_id user_id)
        pure (record {
          scenario = body.scenario;
          answers = body.answers;
          dependency_cleared = cleared;
        }))
        s'

  module _ (cache : Cache fl Spec) (questions : List Text) where
    unfoldable pub set_questionnaire_answers :
        IdText → QuestionnaireAnswersIn → (user_id : ℕ) → Tx (Store Num) Saved
    unfolding is_accepted_body check save
    set_questionnaire_answers pursuit_text body user_id = transaction (do
      raise_if (not (is_accepted_body body)) 422 (text "unknown question code(s)")
      i ← parse_uuid pursuit_text
      checked ← read (check fl cache questions body i user_id)
      save body i user_id checked)
