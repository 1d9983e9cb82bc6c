-- ===== src/Questionnaire.antt =====
-- The answers that a recalculation scores, `by_code` in recalculate_pwin of api/app/recalc.py: the stored
-- ones of the latest questionnaire, or the labels of a preview.
use cpde_web.Prelude.{
  ℕ, String, Option, none, some, List, [], ◌∷◌, ◌++◌, ◌==◌, ◌&&◌, not, str_eq, find?, keep, map,
}
use cpde_web.Prelude.Text.{Text, codes, text_beq}
use cpde_web.Store.{Scenario, Assessment, Answer, AnswerValue, option, numeric, boolean, Store}
use cpde_web.Dependency.{latest_questionnaire}

-- An entry of `by_code`: a stored answer, or a label of the preview.
pub record Given (N : Type 0) : Type 0 where
  pub code : String
  pub label_text : Option String
  pub option_id : Option ℕ
  pub answer : Option (Answer N)

abbrev pub text_or_empty : Option String → Text
text_or_empty none = []
text_or_empty (some t) = codes t

module _ {N : Type 0} where
  unfoldable pub given_of : Answer N → AnswerValue N → Given N
  given_of a (option i label) = record {
    code = a.question;
    label_text = some label;
    option_id = some i;
    answer = some a;
  }
  given_of a (numeric x) = record {
    code = a.question;
    label_text = none;
    option_id = none;
    answer = some a;
  }
  given_of a (boolean b) = record {
    code = a.question;
    label_text = none;
    option_id = none;
    answer = some a;
  }

  unfoldable pub answers_of_row : Option (Assessment N) → Store N → List (Given N)
  unfolding given_of
  answers_of_row none s = []
  answers_of_row (some row) s =
      map (λ a. given_of a a.value) (keep (λ a. a.pwin_assessment_id == row.id) s.answers)

  abbrev given_label : String × String → Given N
  given_label (code, label) = record {
    code = code;
    label_text = some label;
    option_id = none;
    answer = none;
  }

  -- `by_code`; a questionnaire has one answer for a question.
  unfoldable pub by_code : Option (List (String × String)) → ℕ → Scenario → Store N → List (Given N)
  unfolding answers_of_row
  by_code none pursuit_id scenario s = answers_of_row (latest_questionnaire pursuit_id scenario s) s
  by_code (some labels) pursuit_id scenario s =
      map given_label (keep (λ e. not (str_eq e.1 "")) labels)

  abbrev pub given : Text → List (Given N) → Option (Given N)
  given code entries = find? (λ e. text_beq (codes e.code) code) entries

  abbrev pub label_of : Option (Given N) → Option String
  label_of none = none
  label_of (some e) = e.label_text

  -- `label(code)`
  abbrev pub label : Text → List (Given N) → Text
  label code entries = text_or_empty (label_of (given code entries))

  abbrev pub option_of : Option (Given N) → Option ℕ
  option_of none = none
  option_of (some e) = e.option_id

  unfoldable pub option_with_label : Option ℕ → Option String → Store N → Option ℕ
  option_with_label (some i) t s = some i
  option_with_label none none s = none
  option_with_label none (some t) s =
      elim (find? (λ o. str_eq o.question "P1" && (str_eq o.label_text t && o.is_active))
        s.question_options) [ none ↦ none | some o ↦ some o.id ]

  -- `p1_option_id`
  unfoldable pub p1_option_id : List (Given N) → Store N → Option ℕ
  unfolding option_with_label
  p1_option_id entries s =
      let p1 = given (codes "P1") entries in option_with_label (option_of p1) (label_of p1) s

  -- The copies of the scored answers under the new row.
  unfoldable pub copies : (row_id : ℕ) → List (Given N) → List (Answer N)
  copies row_id [] = []
  copies row_id (e ∷ entries) = elim e.answer [
    | none ↦ copies row_id entries
    | some a ↦ (record a { pwin_assessment_id = row_id }) ∷ copies row_id entries
  ]

  unfoldable pub copy_answers : (row_id : ℕ) → List (Given N) → Store N → Store N
  unfolding copies
  copy_answers row_id entries s = record s { answers = s.answers ++ copies row_id entries }
