-- ===== src/Answers/Check.antt =====
-- What `set_questionnaire_answers` of api/app/routers/write.py reads, checks and resolves before it
-- writes. Question codes are texts; the body is a dictionary from a code to a label, or to null to clear
-- the answer.
use cpde_web.Prelude.{
  ℕ, String, Bool, true, Option, none, some, List, [], ◌∷◌, ◌++◌, ◌==◌, ◌&&◌, not, str_eq, is_some,
  find?, any, all, keep, map,
}
use cpde_web.Prelude.Num.{Float}
use cpde_web.Prelude.Dict.{Dict, get}
use cpde_web.Prelude.Text.{Text, codes, text_beq, text_eq}
use cpde_web.Prelude.Monad.{Result, ok, http_exception, text, ◌and_then◌, require, found}
use cpde_web.Store.{Scenario, Pursuit, Assessment, AnswerValue, option, Store}
use cpde_web.Scope.{scoped_pursuit}
use cpde_web.Scoring.{Cache, Scored, scored, table_error, get_questionnaire}
use cpde_web.Dependency.{has_text, latest_questionnaire}
use cpde_web.Bhptw.{is_dependent_won}
use cpde_web.Answers.Spec.{Spec, AnswerOf, question_codes, cascaded_options}

pub record QuestionnaireAnswersIn : Type 0 where
  pub scenario : Scenario
  pub answers : Dict Text (Option String)

-- `min_length=1`, and `_known_codes`.
unfoldable pub is_accepted_body : QuestionnaireAnswersIn → Bool
is_accepted_body body =
    any (λ _. true) body.answers
    && all (λ e. any (λ q. text_beq q.0 e.0) question_codes) body.answers

-- A label, `None` also where the key is absent.
abbrev pub join : Option (Option String) → Option String
join none = none
join (some o) = o

-- One question with the option to write, or the answer to delete.
pub data Write : Type 0 where
  delete : (question : Text) → Write
  upsert : (question : Text) → (option_id : ℕ) → (option_question label : String) → Write

-- One question of the check of the combination.
unfoldable pub check_question :
    Spec → (is_product : Bool) → AnswerOf → Text × String → Result (Unit {0})
check_question spec is_product given (code, spec_id) = elim (given code) [
  | none ↦ ok tt
  | some label ↦
      found (cascaded_options spec spec_id is_product given) 502
        (text "the engine spec has no such question")
      and_then λ options. require (any (str_eq label) options) 400 (text "not a valid answer")
]

unfoldable pub check_questions :
    Spec → (is_product : Bool) → AnswerOf → List (Text × String) → Result (Unit {0})
unfolding check_question
check_questions spec is_product given [] = ok tt
check_questions spec is_product given (q ∷ qs) =
    check_question spec is_product given q and_then λ _. check_questions spec is_product given qs

pub record Checked (N : Type 0) : Type 0 where
  pub pursuit : Pursuit N
  pub latest : Option (Assessment N)
  pub given : AnswerOf
  pub writes : List Write

module _ {N : Type 0} where
  abbrev pub label_of_value : AnswerValue N → Option String
  label_of_value (option i label) = some label
  label_of_value _ = none

  -- `{r["code"]: r["label_text"] for r in rows}`; a questionnaire has one answer for a question.
  abbrev pub current_answers : Option (Assessment N) → Store N → Dict Text (Option String)
  current_answers none s = []
  current_answers (some a) s =
      map (λ w. (codes w.question, label_of_value w.value))
        (keep (λ w. w.pwin_assessment_id == a.id) s.answers)

  -- `{**current, **body.answers}`, read from the end.
  abbrev pub merged_answers :
      QuestionnaireAnswersIn → Option (Assessment N) → Store N → Dict Text (Option String)
  merged_answers body a s = body.answers ++ current_answers a s

  -- `to_write`: the options of the labels, before anything is written.
  unfoldable pub resolve_write :
      (questions : List Text) → Store N → Text × Option String → Result Write
  resolve_write questions s (code, none) =
      found (find? (text_beq code) questions) 400 (text "unknown question code") and_then λ _.
      ok (delete code)
  resolve_write questions s (code, some label) =
      found
        (find? (λ o. text_beq (codes o.question) code && (str_eq o.label_text label && o.is_active))
          s.question_options)
        400 (text "not a recognized answer")
      and_then λ o. ok (upsert code o.id o.question o.label_text)

  unfoldable pub resolve_writes :
      (questions : List Text) → Store N → Dict Text (Option String) → Result (List Write)
  unfolding resolve_write
  resolve_writes questions s [] = ok []
  resolve_writes questions s (e ∷ d) = resolve_write questions s e and_then λ w.
      resolve_writes questions s d and_then λ ws. ok (w ∷ ws)

-- `get_questionnaire`, with its error as the handler words it.
abbrev pub spec_of : Scored Spec → Result Spec
spec_of table_error = http_exception 502 (text "Cannot validate this answer right now")
spec_of (scored spec) = ok spec

abbrev pub is_product : {N : Type 0} → Pursuit N → Bool
is_product pu = has_text "PRODUCT" pu.type_group

module _ (fl : Float) where
  open fl use {Num}

  module _ (cache : Cache fl Spec) (questions : List Text) where
    -- What is read, checked and resolved before anything is written.
    unfoldable pub check :
        QuestionnaireAnswersIn → (pursuit_id user_id : ℕ) → Store Num → Result (Checked Num)
    unfolding check_questions resolve_writes
    check body pursuit_id user_id s =
        found (scoped_pursuit pursuit_id user_id s) 404 (text "pursuit not found") and_then λ pu.
        require (not (is_some pu.outcome)) 409 (text "pursuit is closed and cannot be edited")
        and_then λ _.
            require (not (is_dependent_won body.scenario && not (is_some pu.depends_on_pursuit_id)))
              400 (text "this pursuit has no dependency")
            and_then λ _. spec_of (get_questionnaire fl cache) and_then λ spec.
                let latest = latest_questionnaire pursuit_id body.scenario s in
                let given = λ (code : Text). join (get code (merged_answers body latest s)) in
                check_questions spec (is_product pu) given question_codes and_then λ _.
                resolve_writes questions s body.answers and_then λ writes.
                ok (record { pursuit = pu; latest = latest; given = given; writes = writes })
