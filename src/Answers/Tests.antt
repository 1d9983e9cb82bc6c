-- ===== src/Answers/Tests.antt =====
-- A save of an answer on the sample's second pursuit, and one that the cascades refuse.
use cpde_web.Prelude.{◌≡◌, refl, true, false, none, some, [], ◌∷◌, arith}
use cpde_web.Prelude.Thousandths.{thousandths}
use cpde_web.Prelude.Text.{codes, upper}
use cpde_web.Prelude.Monad.{is_ok}
use cpde_web.Prelude.Ensures.{Ensures}
use cpde_web.Store.{base}
use cpde_web.Scope.{uuid, scoped, user_has_scope, is_visible_from, parse_uuid}
use cpde_web.Scoring.{Cache, get_questionnaire, from_loaded}
use cpde_web.Dependency.{latest_questionnaire}
use cpde_web.Sample.{sample, sample-IsValid, sample-IsHistory}
use cpde_web.Answers.Spec.{
  Spec, plain, options_of, spec_options, cascade, cascaded_options, remove_tm1b, force_tm2, map_tm3,
}
use cpde_web.Answers.Check.{
  QuestionnaireAnswersIn, is_accepted_body, check, check_question, check_questions, resolve_write,
  resolve_writes,
}
use cpde_web.Answers.Handler.{
  ensure_row, write_answer, write_answers, violates_one_value, clear_lpta, save,
  set_questionnaire_answers,
}
use cpde_web.Answers.Recorded.{IsSaved, set_questionnaire_answers-IsSaved}

abbrev spec : Spec
spec = record {
  questions =
      (record { id = "p1"; options = plain ("Low" ∷ "High" ∷ []) })
      ∷ (record { id = "tm3"; options = plain [] })
      ∷ [];
  tm1a_to_tm1b = record { when_question = none; when_answer = none; remove_option = none };
  tm1a_tm1b_to_tm2 = record { conditions = []; force_options = [] };
  tm2_to_tm3 = [];
}

abbrev cache : Cache thousandths Spec
cache = record {
  tables = some [];
  base_score = some 500;
  fee_rates = none;
  questionnaire = some spec;
  last_fetched = 4;
}

abbrev low : QuestionnaireAnswersIn
low = record { scenario = base; answers = (codes "P1", some "Low") ∷ [] }

-- TM3 without a TM2 answer has the one option N/A.
abbrev unmapped : QuestionnaireAnswersIn
unmapped = record { scenario = base; answers = (codes "TM3", some "Yes") ∷ [] }

set_questionnaire_answers-IsSaved_example :
    Ensures
      (λ _ t. IsSaved thousandths cache (uuid 2) low 7 sample t)
      (λ t. t ≡ sample)
      (set_questionnaire_answers thousandths cache [] (uuid 2) low 7 sample)
set_questionnaire_answers-IsSaved_example =
    set_questionnaire_answers-IsSaved thousandths cache [] (uuid 2) low 7 sample sample-IsValid
      sample-IsHistory (omega arith, tt) (refl, tt)

accepted : is_ok (set_questionnaire_answers thousandths cache [] (uuid 2) low 7 sample).0 ≡ true
unfolding set_questionnaire_answers is_accepted_body check check_questions check_question
    resolve_writes resolve_write get_questionnaire from_loaded cascaded_options spec_options
    options_of cascade remove_tm1b force_tm2 map_tm3 save ensure_row violates_one_value
    write_answers write_answer clear_lpta latest_questionnaire scoped user_has_scope is_visible_from
    parse_uuid upper
accepted = refl

refused :
    is_ok (set_questionnaire_answers thousandths cache [] (uuid 2) unmapped 7 sample).0 ≡ false
unfolding set_questionnaire_answers is_accepted_body check check_questions check_question
    resolve_writes resolve_write get_questionnaire from_loaded cascaded_options spec_options
    options_of cascade remove_tm1b force_tm2 map_tm3 save ensure_row violates_one_value
    write_answers write_answer clear_lpta latest_questionnaire scoped user_has_scope is_visible_from
    parse_uuid upper
refused = refl
