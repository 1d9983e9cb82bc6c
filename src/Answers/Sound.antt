-- ===== src/Answers/Sound.antt =====
-- The constraints of the schema and the history under any save of answers
-- (`set_questionnaire_answers` of api/app/routers/write.py).
use cpde_web.Prelude.{ℕ, ◌≡◌, not, List}
use cpde_web.Prelude.Num.{Float}
use cpde_web.Prelude.Text.{Text}
use cpde_web.Prelude.Monad.{Tx, text, pure, modify, read, raise_if, ◌>>=◌, ◌>>◌}
use cpde_web.Prelude.Ensures.{
  Ensures, Ensures-raise_if, Ensures-transaction, Ensures-read, holds_ok,
}
use cpde_web.Store.{Store}
use cpde_web.Store.Valid.{IsValid}
use cpde_web.Scope.Parse.{parse-Ensures}
use cpde_web.Scope.{IdText, parse_uuid}
use cpde_web.Scoring.{Cache}
use cpde_web.Lifecycle.Closing.{IsHistory, IsHistory-pursuits}
use cpde_web.Answers.Spec.{Spec}
use cpde_web.Answers.Check.{QuestionnaireAnswersIn, is_accepted_body, Checked, check}
use cpde_web.Answers.Handler.{
  Saved, ensure_row, write_answers, violates_one_value, clears, clear_lpta, save,
  set_questionnaire_answers,
}
use cpde_web.Answers.Row.{
  ensure_row-pursuits, ensure_row-IsValid, clear_lpta-IsHistory, clear_lpta-IsValid,
}

module _ (fl : Float) where
  open fl use {Num}

  pub set_questionnaire_answers-IsSound :
      (cache : Cache fl Spec) (questions : List Text) (pursuit_text : IdText)
      (body : QuestionnaireAnswersIn) (user_id : ℕ) (s : Store Num)
      → IsValid s
      → IsHistory s
      → Ensures
          (λ _ t. IsValid t × IsHistory t)
          (λ t. t ≡ s)
          (set_questionnaire_answers fl cache questions pursuit_text body user_id s)
  unfolding set_questionnaire_answers save
  set_questionnaire_answers-IsSound cache questions pursuit_text body user_id s v hist =
      let P = λ (_ : Saved) (t : Store Num). IsValid t × IsHistory t in
      let E = λ (t : Store Num). Unit {0} in
      let Any = λ (x : Checked Num). Unit {0} in
      let invalid = text "unknown question code(s)" in
      let c = not (is_accepted_body body) in
      let k2 = λ (i : ℕ) (x : Checked Num). save fl body i user_id x in
      let k = λ (i : ℕ). read (check fl cache questions body i user_id) >>= k2 i in
      Ensures-transaction P E (raise_if c 422 invalid >> (parse_uuid pursuit_text >>= k)) s (
        Ensures-raise_if P E c 422 invalid (parse_uuid pursuit_text >>= k) s tt λ _.
          parse-Ensures P E pursuit_text k s tt λ i is_i.
            Ensures-read P E (check fl cache questions body i user_id) Any (k2 i) s tt
              (holds_ok Any (check fl cache questions body i user_id s) λ x e. tt)
              λ x checked.
                let r = ensure_row x.latest body.scenario i user_id s in
                let cleared = clears body.scenario x.given x.pursuit in
                let u = record r.1 { answers = write_answers r.0 x.writes r.1.answers } in
                let rv = ensure_row-IsValid x.latest body.scenario i user_id s v in
                let rest : Tx (Store Num) Saved = (do
                  modify (λ t. record t { answers = write_answers r.0 x.writes t.answers })
                  modify (clear_lpta cleared i user_id)
                  pure (record {
                    scenario = body.scenario;
                    answers = body.answers;
                    dependency_cleared = cleared;
                  })) in
                Ensures-raise_if P E (violates_one_value r.0 x.writes r.1.answers) 500
                  (text "Internal Server Error") rest r.1 tt
                  λ _. (
                    clear_lpta-IsValid cleared i user_id u (record {
                      one_current = rv.one_current;
                      one_id = rv.one_id;
                      old_ids = rv.old_ids;
                    }),
                    clear_lpta-IsHistory cleared i user_id u (
                        IsHistory-pursuits (ensure_row-pursuits x.latest body.scenario i user_id s)
                          hist),
                  ))
