-- ===== src/Answers/Checked.antt =====
-- What is known of a save that `set_questionnaire_answers` (api/app/routers/write.py) has not refused before
-- its first write.
use mathlib.Core.Path.{subst}
use cpde_web.Prelude.{
  ℕ, String, ◌≡◌, refl, ap, Bool, true, false, not, ◌&&◌, Option, none, some, List, [], ◌∷◌, All,
  is_some, is_some-none, str_eq, eq_iff, find?, any, arith,
}
use cpde_web.Prelude.Num.{Float}
use cpde_web.Prelude.Dict.{Dict, get}
use cpde_web.Prelude.Text.{Text, codes, text_beq, text_eq}
use cpde_web.Prelude.Monad.{ok, text, ◌and_then◌, require, found}
use cpde_web.Prelude.Ensures.{
  require_then, found_then, and_then_ok, Holds, ok_inj, negated, required, holds_ok,
}
use cpde_web.Store.{QuestionOption, Store}
use cpde_web.Store.Rows.{find?-passes}
use cpde_web.Scope.{scoped_pursuit}
use cpde_web.Scoring.{Cache, Scored, scored, table_error, get_questionnaire}
use cpde_web.Dependency.{latest_questionnaire}
use cpde_web.Bhptw.{is_dependent_won}
use cpde_web.Answers.Spec.{Spec, AnswerOf, question_codes, cascaded_options}
use cpde_web.Answers.Check.{
  QuestionnaireAnswersIn, Write, join, merged_answers, check_question, check_questions,
  resolve_write, resolve_writes, Checked, spec_of, is_product, check,
}
use cpde_web.Answers.Stored.{AllMatch, write_code, write_label, IsNamed}

-- An answer is one of the options that the cascades leave for the question.
abbrev pub IsLegal : Spec → (is_product : Bool) → AnswerOf → Text × String → Type 0
IsLegal spec product given (code, spec_id) =
    (label : String)
    → given code ≡ some label
    → (options : List String) × (cascaded_options spec spec_id product given ≡ some options)
      × (any (str_eq label) options ≡ true)

module _ (spec : Spec) (product : Bool) (given : AnswerOf) where
  check_question-IsLegal :
      (q : Text × String) (u : Unit {0})
      → check_question spec product given q ≡ ok u
      → IsLegal spec product given q
  unfolding check_question
  check_question-IsLegal (code, spec_id) u h label e =
      let h1 =
        subst
          (λ g.
            elim g [
              | none ↦ ok tt
              | some l ↦
                  found (cascaded_options spec spec_id product given) 502
                    (text "the engine spec has no such question")
                  and_then λ options.
                      require (any (str_eq l) options) 400 (text "not a valid answer")
            ]
            ≡ ok u)
          e h in
      let (options, f, h2) = found_then (cascaded_options spec spec_id product given) _ _ _ h1 in
      (options, f, required (any (str_eq label) options) _ _ u h2)

  check_questions-IsLegal :
      (qs : List (Text × String)) (u : Unit {0})
      → check_questions spec product given qs ≡ ok u
      → All (IsLegal spec product given) qs
  unfolding check_questions
  check_questions-IsLegal [] u h = tt
  check_questions-IsLegal (q ∷ qs) u h =
      let (v, e, rest) = and_then_ok (check_question spec product given q) _ h in
      (check_question-IsLegal q v e, check_questions-IsLegal qs u rest)

module _ {N : Type 0} (questions : List Text) (s : Store N) where
  resolve_write-matches :
      (e : Text × Option String) (w : Write)
      → resolve_write questions s e ≡ ok w
      → (write_code w ≡ e.0) × (write_label w ≡ e.1) × IsNamed w
  unfolding resolve_write
  resolve_write-matches (code, none) w h =
      let (q, f, g) = found_then (find? (text_beq code) questions) _ _ _ h in
      subst (λ x. (write_code x ≡ code) × (write_label x ≡ none) × IsNamed x) (ok_inj g)
        (refl, refl, tt)
  resolve_write-matches (code, some label) w h =
      let p = λ (o : QuestionOption).
        text_beq (codes o.question) code && (str_eq o.label_text label && o.is_active) in
      let (o, f, g) = found_then (find? p s.question_options) _ _ _ h in
      let hit = find?-passes p s.question_options o f in
      subst (λ x. (write_code x ≡ code) × (write_label x ≡ some label) × IsNamed x) (ok_inj g)
        (refl, ap some ((eq_iff o.label_text label).0 (ground arith)), ground arith)

  resolve_writes-AllMatch :
      (d : Dict Text (Option String)) (ws : List Write)
      → resolve_writes questions s d ≡ ok ws
      → AllMatch d ws
  unfolding resolve_writes
  resolve_writes-AllMatch [] ws h = subst (AllMatch []) (ok_inj h) tt
  resolve_writes-AllMatch (e ∷ d) ws h =
      let (w, f, h1) = and_then_ok (resolve_write questions s e) _ h in
      let (rest, g, h2) = and_then_ok (resolve_writes questions s d) _ h1 in
      subst (AllMatch (e ∷ d)) (ok_inj h2)
        (resolve_write-matches e w f, resolve_writes-AllMatch d rest g)

spec_of-ok : (x : Scored Spec) (spec : Spec) → spec_of x ≡ ok spec → x ≡ scored spec
spec_of-ok (scored a) spec h = ap scored (ok_inj h)
spec_of-ok table_error spec h = cc

module _ (fl : Float) where
  open fl use {Num}

  module _ (cache : Cache fl Spec) (questions : List Text) (body : QuestionnaireAnswersIn)
      (i user_id : ℕ) (s : Store Num) where
    pub record IsChecked (c : Checked Num) : Type 0 where
      pub in_scope : scoped_pursuit i user_id s ≡ some c.pursuit
      pub was_open : c.pursuit.outcome ≡ none
      pub has_scenario :
          (is_dependent_won body.scenario && not (is_some c.pursuit.depends_on_pursuit_id)) ≡ false
      pub spec : Spec
      pub is_spec : get_questionnaire fl cache ≡ scored spec
      pub is_latest : c.latest ≡ latest_questionnaire i body.scenario s
      pub is_given : (code : Text) → c.given code ≡ join (get code (merged_answers body c.latest s))
      pub legal : All (IsLegal spec (is_product c.pursuit) c.given) question_codes
      pub matches : AllMatch body.answers c.writes

    check-ok : (c : Checked Num) → check fl cache questions body i user_id s ≡ ok c → IsChecked c
    unfolding check
    check-ok c h =
        let (pu, e0, h0) = found_then (scoped_pursuit i user_id s) _ _ _ h in
        let (c1, h1) = require_then (not (is_some pu.outcome)) _ _ h0 in
        let (c2, h2) =
          require_then
            (not (is_dependent_won body.scenario && not (is_some pu.depends_on_pursuit_id))) _ _
            h1 in
        let (spec, e3, h3) = and_then_ok (spec_of (get_questionnaire fl cache)) _ h2 in
        let latest = latest_questionnaire i body.scenario s in
        let given = λ (code : Text). join (get code (merged_answers body latest s)) in
        let (u, e4, h4) =
          and_then_ok (check_questions spec (is_product pu) given question_codes) _ h3 in
        let (writes, e5, h5) = and_then_ok (resolve_writes questions s body.answers) _ h4 in
        subst IsChecked (ok_inj h5) (record {
          in_scope = e0;
          was_open = is_some-none pu.outcome (negated (is_some pu.outcome) c1);
          has_scenario =
              negated (is_dependent_won body.scenario && not (is_some pu.depends_on_pursuit_id)) c2;
          spec = spec;
          is_spec = spec_of-ok (get_questionnaire fl cache) spec e3;
          is_latest = refl;
          is_given = λ code. refl;
          legal = check_questions-IsLegal spec (is_product pu) given question_codes u e4;
          matches = resolve_writes-AllMatch questions s body.answers writes e5;
        })

    pub check-IsChecked : Holds IsChecked (check fl cache questions body i user_id s)
    check-IsChecked = holds_ok IsChecked (check fl cache questions body i user_id s) check-ok
