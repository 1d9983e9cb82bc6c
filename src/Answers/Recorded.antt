-- ===== src/Answers/Recorded.antt =====
-- What `set_questionnaire_answers` of api/app/routers/write.py leaves behind, accepted or refused.
use mathlib.Core.Path.{subst, fun_ext}
use mathlib.Core.Option
use cpde_web.Prelude.{
  ℕ, String, ◌≡◌, refl, sym, ap, ◌∙◌, Bool, true, false, not, ◌&&◌, Option, none, some, List, ◌==◌,
  All, find?, is_some, is_some-none, if◌then◌else◌, Bool-cases, inl, inr,
}
use cpde_web.Prelude.Num.{Float}
use cpde_web.Prelude.Dict.{get}
use cpde_web.Prelude.Text.{Text, codes, text_eq}
use cpde_web.Prelude.Monad.{Tx, text, pure, modify, read, raise_if, ◌>>=◌, ◌>>◌}
use cpde_web.Prelude.Ensures.{Ensures, Ensures-raise_if, Ensures-transaction, Ensures-read}
use cpde_web.Store.{Scenario, base, Pursuit, Answer, Store, dependency_of, pursuit_of}
use cpde_web.Store.Rows.{find?-update_where, find?-passes}
use cpde_web.Store.Valid.{IsValid}
use cpde_web.Scope.Parse.{parse-Ensures}
use cpde_web.Scope.{IdText, uuid, parse_uuid, scoped, scoped_pursuit}
use cpde_web.Scoring.{Cache, scored, get_questionnaire}
use cpde_web.Dependency.{latest_questionnaire}
use cpde_web.Pwin.{drop_dependency}
use cpde_web.Bhptw.{is_dependent_won}
use cpde_web.Lifecycle.Closing.{IsHistory}
use cpde_web.Lifecycle.Recorded.{find?-one}
use cpde_web.Answers.Spec.{Spec, AnswerOf, question_codes}
use cpde_web.Answers.Check.{QuestionnaireAnswersIn, is_accepted_body, Checked, is_product, check}
use cpde_web.Answers.Handler.{
  Saved, ensure_row, write_answers, violates_one_value, clears, clear_lpta, save,
  set_questionnaire_answers,
}
use cpde_web.Answers.Stored.{stored_label}
use cpde_web.Answers.Written.{HasUniqueKeys, stored-write_answers, stored-write_answers_other}
use cpde_web.Answers.Merged.{assessment_id_of, stored-merged_answers}
use cpde_web.Answers.Checked.{IsLegal, IsChecked, check-IsChecked}
use cpde_web.Lifecycle.Closing.{IsHistory-pursuits}
use cpde_web.Answers.Row.{
  HasOwnedAnswers, ensure_row-id, ensure_row-answers, ensure_row-pursuits, ensure_row-IsValid,
  ensure_row-latest, clear_lpta-IsHistory, clear_lpta-IsValid,
}

module _ {N : Type 0} where
  -- A save that makes an LPTA of the pursuit leaves it without a dependency.
  cleared_dependency :
      (scenario : Scenario) (given : AnswerOf) (pu : Pursuit N) (i user_id : ℕ) (s : Store N)
      → pursuit_of i s ≡ some pu
      → scenario ≡ base
      → given (codes "P2") ≡ some "LPTA"
      → dependency_of (pursuit_of i (clear_lpta (clears scenario given pu) i user_id s)) ≡ some none
  unfolding clear_lpta
  cleared_dependency scenario given pu i user_id s found is_base lpta =
      elim (Bool-cases (is_some pu.depends_on_pursuit_id)) [
        | inl has ↦
            rw (is_base, lpta, has)
              (ap dependency_of (
                  find?-update_where (λ p. p.id == i) (λ p. p.id == i)
                    (drop_dependency user_id s.now) (λ p. refl) s.pursuits
                  ∙ ap (Option.map (λ p. if p.id == i then drop_dependency user_id s.now p else p))
                      found)
                ∙ rw (find?-passes (λ p. p.id == i) s.pursuits pu found) refl)
        | inr free ↦
            rw (is_base, lpta, free)
              (ap dependency_of found ∙ ap some (is_some-none pu.depends_on_pursuit_id free))
      ]

module _ (fl : Float) where
  open fl use {Num}

  module _ (cache : Cache fl Spec) where
    pub record IsSaved (pursuit_text : IdText) (body : QuestionnaireAnswersIn) (user_id : ℕ)
        (s t : Store Num) : Type 0 where
      pub pursuit_id : ℕ
      pub is_pursuit : pursuit_text ≡ uuid pursuit_id
      pub before : Pursuit Num
      pub in_scope : scoped_pursuit pursuit_id user_id s ≡ some before
      pub was_open : before.outcome ≡ none
      pub has_scenario :
          (is_dependent_won body.scenario && not (is_some before.depends_on_pursuit_id)) ≡ false
      pub spec : Spec
      pub is_spec : get_questionnaire fl cache ≡ scored spec
      pub assessment_id : ℕ
      pub is_latest :
          Option.map (λ a. a.id) (latest_questionnaire pursuit_id body.scenario t)
          ≡ some assessment_id
      pub legal :
          All
            (IsLegal spec (is_product before) (λ code. stored_label assessment_id code t.answers))
            question_codes
      pub saved :
          (code : Text) (label : Option String)
          → get code body.answers ≡ some label
          → stored_label assessment_id code t.answers ≡ label
      pub others :
          (j : ℕ) (code : Text)
          → (assessment_id == j) ≡ false
          → stored_label j code t.answers ≡ stored_label j code s.answers
      pub lpta_alone :
          body.scenario ≡ base
          → stored_label assessment_id (codes "P2") t.answers ≡ some "LPTA"
          → dependency_of (pursuit_of pursuit_id t) ≡ some none
      pub valid : IsValid t
      pub history : IsHistory t

    module _ (questions : List Text) (pursuit_text : IdText) (body : QuestionnaireAnswersIn)
        (user_id : ℕ) (s : Store Num) (v : IsValid s) (hist : IsHistory s)
        (owned : HasOwnedAnswers s) (unique : HasUniqueKeys body.answers) where
      -- The store after the writes.
      abbrev written : ℕ → Checked Num → Store Num
      written i c =
          let u = (ensure_row c.latest body.scenario i user_id s).1 in
          clear_lpta (clears body.scenario c.given c.pursuit) i user_id (record u {
            answers =
                write_answers (ensure_row c.latest body.scenario i user_id s).0 c.writes u.answers;
          })

      answers-clear :
          (b : Bool) (i : ℕ) (u : Store Num) → (clear_lpta b i user_id u).answers ≡ u.answers
      unfolding clear_lpta
      answers-clear false i u = refl
      answers-clear true i u = refl

      assessments-clear :
          (b : Bool) (i : ℕ) (u : Store Num)
          → latest_questionnaire i body.scenario (clear_lpta b i user_id u)
            ≡ latest_questionnaire i body.scenario u
      unfolding clear_lpta latest_questionnaire
      assessments-clear false i u = refl
      assessments-clear true i u = refl

      same_latest :
          (i : ℕ) (u : Store Num) (ws : List (Answer Num))
          → latest_questionnaire i body.scenario (record u { answers = ws })
            ≡ latest_questionnaire i body.scenario u
      unfolding latest_questionnaire
      same_latest i u ws = refl

      module _ (i : ℕ) (c : Checked Num) (is_i : pursuit_text ≡ uuid i)
          (h : IsChecked fl cache questions body i user_id s c) where
        abbrev row_id : ℕ
        row_id = assessment_id_of c.latest s

        abbrev row_store : Store Num
        row_store = (ensure_row c.latest body.scenario i user_id s).1

        stored_writes : (written i c).answers ≡ write_answers row_id c.writes s.answers
        stored_writes =
            let n = (ensure_row c.latest body.scenario i user_id s).0 in
            answers-clear (clears body.scenario c.given c.pursuit) i
              (record row_store { answers = write_answers n c.writes row_store.answers })
            ∙ ap (λ k. write_answers k c.writes row_store.answers)
                (ensure_row-id c.latest body.scenario i user_id s)
            ∙ ap (write_answers row_id c.writes)
                (ensure_row-answers c.latest body.scenario i user_id s)

        stored_given : (code : Text) → stored_label row_id code (written i c).answers ≡ c.given code
        stored_given code =
            ap (stored_label row_id code) stored_writes
            ∙ stored-merged_answers body c.latest c.writes s owned unique h.matches code
            ∙ sym (h.is_given code)

        written-IsSaved : IsSaved pursuit_text body user_id s (written i c)
        written-IsSaved =
            let cleared = clears body.scenario c.given c.pursuit in
            let n = (ensure_row c.latest body.scenario i user_id s).0 in
            let u = record row_store { answers = write_answers n c.writes row_store.answers } in
            let pursuits = ensure_row-pursuits c.latest body.scenario i user_id s in
            let one =
              find?-one (λ p. p.id == i) (scoped user_id s) c.pursuit s.pursuits h.in_scope
                (hist.one_pursuit i) in
            let rv = ensure_row-IsValid c.latest body.scenario i user_id s v in
            record {
              pursuit_id = i;
              is_pursuit = is_i;
              before = c.pursuit;
              in_scope = h.in_scope;
              was_open = h.was_open;
              has_scenario = h.has_scenario;
              spec = h.spec;
              is_spec = h.is_spec;
              assessment_id = row_id;
              is_latest =
                  ap (Option.map (λ a. a.id)) (
                    assessments-clear cleared i u
                    ∙ same_latest i row_store (write_answers n c.writes row_store.answers))
                  ∙ ensure_row-latest c.latest body.scenario i user_id s (sym h.is_latest);
              legal =
                  subst (λ g. All (IsLegal h.spec (is_product c.pursuit) g) question_codes)
                    (sym (fun_ext stored_given)) h.legal;
              saved = λ code label named.
                  ap (stored_label row_id code) stored_writes
                  ∙ stored-write_answers row_id code label body.answers c.writes s.answers unique
                      h.matches named;
              others = λ j code ne.
                  ap (stored_label j code) stored_writes
                  ∙ stored-write_answers_other row_id j code body.answers c.writes s.answers
                      h.matches ne;
              lpta_alone = λ is_base lpta.
                  cleared_dependency body.scenario c.given c.pursuit i user_id u
                    (ap (find? (λ p. p.id == i)) pursuits ∙ one) is_base
                    (sym (stored_given (codes "P2")) ∙ lpta);
              valid = clear_lpta-IsValid cleared i user_id u (record {
                one_current = rv.one_current;
                one_id = rv.one_id;
                old_ids = rv.old_ids;
              });
              history = clear_lpta-IsHistory cleared i user_id u (IsHistory-pursuits pursuits hist);
            }

      -- In a store that satisfies the constraints of the schema, with answers only of existing
      -- assessments and every WON or LOST pursuit BID, and for a body without repeated questions,
      -- an accepted save is on a visible and open pursuit that has the scenario. In the latest
      -- questionnaire of the scenario afterwards each question of the body has its answer, all
      -- answers together are legal for the loaded questionnaire, and a BASE pursuit that is LPTA
      -- depends on nothing; the answers of every other assessment are kept. The constraints and
      -- the history hold again, and a refused save leaves the store as it was.
      pub set_questionnaire_answers-IsSaved :
          Ensures
            (λ _ t. IsSaved pursuit_text body user_id s t)
            (λ t. t ≡ s)
            (set_questionnaire_answers fl cache questions pursuit_text body user_id s)
      unfolding set_questionnaire_answers save
      set_questionnaire_answers-IsSaved =
          let P = λ (_ : Saved) (t : Store Num). IsSaved pursuit_text body user_id s t in
          let E = λ (t : Store Num). Unit {0} in
          let invalid = text "unknown question code(s)" in
          let c = not (is_accepted_body body) in
          let k2 = λ (i : ℕ) (x : Checked Num). save fl body i user_id x in
          let k = λ (i : ℕ). read (check fl cache questions body i user_id) >>= k2 i in
          Ensures-transaction P E (raise_if c 422 invalid >> (parse_uuid pursuit_text >>= k)) s (
            Ensures-raise_if P E c 422 invalid (parse_uuid pursuit_text >>= k) s tt λ _.
              parse-Ensures P E pursuit_text k s tt λ i is_i.
                Ensures-read P E (check fl cache questions body i user_id)
                  (IsChecked fl cache questions body i user_id s) (k2 i) s tt
                  (check-IsChecked fl cache questions body i user_id s)
                  λ x checked.
                    let r = ensure_row x.latest body.scenario i user_id s in
                    let cleared = clears body.scenario x.given x.pursuit in
                    let rest : Tx (Store Num) Saved = (do
                      modify (λ t. record t { answers = write_answers r.0 x.writes t.answers })
                      modify (clear_lpta cleared i user_id)
                      pure (record {
                        scenario = body.scenario;
                        answers = body.answers;
                        dependency_cleared = cleared;
                      })) in
                    Ensures-raise_if P E (violates_one_value r.0 x.writes r.1.answers) 500
                      (text "Internal Server Error") rest r.1 tt
                      λ _. written-IsSaved i x is_i checked)
