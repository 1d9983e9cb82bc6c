-- ===== src/Answers/Row.antt =====
-- The assessment that holds the answers of a save (`set_questionnaire_answers` of
-- api/app/routers/write.py), and the pursuits after the clearing of an LPTA dependency.
use mathlib.Core.Option
use cpde_web.Prelude.{ℕ, ◌≡◌, ◌<◌, refl, ap, Bool, true, false, Option, none, some, ◌==◌, All, any}
use cpde_web.Prelude.Text.{text_eq}
use cpde_web.Prelude.Ensures.{negated}
use cpde_web.Store.{Scenario, Assessment, Store, is_current_of}
use cpde_web.Store.Valid.{IsValid}
use cpde_web.Dependency.{latest_questionnaire}
use cpde_web.Dependency.Latest.{latest_questionnaire-insert}
use cpde_web.Pwin.{drop_dependency}
use cpde_web.Assess.{insert_assessment}
use cpde_web.Assess.Insert.{insert-IsValid}
use cpde_web.Lifecycle.Closing.{IsHistory, IsHistory-update_where}
use cpde_web.Answers.Handler.{saved_row, ensure_row, clear_lpta}
use cpde_web.Answers.Merged.{assessment_id_of}

module _ {N : Type 0} where
  -- An answer belongs to an assessment that exists.
  abbrev pub HasOwnedAnswers : Store N → Type 0
  HasOwnedAnswers s = All (λ w. w.pwin_assessment_id < s.next_id) s.answers

  pub ensure_row-id :
      (latest : Option (Assessment N)) (scenario : Scenario) (i user_id : ℕ) (s : Store N)
      → (ensure_row latest scenario i user_id s).0 ≡ assessment_id_of latest s
  unfolding ensure_row
  ensure_row-id none scenario i user_id s = refl
  ensure_row-id (some a) scenario i user_id s = refl

  pub ensure_row-answers :
      (latest : Option (Assessment N)) (scenario : Scenario) (i user_id : ℕ) (s : Store N)
      → (ensure_row latest scenario i user_id s).1.answers ≡ s.answers
  unfolding ensure_row insert_assessment
  ensure_row-answers none scenario i user_id s = refl
  ensure_row-answers (some a) scenario i user_id s = refl

  pub ensure_row-pursuits :
      (latest : Option (Assessment N)) (scenario : Scenario) (i user_id : ℕ) (s : Store N)
      → (ensure_row latest scenario i user_id s).1.pursuits ≡ s.pursuits
  unfolding ensure_row insert_assessment
  ensure_row-pursuits none scenario i user_id s = refl
  ensure_row-pursuits (some a) scenario i user_id s = refl

  pub ensure_row-IsValid :
      (latest : Option (Assessment N)) (scenario : Scenario) (i user_id : ℕ) (s : Store N)
      → IsValid s
      → IsValid (ensure_row latest scenario i user_id s).1
  unfolding ensure_row
  ensure_row-IsValid none scenario i user_id s v =
      insert-IsValid (saved_row scenario i user_id s) s refl
        (negated (any (is_current_of i scenario) s.assessments)) v
  ensure_row-IsValid (some a) scenario i user_id s v = v

  pub ensure_row-latest :
      (latest : Option (Assessment N)) (scenario : Scenario) (i user_id : ℕ) (s : Store N)
      → latest_questionnaire i scenario s ≡ latest
      → Option.map
          (λ a. a.id)
          (latest_questionnaire i scenario (ensure_row latest scenario i user_id s).1)
        ≡ some (assessment_id_of latest s)
  unfolding ensure_row insert_assessment
  ensure_row-latest none scenario i user_id s h = ap (Option.map (λ a. a.id)) (
      latest_questionnaire-insert (saved_row scenario i user_id s) s
        (ensure_row none scenario i user_id s).1 refl refl h)
  ensure_row-latest (some a) scenario i user_id s h = ap (Option.map (λ a. a.id)) h

  -- The table of pursuits after the clearing.
  pub clear_lpta-IsHistory :
      (c : Bool) (i user_id : ℕ) (s : Store N) → IsHistory s → IsHistory (clear_lpta c i user_id s)
  unfolding clear_lpta
  clear_lpta-IsHistory false i user_id s v = v
  clear_lpta-IsHistory true i user_id s v =
      IsHistory-update_where (λ p. p.id == i) (drop_dependency user_id s.now) s (λ p. refl)
        (λ p h. h) v

  pub clear_lpta-IsValid :
      (c : Bool) (i user_id : ℕ) (s : Store N) → IsValid s → IsValid (clear_lpta c i user_id s)
  unfolding clear_lpta
  clear_lpta-IsValid false i user_id s v = v
  clear_lpta-IsValid true i user_id s v = record {
    one_current = v.one_current;
    one_id = v.one_id;
    old_ids = v.old_ids;
  }
