-- ===== src/Answers/Merged.antt =====
-- The merged answers of `set_questionnaire_answers` (api/app/routers/write.py) are the answers that are
-- stored after the save.
use cpde_web.Prelude.{
  ℕ, String, ◌≡◌, ◌<◌, refl, sym, ap, ◌∙◌, Option, none, some, List, [], ◌∷◌, ◌++◌, ◌==◌, All,
  arith, find?, keep, map, Bool-cases, Option-cases, inl, inr,
}
use cpde_web.Prelude.Dict.{Dict, get}
use cpde_web.Prelude.Text.{Text, codes, text_beq, text_eq}
use cpde_web.Store.{Assessment, Answer, Store}
use cpde_web.Answers.Check.{
  QuestionnaireAnswersIn, Write, join, label_of_value, current_answers, merged_answers,
}
use cpde_web.Answers.Handler.{answers_to, write_answers}
use cpde_web.Answers.Stored.{AllMatch, found_label, stored_label}
use cpde_web.Answers.Written.{HasUniqueKeys, stored-write_answers_kept, stored-write_answers}

text_beq_sym : (a b : Text) → text_beq a b ≡ text_beq b a
text_beq_sym [] [] = refl
text_beq_sym [] (_ ∷ _) = refl
text_beq_sym (_ ∷ _) [] = refl
text_beq_sym (x ∷ xs) (y ∷ ys) = ground (arith, text_beq_sym xs ys)

-- A key of the second dictionary is seen where the first has none.
get-append_none :
    (code : Text) (a b : Dict Text (Option String))
    → get code a ≡ none
    → get code (a ++ b) ≡ get code b
get-append_none code [] b h = refl
get-append_none code ((k, v) ∷ a) b h = ground (arith, get-append_none code a b)

get-append_some :
    (code : Text) (l : Option String) (a b : Dict Text (Option String))
    → get code a ≡ some l
    → get code (a ++ b) ≡ some l
get-append_some code l [] b h = cc
get-append_some code l ((k, v) ∷ a) b h = ground (arith, get-append_some code l a b)

module _ {N : Type 0} where
  -- The answers of one assessment, as a list of answers.
  current_list :
      (i : ℕ) (code : Text) (ws : List (Answer N))
      → join (
          get code (
            map
              (λ w. (codes w.question, label_of_value w.value))
              (keep (λ w. w.pwin_assessment_id == i) ws)))
        ≡ stored_label i code ws
  current_list i code [] = refl
  current_list i code (w ∷ ws) = elim (Bool-cases (w.pwin_assessment_id == i)) [
    | inl mine ↦ elim (Bool-cases (text_beq (codes w.question) code)) [
      | inl hit ↦ rw (mine, hit, text_beq_sym code (codes w.question)) (rw hit refl)
      | inr miss ↦
          rw (mine, miss, text_beq_sym code (codes w.question)) (rw miss (current_list i code ws))
    ]
    | inr other ↦ rw other (current_list i code ws)
  ]

  -- An assessment that is yet to be inserted has no answers.
  no_answers :
      (i : ℕ) (code : Text) (ws : List (Answer N))
      → All (λ (w : Answer N). w.pwin_assessment_id < i) ws
      → find? (answers_to i code) ws ≡ none
  no_answers i code [] h = refl
  no_answers i code (w ∷ ws) h = ground (arith, no_answers i code ws h.1)

  abbrev pub assessment_id_of : Option (Assessment N) → Store N → ℕ
  assessment_id_of none s = s.next_id
  assessment_id_of (some a) s = a.id

  pub current-stored :
      (latest : Option (Assessment N)) (code : Text) (s : Store N)
      → All (λ (w : Answer N). w.pwin_assessment_id < s.next_id) s.answers
      → join (get code (current_answers latest s))
        ≡ stored_label (assessment_id_of latest s) code s.answers
  current-stored none code s old = ap found_label (sym (no_answers s.next_id code s.answers old))
  current-stored (some a) code s old = current_list a.id code s.answers

  pub stored-merged_answers :
      (body : QuestionnaireAnswersIn) (latest : Option (Assessment N)) (writes : List Write)
      (s : Store N)
      → All (λ (w : Answer N). w.pwin_assessment_id < s.next_id) s.answers
      → HasUniqueKeys body.answers
      → AllMatch body.answers writes
      → (code : Text)
      → stored_label
          (assessment_id_of latest s)
          code
          (write_answers (assessment_id_of latest s) writes s.answers)
        ≡ join (get code (merged_answers body latest s))
  stored-merged_answers body latest writes s old unique matches code =
      let i = assessment_id_of latest s in
      let now = current_answers latest s in
      elim (Option-cases (get code body.answers)) [
        | inl unnamed ↦
            stored-write_answers_kept i code body.answers writes s.answers matches unnamed
            ∙ sym (current-stored latest code s old)
            ∙ sym (ap join (get-append_none code body.answers now unnamed))
        | inr (label, named) ↦
            stored-write_answers i code label body.answers writes s.answers unique matches named
            ∙ sym (ap join (get-append_some code label body.answers now named))
      ]
