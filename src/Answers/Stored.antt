-- ===== src/Answers/Stored.antt =====
-- The stored answers under the writes of `set_questionnaire_answers` (api/app/routers/write.py), by what a
-- search for an answer finds.
use mathlib.Core.Option
use mathlib.Core.Bool.{false≢true}
use cpde_web.Prelude.{
  ℕ, String, ◌≡◌, refl, sym, ap, ◌∙◌, Bool, true, false, not, Option, none, some, List, [], ◌∷◌,
  ◌==◌, ==_refl, arith, any, find?, keep, if◌then◌else◌, Bool-cases, inl, inr,
}
use cpde_web.Prelude.Dict.{Dict}
use cpde_web.Prelude.Text.{Text, codes, text_beq, text_beq_iff, text_eq}
use cpde_web.Store.{Answer, option}
use cpde_web.Store.Rows.{find?-update_where, find?-update_where_apart, find?-append, any-find?}
use cpde_web.Answers.Check.{Write, delete, upsert, label_of_value}
use cpde_web.Answers.Handler.{answers_to, set_option, write_answer}

abbrev pub write_code : Write → Text
write_code (delete code) = code
write_code (upsert code i q label) = code

abbrev pub write_label : Write → Option String
write_label (delete code) = none
write_label (upsert code i q label) = some label

abbrev pub IsNamed : Write → Type 0
IsNamed (delete code) = Unit
IsNamed (upsert code i q label) = text_beq (codes q) code ≡ true

-- The writes are those of the body, question by question.
abbrev pub AllMatch : Dict Text (Option String) → List Write → Type 0
AllMatch [] [] = Unit
AllMatch (e ∷ d) (w ∷ ws) =
    ((write_code w ≡ e.0) × (write_label w ≡ e.1) × IsNamed w) × AllMatch d ws
AllMatch _ _ = ⊥

module _ {A : Type 0} (p r : A → Bool) (apart : (x : A) → p x ≡ true → r x ≡ false) where
  find?-keep_apart : (l : List A) → find? r (keep (λ x. not (p x)) l) ≡ find? r l
  find?-keep_apart [] = refl
  find?-keep_apart (x ∷ l) = ground (arith, apart x, find?-keep_apart l)

find?-keep_other :
    {A : Type 0} (p : A → Bool) (l : List A) → find? p (keep (λ x. not (p x)) l) ≡ none
find?-keep_other p [] = refl
find?-keep_other p (x ∷ l) = ground (arith, find?-keep_other p l)

find?-none_of_any : {A : Type 0} (p : A → Bool) (l : List A) → any p l ≡ false → find? p l ≡ none
find?-none_of_any p [] h = refl
find?-none_of_any p (x ∷ l) h = ground (arith, find?-none_of_any p l)

appended :
    {A : Type 0} (p : A → Bool) (x : A) (o : Option A)
    → o ≡ none
    → p x ≡ true
    → elim o [ none ↦ find? p (x ∷ []) | some y ↦ some y ] ≡ some x
appended p x none e h = rw h refl
appended p x (some y) e h = cc

module _ {N : Type 0} where
  abbrev pub found_label : Option (Answer N) → Option String
  found_label none = none
  found_label (some w) = label_of_value w.value

  -- The label that answers a question in one assessment.
  abbrev pub stored_label : (assessment_id : ℕ) → Text → List (Answer N) → Option String
  stored_label assessment_id code ws = found_label (find? (answers_to assessment_id code) ws)

  pub codes_apart :
      (i : ℕ) (a b : Text)
      → text_beq a b ≡ false
      → (w : Answer N) → answers_to i a w ≡ true
      → answers_to i b w ≡ false
  codes_apart i a b ne w h = elim (Bool-cases (answers_to i b w)) [
    | inl both ↦ absurd (
        false≢true (
          sym ne
          ∙ (text_beq_iff a b).1 (
              sym ((text_beq_iff (codes w.question) a).0 (ground arith))
              ∙ (text_beq_iff (codes w.question) b).0 (ground arith))))
    | inr off ↦ off
  ]

  pub rows_apart :
      (i j : ℕ) (a b : Text)
      → (i == j) ≡ false
      → (w : Answer N) → answers_to i a w ≡ true
      → answers_to j b w ≡ false
  rows_apart i j a b ne w h = ground arith

  module _ (i : ℕ) (r : Answer N → Bool)
      (keeps : (n : ℕ) (t : String) (w : Answer N) → r (set_option n t w) ≡ r w) where
    -- A search that the written question is apart from.
    write_answer-apart :
        (w : Write)
        → ((x : Answer N) → answers_to i (write_code w) x ≡ true → r x ≡ false)
        → IsNamed w
        → (ws : List (Answer N)) → find? r (write_answer i w ws) ≡ find? r ws
    unfolding write_answer
    write_answer-apart (delete code) apart named ws =
        find?-keep_apart (answers_to i code) r apart ws
    write_answer-apart (upsert code n q label) apart named ws =
        elim (Bool-cases (any (answers_to i code) ws)) [
          | inl there ↦ rw there (
              find?-update_where_apart r (answers_to i code) (set_option n label) apart
                (λ x hit. keeps n label x ∙ apart x hit) ws)
          | inr fresh ↦
              let new : Answer N = record {
                pwin_assessment_id = i;
                question = q;
                value = option n label;
              } in
              let off = apart new (rw (==_refl i, named) refl) in
              rw fresh (find?-append r ws (new ∷ []) ∙ of_found off (find? r ws))
        ]
      where
        of_found :
            {x : Answer N}
            → r x ≡ false
            → (o : Option (Answer N)) → elim o [ none ↦ find? r (x ∷ []) | some y ↦ some y ] ≡ o
        of_found off none = rw off refl
        of_found off (some y) = refl

  pub stored-write :
      (i : ℕ) (w : Write) (ws : List (Answer N))
      → IsNamed w
      → stored_label i (write_code w) (write_answer i w ws) ≡ write_label w
  unfolding write_answer
  stored-write i (delete code) ws named = ap found_label (find?-keep_other (answers_to i code) ws)
  stored-write i (upsert code n q label) ws named =
      let p = answers_to i code in
      elim (Bool-cases (any p ws)) [
        | inl there ↦
            let (a, found, hit) = any-find? p ws there in
            rw there (
              ap found_label (
                find?-update_where p p (set_option n label) (λ x. refl) ws
                ∙ ap (Option.map (λ x. if p x then set_option n label x else x)) found)
              ∙ ap (λ b. found_label (some (if b then set_option n label a else a))) hit)
        | inr fresh ↦
            let new : Answer N = record {
              pwin_assessment_id = i;
              question = q;
              value = option n label;
            } in
            rw fresh (
              ap found_label (
                find?-append p ws (new ∷ [])
                ∙ appended p new (find? p ws) (find?-none_of_any p ws fresh)
                    (rw (==_refl i, named) refl)))
      ]

  -- The other questions, and the other assessments.
  pub stored-write_other :
      (i j : ℕ) (code : Text) (w : Write) (ws : List (Answer N))
      → IsNamed w
      → ((x : Answer N) → answers_to i (write_code w) x ≡ true → answers_to j code x ≡ false)
      → stored_label j code (write_answer i w ws) ≡ stored_label j code ws
  stored-write_other i j code w ws named apart =
      ap found_label (write_answer-apart i (answers_to j code) (λ n t x. refl) w apart named ws)
