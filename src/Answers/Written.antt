-- ===== src/Answers/Written.antt =====
-- All the writes of one save (`set_questionnaire_answers` of api/app/routers/write.py): each question of the
-- body is then answered as the body says, and no other answer has moved.
use mathlib.Core.Path.{subst}
use mathlib.Core.Bool.{false≢true}
use cpde_web.Prelude.{
  ℕ, String, ◌≡◌, refl, sym, ap, ◌∙◌, false, Option, none, some, List, [], ◌∷◌, ◌==◌, arith,
  Bool-cases, inl, inr, some_inj, none_not_some,
}
use cpde_web.Prelude.Dict.{Dict, get}
use cpde_web.Prelude.Text.{Text, text_beq, text_beq_iff, text_eq}
use cpde_web.Store.{Answer}
use cpde_web.Answers.Check.{Write}
use cpde_web.Answers.Handler.{write_answer, write_answers}
use cpde_web.Answers.Stored.{
  write_code, AllMatch, stored_label, codes_apart, rows_apart, stored-write, stored-write_other,
}

-- A dictionary has a key once.
abbrev pub HasUniqueKeys : Dict Text (Option String) → Type 0
HasUniqueKeys [] = Unit
HasUniqueKeys (e ∷ d) = (get e.0 d ≡ none) × HasUniqueKeys d

get-head :
    (code key : Text) (v : Option String) (d : Dict Text (Option String))
    → get code ((key, v) ∷ d) ≡ none
    → (text_beq key code ≡ false) × (get code d ≡ none)
get-head code key v d h = elim (Bool-cases (text_beq code key)) [
  | inl same ↦ ground arith
  | inr ne ↦ (
    elim (Bool-cases (text_beq key code)) [
      | inl e ↦
          absurd
            (false≢true (sym ne ∙ (text_beq_iff code key).1 (sym ((text_beq_iff key code).0 e))))
      | inr off ↦ off
    ],
    ground arith,
  )
]

module _ {N : Type 0} (i : ℕ) where
  -- A question that the body does not name.
  pub stored-write_answers_kept :
      (code : Text) (d : Dict Text (Option String)) (writes : List Write) (ws : List (Answer N))
      → AllMatch d writes
      → get code d ≡ none
      → stored_label i code (write_answers i writes ws) ≡ stored_label i code ws
  unfolding write_answers
  stored-write_answers_kept code [] [] ws m h = refl
  stored-write_answers_kept code [] (w ∷ writes) ws m h = elim m [ ]
  stored-write_answers_kept code (e ∷ d) [] ws m h = elim m [ ]
  stored-write_answers_kept code (e ∷ d) (w ∷ writes) ws m h =
      let (ne, rest) = get-head code e.0 e.1 d h in
      stored-write_answers_kept code d writes (write_answer i w ws) m.1 rest
      ∙ stored-write_other i i code w ws m.0.2
          (codes_apart i (write_code w) code (subst (λ k. text_beq k code ≡ false) (sym m.0.0) ne))

  -- A question that the body names.
  pub stored-write_answers :
      (code : Text) (label : Option String) (d : Dict Text (Option String)) (writes : List Write)
      (ws : List (Answer N))
      → HasUniqueKeys d
      → AllMatch d writes
      → get code d ≡ some label
      → stored_label i code (write_answers i writes ws) ≡ label
  unfolding write_answers
  stored-write_answers code label [] [] ws u m h = absurd (none_not_some h)
  stored-write_answers code label [] (w ∷ writes) ws u m h = elim m [ ]
  stored-write_answers code label (e ∷ d) [] ws u m h = elim m [ ]
  stored-write_answers code label (e ∷ d) (w ∷ writes) ws u m h =
      elim (Bool-cases (text_beq code e.0)) [
        | inl same ↦
            let here = (text_beq_iff code e.0).0 same in
            let at_code = here ∙ sym m.0.0 in
            stored-write_answers_kept code d writes (write_answer i w ws) m.1
              (ap (λ k. get k d) here ∙ u.0)
            ∙ subst (λ k. stored_label i k (write_answer i w ws) ≡ label) (sym at_code)
                (stored-write i w ws m.0.2 ∙ m.0.1 ∙ some_inj (sym (rw same refl) ∙ h))
        | inr ne ↦
            stored-write_answers code label d writes (write_answer i w ws) u.1 m.1 (ground arith)
      ]

  -- The answers of another assessment.
  pub stored-write_answers_other :
      (j : ℕ) (code : Text) (d : Dict Text (Option String)) (writes : List Write)
      (ws : List (Answer N))
      → AllMatch d writes
      → (i == j) ≡ false
      → stored_label j code (write_answers i writes ws) ≡ stored_label j code ws
  unfolding write_answers
  stored-write_answers_other j code [] [] ws m ne = refl
  stored-write_answers_other j code [] (w ∷ writes) ws m ne = elim m [ ]
  stored-write_answers_other j code (e ∷ d) [] ws m ne = elim m [ ]
  stored-write_answers_other j code (e ∷ d) (w ∷ writes) ws m ne =
      stored-write_answers_other j code d writes (write_answer i w ws) m.1 ne
      ∙ stored-write_other i j code w ws m.0.2 (rows_apart i j (write_code w) code ne)
