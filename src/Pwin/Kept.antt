-- ===== src/Pwin/Kept.antt =====
-- The blend of api/app/recalc.py, what it keeps: other rows, its own value, the constraints.
use mathlib.Core.Path.{subst, ap₂}
use cpde_web.Prelude.{
  ℕ, ◌≡◌, refl, sym, ap, ◌∙◌, ◌⊎◌, length, length-update_where, ◌≢◌, Bool, true, false, none, some,
  List, [], ◌∷◌, arith, ◌==◌, ==_refl, Option-cases, inl, inr, find?, update_where,
}
use cpde_web.Prelude.Num.{Float}
use cpde_web.Store.{Scenario, base, dependent_won, Assessment, Store, is_current_of, current_of}
use cpde_web.Store.Rows.{find?-update_key, count-update_where}
use cpde_web.Store.Valid.{HasOneId, HasOldIds, IsValid}
use cpde_web.Pwin.{
  pwin_or, dep_factor, dep_win, blended_of, apply_dependency_blend, blend_row, set_blend,
  decided_factor, outcome_of,
}
use cpde_web.Pwin.Blend.{current_of-blend}

module _ (fl : Float) where
  open fl use {Num, zero, one, add, sub, mul, leq}

  -- What a row of the store must be for a search to be apart from the current BASE row.
  abbrev pub IsApart : ℕ → ℕ → Scenario → Type 0
  IsApart pursuit_id other sc = ((other ≡ pursuit_id) × (sc ≡ base)) → ⊥

  apart_tests :
      (pursuit_id other : ℕ) (sc : Scenario)
      → IsApart pursuit_id other sc
      → (a : Assessment Num) → is_current_of pursuit_id base a ≡ true
      → is_current_of other sc a ≡ false
  apart_tests pursuit_id other base apart a h =
      ground (arith, λ (e : other ≡ pursuit_id). apart (e, refl))
  apart_tests pursuit_id other dependent_won apart a h = ground arith

  -- A blend of one pursuit is seen in no other current row: not in its own DEPENDENT_WON row, and in
  -- no row of another pursuit.
  pub current_of-blend_other :
      (pursuit_id predecessor_id other : ℕ) (sc : Scenario) (s : Store Num)
      → HasOneId s.assessments
      → IsApart pursuit_id other sc
      → current_of other sc (apply_dependency_blend fl pursuit_id predecessor_id s)
        ≡ current_of other sc s
  unfolding apply_dependency_blend
  current_of-blend_other pursuit_id predecessor_id other sc s ids apart =
      elim (Option-cases (current_of pursuit_id base s)) [
        | inl e ↦ rw (e, blend_row)
        | inr (row, e) ↦ elim (Option-cases row.base_pwin) [
          | inl n ↦ rw (e, blend_row, n)
          | inr (b, h) ↦
              rw (e, blend_row, h)
                (find?-update_key (λ a. a.id == row.id)
                  (set_blend fl
                    (blended_of fl b (dep_win fl pursuit_id b s) (dep_factor fl predecessor_id s)))
                  (is_current_of pursuit_id base) (is_current_of other sc) (λ x. refl)
                  (apart_tests pursuit_id other sc apart) s.assessments row e (==_refl row.id)
                  (ids row.id))
        ]
      ]

  blend-pursuits :
      (pursuit_id predecessor_id : ℕ) (s : Store Num)
      → (apply_dependency_blend fl pursuit_id predecessor_id s).pursuits ≡ s.pursuits
  unfolding apply_dependency_blend
  blend-pursuits pursuit_id predecessor_id s = elim (Option-cases (current_of pursuit_id base s)) [
    | inl e ↦ rw (e, blend_row)
    | inr (row, e) ↦ elim (Option-cases row.base_pwin) [
      | inl n ↦ rw (e, blend_row, n)
      | inr (b, h) ↦ rw (e, blend_row, h)
    ]
  ]

  blend_idle :
      (pursuit_id predecessor_id : ℕ) (s : Store Num)
      → current_of pursuit_id base s ≡ none
      → apply_dependency_blend fl pursuit_id predecessor_id s ≡ s
  unfolding apply_dependency_blend
  blend_idle pursuit_id predecessor_id s e = rw (e, blend_row)

  blend_unscored :
      (pursuit_id predecessor_id : ℕ) (s : Store Num) {row : Assessment Num}
      → current_of pursuit_id base s ≡ some row
      → row.base_pwin ≡ none
      → apply_dependency_blend fl pursuit_id predecessor_id s ≡ s
  unfolding apply_dependency_blend
  blend_unscored pursuit_id predecessor_id s e n = rw (e, blend_row, n)

  -- The formula reads the DEPENDENT_WON row, the predecessor, and the predecessor's row.
  pub formula_cong :
      (pursuit_id predecessor_id : ℕ) (b : Num) (s t : Store Num)
      → current_of pursuit_id dependent_won t ≡ current_of pursuit_id dependent_won s
      → current_of predecessor_id base t ≡ current_of predecessor_id base s
      → t.pursuits ≡ s.pursuits
      → blended_of fl b (dep_win fl pursuit_id b t) (dep_factor fl predecessor_id t)
        ≡ blended_of fl b (dep_win fl pursuit_id b s) (dep_factor fl predecessor_id s)
  unfolding dep_win dep_factor
  formula_cong pursuit_id predecessor_id b s t own pred rows =
      ap₂ (blended_of fl b) (ap (pwin_or b) own) (
        ap₂ (decided_factor fl)
          (ap (λ ps. outcome_of fl (find? (λ p. p.id == predecessor_id) ps)) rows)
          (ap (pwin_or zero) pred))

  -- The formula reads nothing that a blend of the pursuit itself has written.
  value_stable :
      (pursuit_id predecessor_id : ℕ) (b : Num) (s : Store Num)
      → HasOneId s.assessments
      → predecessor_id ≢ pursuit_id
      → let once = apply_dependency_blend fl pursuit_id predecessor_id s in
        blended_of fl b (dep_win fl pursuit_id b once) (dep_factor fl predecessor_id once)
        ≡ blended_of fl b (dep_win fl pursuit_id b s) (dep_factor fl predecessor_id s)
  value_stable pursuit_id predecessor_id b s ids ne =
      formula_cong pursuit_id predecessor_id b s
        (apply_dependency_blend fl pursuit_id predecessor_id s)
        (current_of-blend_other pursuit_id predecessor_id pursuit_id dependent_won s ids (λ e. cc))
        (current_of-blend_other pursuit_id predecessor_id predecessor_id base s ids (λ e. ne e.0))
        (blend-pursuits pursuit_id predecessor_id s)

  -- With unique assessment ids and a predecessor other than the pursuit itself, blending a second
  -- time leaves the current BASE row as the first time left it.
  pub current_of-blend_twice :
      (pursuit_id predecessor_id : ℕ) (s : Store Num)
      → HasOneId s.assessments
      → predecessor_id ≢ pursuit_id
      → let once = apply_dependency_blend fl pursuit_id predecessor_id s in
        current_of pursuit_id base (apply_dependency_blend fl pursuit_id predecessor_id once)
        ≡ current_of pursuit_id base once
  current_of-blend_twice pursuit_id predecessor_id s ids ne =
      let blend = apply_dependency_blend fl pursuit_id predecessor_id in
      elim (Option-cases (current_of pursuit_id base s)) [
        | inl e ↦
            ap (λ t. current_of pursuit_id base (blend t))
              (blend_idle pursuit_id predecessor_id s e)
        | inr (row, e) ↦ elim (Option-cases row.base_pwin) [
          | inl n ↦
              ap (λ t. current_of pursuit_id base (blend t))
                (blend_unscored pursuit_id predecessor_id s e n)
          | inr (b, h) ↦
              let first = current_of-blend fl pursuit_id predecessor_id s e h in
              let v = value_stable pursuit_id predecessor_id b s ids ne in
              current_of-blend fl pursuit_id predecessor_id (blend s) first h
              ∙ ap (λ (x : Num). some (record row { pwin = some x; blended_pwin = some x })) v
              ∙ sym first
        ]
      ]

  -- A blend is at most one update of the rows with one id.
  blend_shape :
      (pursuit_id predecessor_id : ℕ) (s : Store Num)
      → (apply_dependency_blend fl pursuit_id predecessor_id s ≡ s)
        ⊎ ((i : ℕ) × (v : Num) × (apply_dependency_blend fl pursuit_id predecessor_id s ≡ record s {
          assessments = update_where (λ a. a.id == i) (set_blend fl v) s.assessments;
        }))
  unfolding apply_dependency_blend
  blend_shape pursuit_id predecessor_id s = elim (Option-cases (current_of pursuit_id base s)) [
    | inl e ↦ inl (rw (e, blend_row))
    | inr (row, e) ↦ elim (Option-cases row.base_pwin) [
      | inl n ↦ inl (rw (e, blend_row, n))
      | inr (b, h) ↦ inr (
        row.id,
        blended_of fl b (dep_win fl pursuit_id b s) (dep_factor fl predecessor_id s),
        rw (e, blend_row, h),
      )
    ]
  ]

  old_ids-set_blend :
      (next i : ℕ) (v : Num) (rows : List (Assessment Num))
      → HasOldIds next rows
      → HasOldIds next (update_where (λ a. a.id == i) (set_blend fl v) rows)
  old_ids-set_blend next i v [] h = tt
  old_ids-set_blend next i v (a ∷ rows) h = ground (arith, old_ids-set_blend next i v rows h.1)

  set_blend-IsValid :
      (i : ℕ) (v : Num) (s : Store Num)
      → IsValid s
      → IsValid
          (record s { assessments = update_where (λ a. a.id == i) (set_blend fl v) s.assessments })
  set_blend-IsValid i v s h =
      let same =
        λ (p : Assessment Num → Bool) (k : (x : Assessment Num) → p (set_blend fl v x) ≡ p x).
          count-update_where p (λ a. a.id == i) (set_blend fl v) k s.assessments in
      record {
        one_current =
            λ j sc. omega (arith, same (is_current_of j sc) (λ x. refl), h.one_current j sc);
        one_id = λ j. omega (arith, same (λ a. a.id == j) (λ x. refl), h.one_id j);
        old_ids = old_ids-set_blend s.next_id i v s.assessments h.old_ids;
      }

  -- A blend keeps the constraints of the schema.
  pub blend-IsValid :
      (pursuit_id predecessor_id : ℕ) (s : Store Num)
      → IsValid s
      → IsValid (apply_dependency_blend fl pursuit_id predecessor_id s)
  blend-IsValid pursuit_id predecessor_id s h = elim (blend_shape pursuit_id predecessor_id s) [
    | inl e ↦ subst IsValid (sym e) h
    | inr (i, v, e) ↦ subst IsValid (sym e) (set_blend-IsValid i v s h)
  ]

  pub length-blend :
      (pursuit_id predecessor_id : ℕ) (s : Store Num)
      → length (apply_dependency_blend fl pursuit_id predecessor_id s).assessments
        ≡ length s.assessments
  length-blend pursuit_id predecessor_id s = elim (blend_shape pursuit_id predecessor_id s) [
    | inl e ↦ ap (λ t. length t.assessments) e
    | inr (i, v, e) ↦
        ap (λ t. length t.assessments) e
        ∙ length-update_where (λ a. a.id == i) (set_blend fl v) s.assessments
  ]
