-- ===== src/Assess/Laws.antt =====
-- The append-only write of api/app/recalc.py and api/app/routers/bhptw.py: its current rows and the
-- constraints of the schema.
use cpde_web.Prelude.{
  ℕ, suc, ◌+◌, ◌≤◌, ◌≡◌, refl, ◌∙◌, Bool, true, false, none, some, List, [], ◌∷◌, ◌++◌, arith, ◌==◌,
  ==_iff, ==_refl, find?, count, length, count-append, length-append, length-update_where,
  update_where, if◌then◌else◌, Bool-cases, inl, inr,
}
use mathlib.Core.Path.{subst₂}
use cpde_web.Store.{
  Scenario, base, dependent_won, Assessment, Store, same_scenario, is_current_of, current_of,
}
use cpde_web.Store.Rows.{
  find?-append, find?-update_where_out, find?-update_where_apart, count-update_where,
  count-update_where_le, count-update_where_out,
}
use cpde_web.Store.Valid.{HasOneCurrent, HasOneId, HasOldIds, IsValid}
use cpde_web.Pwin.{demote}
use cpde_web.Assess.{append_current}

pub same_scenario_refl : (sc : Scenario) → same_scenario sc sc ≡ true
same_scenario_refl base = refl
same_scenario_refl dependent_won = refl

same_scenario_eq : (a b : Scenario) → same_scenario a b ≡ true → a ≡ b
same_scenario_eq base base h = refl
same_scenario_eq dependent_won dependent_won h = refl
same_scenario_eq base dependent_won h = cc
same_scenario_eq dependent_won base h = cc

module _ {N : Type 0} where
  -- Two searches for current rows of different pursuits or scenarios share no row.
  pub current_apart :
      (i j : ℕ) (a b : Scenario)
      → (((i ≡ j) × (a ≡ b)) → ⊥)
      → (x : Assessment N) → is_current_of j b x ≡ true
      → is_current_of i a x ≡ false
  current_apart i j base base apart x h = ground (arith, λ (e : i ≡ j). apart (e, refl))
  current_apart i j dependent_won dependent_won apart x h =
      ground (arith, λ (e : i ≡ j). apart (e, refl))
  current_apart i j base dependent_won apart x h = ground arith
  current_apart i j dependent_won base apart x h = ground arith

  is_current_of_self :
      (row : Assessment N)
      → row.is_current ≡ true
      → is_current_of row.pursuit_id row.scenario row ≡ true
  is_current_of_self row h = ground (arith, ==_refl row.pursuit_id, same_scenario_refl row.scenario)

  -- A current row that is appended is then the current row of its pursuit and scenario.
  pub current_of-append :
      (row : Assessment N) (s : Store N)
      → row.is_current ≡ true
      → current_of row.pursuit_id row.scenario (append_current row s) ≡ some row
  unfolding append_current
  current_of-append row s h =
      let p = is_current_of row.pursuit_id row.scenario in
      find?-append p (update_where p demote s.assessments) (row ∷ [])
      ∙ rw (find?-update_where_out p p demote (λ x. ground arith) (λ x e. e) s.assessments)
          (rw (is_current_of_self row h))

  -- Appending a current row leaves the current row of every other pursuit or scenario.
  pub current_of-append_other :
      (row : Assessment N) (i : ℕ) (sc : Scenario) (s : Store N)
      → row.is_current ≡ true
      → (((i ≡ row.pursuit_id) × (sc ≡ row.scenario)) → ⊥)
      → current_of i sc (append_current row s) ≡ current_of i sc s
  unfolding append_current
  current_of-append_other row i sc s h apart =
      let q = is_current_of row.pursuit_id row.scenario in
      let p = is_current_of i sc in
      let out = current_apart i row.pursuit_id sc row.scenario apart in
      find?-append p (update_where q demote s.assessments) (row ∷ [])
      ∙ rw (find?-update_where_apart p q demote out (λ x e. ground arith) s.assessments)
          (end_none p row (out row (is_current_of_self row h)) s.assessments)
    where
      end_none :
          (p : Assessment N → Bool) (row : Assessment N)
          → p row ≡ false
          → (rows : List (Assessment N))
          → elim (find? p rows) [ none ↦ find? p (row ∷ []) | some x ↦ some x ] ≡ find? p rows
      end_none p row no_row rows = ground arith

  -- One row more, and none less.
  pub length-append_current :
      (row : Assessment N) (s : Store N)
      → length (append_current row s).assessments ≡ length s.assessments + 1
  unfolding append_current
  length-append_current row s = omega (
    arith,
    length-append (update_where (is_current_of row.pursuit_id row.scenario) demote s.assessments)
        (row ∷ []),
    length-update_where (is_current_of row.pursuit_id row.scenario) demote s.assessments,
  )

  pub single_le : (p : Assessment N → Bool) (row : Assessment N) → count p (row ∷ []) ≤ 1
  single_le p row = ground arith

  pub single_none :
      (p : Assessment N → Bool) (row : Assessment N) → p row ≡ false → count p (row ∷ []) ≡ 0
  single_none p row h = ground arith

  one_current-append :
      (row : Assessment N) (s : Store N)
      → HasOneCurrent s.assessments
      → HasOneCurrent (append_current row s).assessments
  unfolding append_current
  one_current-append row s one i sc =
      let q = is_current_of row.pursuit_id row.scenario in
      let p = is_current_of i sc in
      let rows = update_where q demote s.assessments in
      elim (Bool-cases (p row)) [
        | inl hit ↦
            let pursuit_eq : row.pursuit_id ≡ i = ground (arith, ==_iff row.pursuit_id i) in
            let scenario_eq : row.scenario ≡ sc = same_scenario_eq row.scenario sc (ground arith) in
            subst₂ (λ j b. count (is_current_of j b) (rows ++ row ∷ []) ≤ 1) pursuit_eq scenario_eq
              (omega (
                arith,
                count-append q rows (row ∷ []),
                single_le q row,
                count-update_where_out q q demote (λ x. ground arith) (λ x e. e) s.assessments,
              ))
        | inr miss ↦ omega (
          arith,
          count-append p rows (row ∷ []),
          single_none p row miss,
          count-update_where_le p q demote (λ x e. ground arith) s.assessments,
          one i sc,
        )
      ]

  pub old_fresh :
      (next i : ℕ) (rows : List (Assessment N))
      → HasOldIds next rows
      → next ≤ i
      → count (λ a. a.id == i) rows ≡ 0
  old_fresh next i [] h le = refl
  old_fresh next i (a ∷ rows) h le = ground (arith, old_fresh next i rows h.1 le)

  one_id-append :
      (row : Assessment N) (s : Store N)
      → row.id ≡ s.next_id
      → HasOneId s.assessments
      → HasOldIds s.next_id s.assessments
      → HasOneId (append_current row s).assessments
  unfolding append_current
  one_id-append row s e one old i =
      let q = is_current_of row.pursuit_id row.scenario in
      let p = λ (a : Assessment N). a.id == i in
      let same = count-update_where p q demote (λ x. refl) s.assessments in
      let split = count-append p (update_where q demote s.assessments) (row ∷ []) in
      elim (Bool-cases (row.id == i)) [
        | inl hit ↦ omega (
          arith,
          same,
          split,
          single_le p row,
          old_fresh s.next_id i s.assessments old (ground (arith, ==_iff row.id i)),
        )
        | inr miss ↦ omega (arith, same, split, single_none p row miss, one i)
      ]

  demote_id : (b : Bool) (a : Assessment N) → (if b then demote a else a).id ≡ a.id
  demote_id true a = refl
  demote_id false a = refl

  old_ids-append :
      (next : ℕ) (row : Assessment N) (q : Assessment N → Bool) (rows : List (Assessment N))
      → row.id ≡ next
      → HasOldIds next rows
      → HasOldIds (suc next) (update_where q demote rows ++ row ∷ [])
  old_ids-append next row q [] e h = (omega arith, tt)
  old_ids-append next row q (a ∷ rows) e h =
      (omega (arith, demote_id (q a) a, h.0), old_ids-append next row q rows e h.1)

  -- Appending a current row with the next id keeps ids unique, ids below the next one, and one
  -- current row for each pursuit and scenario.
  pub append_current-IsValid :
      (row : Assessment N) (s : Store N)
      → row.id ≡ s.next_id
      → IsValid s
      → IsValid (append_current row s)
  unfolding append_current
  append_current-IsValid row s e v = record {
    one_current = one_current-append row s v.one_current;
    one_id = one_id-append row s e v.one_id v.old_ids;
    old_ids =
        old_ids-append s.next_id row (is_current_of row.pursuit_id row.scenario) s.assessments e
          v.old_ids;
  }
