-- ===== src/Pwin/Valid.antt =====
-- The constraints of the schema under the clearing of dependents
-- (`auto_clear_dependents_of_outcome` of api/app/plan_scope.py).
use mathlib.Core.Path.{subst}
use cpde_web.Prelude.{ℕ, ◌≤◌, ◌<◌, refl, sym, ◌∙◌, List, [], ◌∷◌, arith, keep, update_where, ◌==◌}
use cpde_web.Store.{base, dependent_won, Pursuit, Assessment, Store, is_current_of}
use cpde_web.Store.Rows.{count-update_where, All-update_where}
use cpde_web.Store.Valid.{IsValid}
use cpde_web.Pwin.{
  depends_on, demote, reset_pwin, clear_dependent, clear_all, auto_clear_dependents_of_outcome,
}
use cpde_web.Pwin.Clear.{count-clear_rows_le}

module _ {N : Type 0} where
  clear_dependent-IsValid :
      (user_id : ℕ) (dep : Pursuit N) (s : Store N)
      → IsValid s
      → IsValid (clear_dependent user_id dep s)
  unfolding clear_dependent
  clear_dependent-IsValid user_id dep s v =
      let demoted = update_where (is_current_of dep.id dependent_won) demote s.assessments in
      let IsOld = λ (a : Assessment N). a.id < s.next_id in
      record {
        one_current = λ i sc.
            omega (arith, count-clear_rows_le dep.id i sc s.assessments, v.one_current i sc);
        one_id = λ i.
            subst (λ n. n ≤ 1)
              (sym (
                count-update_where (λ (a : Assessment N). a.id == i) (is_current_of dep.id base)
                  reset_pwin (λ a. refl) demoted
                ∙ count-update_where (λ (a : Assessment N). a.id == i)
                    (is_current_of dep.id dependent_won) demote (λ a. refl) s.assessments))
              (v.one_id i);
        old_ids =
            All-update_where IsOld (is_current_of dep.id base) reset_pwin (λ a e h. h) demoted
              (All-update_where IsOld (is_current_of dep.id dependent_won) demote (λ a e h. h)
                s.assessments v.old_ids);
      }

  clear_all-IsValid :
      (user_id : ℕ) (deps : List (Pursuit N)) (s : Store N)
      → IsValid s
      → IsValid (clear_all user_id deps s)
  unfolding clear_all
  clear_all-IsValid user_id [] s v = v
  clear_all-IsValid user_id (dep ∷ deps) s v =
      clear_all-IsValid user_id deps (clear_dependent user_id dep s)
        (clear_dependent-IsValid user_id dep s v)

  pub auto_clear-IsValid :
      (predecessor_id user_id : ℕ) (s : Store N)
      → IsValid s
      → IsValid (auto_clear_dependents_of_outcome predecessor_id user_id s).1
  unfolding auto_clear_dependents_of_outcome
  auto_clear-IsValid predecessor_id user_id s v =
      clear_all-IsValid user_id (keep (depends_on predecessor_id) s.pursuits) s v
