-- ===== src/Pwin/Clear.antt =====
-- Clearing the dependents of a predecessor (api/app/plan_scope.py): rows and dependencies afterwards.
use mathlib.Core.Option
use mathlib.Core.Bool.{false≢true}
use mathlib.Core.Path.{subst}
use cpde_web.Prelude.{
  All, ℕ, ◌≡◌, refl, sym, ap, ◌∙◌, Bool, true, false, ◌||◌, ◌≤◌, Option, none, some, List, [], ◌∷◌,
  arith, ◌==◌, ==_refl, if◌then◌else◌, Bool-cases, inl, inr, any, count, keep, find?, update_where,
}
use cpde_web.Store.{
  Scenario, base, dependent_won, Pursuit, Assessment, Store, is_current_of, current_of,
}
use cpde_web.Store.Valid.{HasOneCurrent}
use cpde_web.Pwin.{
  depends_on, drop_dependency, demote, reset_pwin, clear_dependent, clear_all,
  auto_clear_dependents_of_outcome,
}

module _ {N : Type 0} where
  -- What a search for a current row finds after the clearing, by whether the pursuit was a
  -- dependent.
  abbrev pub cleared_view : Bool → Scenario → Option (Assessment N) → Option (Assessment N)
  cleared_view false sc row = row
  cleared_view true base row = Option.map reset_pwin row
  cleared_view true dependent_won row = none

  -- The two updates of the loop's body.
  abbrev pub clear_rows : ℕ → List (Assessment N) → List (Assessment N)
  clear_rows dep_id rows =
      update_where (is_current_of dep_id base) reset_pwin
        (update_where (is_current_of dep_id dependent_won) demote rows)

  find?-clear_rows :
      (dep_id i : ℕ) (sc : Scenario) (rows : List (Assessment N))
      → find? (is_current_of i sc) (clear_rows dep_id rows)
        ≡ cleared_view (dep_id == i) sc (find? (is_current_of i sc) rows)
  find?-clear_rows dep_id i base [] = ground arith
  find?-clear_rows dep_id i dependent_won [] = ground arith
  find?-clear_rows dep_id i base (a ∷ rows) = ground (arith, find?-clear_rows dep_id i base rows)
  find?-clear_rows dep_id i dependent_won (a ∷ rows) =
      ground (arith, find?-clear_rows dep_id i dependent_won rows)

  view_twice :
      (sc : Scenario) (b c : Bool) (row : Option (Assessment N))
      → cleared_view c sc (cleared_view b sc row) ≡ cleared_view (b || c) sc row
  view_twice base true true none = refl
  view_twice base true true (some a) = refl
  view_twice base true false row = refl
  view_twice base false c row = refl
  view_twice dependent_won true true row = refl
  view_twice dependent_won true false row = refl
  view_twice dependent_won false c row = refl

  step_rows :
      (user_id i : ℕ) (dep : Pursuit N) (sc : Scenario) (s : Store N)
      → current_of i sc (clear_dependent user_id dep s)
        ≡ cleared_view (dep.id == i) sc (current_of i sc s)
  unfolding clear_dependent
  step_rows user_id i dep sc s = find?-clear_rows dep.id i sc s.assessments

  pub count-clear_rows_le :
      (dep_id i : ℕ) (sc : Scenario) (rows : List (Assessment N))
      → count (is_current_of i sc) (clear_rows dep_id rows) ≤ count (is_current_of i sc) rows
  count-clear_rows_le dep_id i sc [] = omega arith
  count-clear_rows_le dep_id i sc (a ∷ rows) = ground (arith, count-clear_rows_le dep_id i sc rows)

  update_where-never :
      (f : Pursuit N → Pursuit N) (ps : List (Pursuit N)) → update_where (λ p. false) f ps ≡ ps
  update_where-never f [] = refl
  update_where-never f (p ∷ ps) = ap (λ r. p ∷ r) (update_where-never f ps)

  drop_both :
      (user_id now : ℕ) (dep : Pursuit N) (deps ps : List (Pursuit N))
      → update_where
          (λ p. any (λ d. p.id == d.id) deps)
          (drop_dependency user_id now)
          (update_where (λ p. p.id == dep.id) (drop_dependency user_id now) ps)
        ≡ update_where (λ p. any (λ d. p.id == d.id) (dep ∷ deps)) (drop_dependency user_id now) ps
  drop_both user_id now dep deps [] = refl
  drop_both user_id now dep deps (p ∷ ps) = ground (arith, drop_both user_id now dep deps ps)

  current_of-clear_all :
      (user_id i : ℕ) (sc : Scenario) (deps : List (Pursuit N)) (s : Store N)
      → current_of i sc (clear_all user_id deps s)
        ≡ cleared_view (any (λ d. d.id == i) deps) sc (current_of i sc s)
  unfolding clear_all
  current_of-clear_all user_id i sc [] s = refl
  current_of-clear_all user_id i sc (dep ∷ deps) s =
      current_of-clear_all user_id i sc deps (clear_dependent user_id dep s)
      ∙ ap (cleared_view (any (λ d. d.id == i) deps) sc) (step_rows user_id i dep sc s)
      ∙ view_twice sc (dep.id == i) (any (λ d. d.id == i) deps) (current_of i sc s)

  -- The pursuits after the loop: the listed ones have lost their dependency.
  pursuits-clear_all :
      (user_id : ℕ) (deps : List (Pursuit N)) (s : Store N)
      → (clear_all user_id deps s).pursuits
        ≡ update_where
            (λ p. any (λ d. p.id == d.id) deps)
            (drop_dependency user_id s.now)
            s.pursuits
  unfolding clear_all clear_dependent
  pursuits-clear_all user_id [] s =
      sym (update_where-never (drop_dependency user_id s.now) s.pursuits)
  pursuits-clear_all user_id (dep ∷ deps) s =
      pursuits-clear_all user_id deps (clear_dependent user_id dep s)
      ∙ drop_both user_id s.now dep deps s.pursuits

  count-clear_all_le :
      (user_id i : ℕ) (sc : Scenario) (deps : List (Pursuit N)) (s : Store N)
      → count (is_current_of i sc) (clear_all user_id deps s).assessments
        ≤ count (is_current_of i sc) s.assessments
  unfolding clear_all clear_dependent
  count-clear_all_le user_id i sc [] s = omega arith
  count-clear_all_le user_id i sc (dep ∷ deps) s = omega (
    arith,
    count-clear_all_le user_id i sc deps (clear_dependent user_id dep s),
    count-clear_rows_le dep.id i sc s.assessments,
  )

  -- Every dependent among `ps` is listed in `ds`.
  abbrev AreListed : ℕ → List (Pursuit N) → List (Pursuit N) → Type 0
  AreListed predecessor_id ds ps =
      All (λ p. depends_on predecessor_id p ≡ true → any (λ d. p.id == d.id) ds ≡ true) ps

  AreListed-cons :
      (predecessor_id : ℕ) (d : Pursuit N) (ds ps : List (Pursuit N))
      → AreListed predecessor_id ds ps
      → AreListed predecessor_id (d ∷ ds) ps
  AreListed-cons predecessor_id d ds [] h = tt
  AreListed-cons predecessor_id d ds (p ∷ ps) h =
      (λ e. ground (arith, h.0 e), AreListed-cons predecessor_id d ds ps h.1)

  AreListed-keep :
      (predecessor_id : ℕ) (ps : List (Pursuit N))
      → AreListed predecessor_id (keep (depends_on predecessor_id) ps) ps
  AreListed-keep predecessor_id [] = tt
  AreListed-keep predecessor_id (p ∷ ps) =
      let rest = AreListed-keep predecessor_id ps in
      let ds = keep (depends_on predecessor_id) ps in
      elim (Bool-cases (depends_on predecessor_id p)) [
        | inl yes_dep ↦
            subst (λ l. AreListed predecessor_id l (p ∷ ps))
              (sym (ap (λ b. if b then p ∷ ds else ds) yes_dep))
              ((λ _. ground (arith, ==_refl p.id)), AreListed-cons predecessor_id p ds ps rest)
        | inr no_dep ↦
            subst (λ l. AreListed predecessor_id l (p ∷ ps))
              (sym (ap (λ b. if b then p ∷ ds else ds) no_dep)) ((λ e. cc), rest)
      ]

  keep-dropped :
      (predecessor_id user_id now : ℕ) (ds ps : List (Pursuit N))
      → AreListed predecessor_id ds ps
      → keep
          (depends_on predecessor_id)
          (update_where (λ p. any (λ d. p.id == d.id) ds) (drop_dependency user_id now) ps)
        ≡ []
  keep-dropped predecessor_id user_id now ds [] h = refl
  keep-dropped predecessor_id user_id now ds (p ∷ ps) h =
      elim (Bool-cases (any (λ d. p.id == d.id) ds)) [
        | inl listed ↦ rw listed (keep-dropped predecessor_id user_id now ds ps h.1)
        | inr unlisted ↦ elim (Bool-cases (depends_on predecessor_id p)) [
          | inl yes_dep ↦ absurd (false≢true (sym unlisted ∙ h.0 yes_dep))
          | inr no_dep ↦ rw (unlisted, no_dep) (keep-dropped predecessor_id user_id now ds ps h.1)
        ]
      ]

  -- Which pursuits the query finds as dependents.
  abbrev pub is_dependent : ℕ → ℕ → Store N → Bool
  is_dependent predecessor_id i s =
      any (λ d. d.id == i) (keep (depends_on predecessor_id) s.pursuits)

  module _ (predecessor_id user_id : ℕ) (s : Store N) where
    -- Clearing the dependents of a predecessor gives each dependent its standalone Pwin without a
    -- blend on its current BASE row, demotes its DEPENDENT_WON row, and leaves the current rows of
    -- every other pursuit.
    pub current_of-auto_clear :
        (i : ℕ) (sc : Scenario)
        → current_of i sc (auto_clear_dependents_of_outcome predecessor_id user_id s).1
          ≡ cleared_view (is_dependent predecessor_id i s) sc (current_of i sc s)
    unfolding auto_clear_dependents_of_outcome
    current_of-auto_clear i sc =
        current_of-clear_all user_id i sc (keep (depends_on predecessor_id) s.pursuits) s

    pub pursuits-auto_clear :
        (auto_clear_dependents_of_outcome predecessor_id user_id s).1.pursuits
        ≡ update_where
            (λ p. any (λ d. p.id == d.id) (keep (depends_on predecessor_id) s.pursuits))
            (drop_dependency user_id s.now)
            s.pursuits
    unfolding auto_clear_dependents_of_outcome
    pursuits-auto_clear = pursuits-clear_all user_id (keep (depends_on predecessor_id) s.pursuits) s

    -- After the clearing no pursuit depends on the predecessor.
    pub dependents-auto_clear :
        keep
          (depends_on predecessor_id)
          (auto_clear_dependents_of_outcome predecessor_id user_id s).1.pursuits
        ≡ []
    unfolding auto_clear_dependents_of_outcome
    dependents-auto_clear =
        let ds = keep (depends_on predecessor_id) s.pursuits in
        ap (keep (depends_on predecessor_id)) (pursuits-clear_all user_id ds s)
        ∙ keep-dropped predecessor_id user_id s.now ds s.pursuits
            (AreListed-keep predecessor_id s.pursuits)

    -- Where no pursuit has two current rows of one scenario, none has after the clearing of the
    -- dependents of a predecessor.
    pub auto_clear-HasOneCurrent :
        HasOneCurrent s.assessments
        → HasOneCurrent (auto_clear_dependents_of_outcome predecessor_id user_id s).1.assessments
    unfolding auto_clear_dependents_of_outcome
    auto_clear-HasOneCurrent one i sc = omega (
      arith,
      count-clear_all_le user_id i sc (keep (depends_on predecessor_id) s.pursuits) s,
      one i sc,
    )
