-- ===== src/Dependency/Cut.antt =====
-- The graph of dependencies after one of them has been cleared (api/app/routers/write.py,
-- api/app/plan_scope.py).
use mathlib.Core.Path.{subst}
use cpde_web.Prelude.{
  none_not_some, ℕ, suc, ◌≡◌, sym, ◌∙◌, true, false, Option, none, some, ◌==◌, ==_iff, inl, inr,
  Bool-cases, if◌then◌else◌,
}
use cpde_web.Dependency.{Deps}
use cpde_web.Dependency.Acyclic.{Ends, absent, last, next, IsAcyclic}

module _ (deps : Deps) (p : ℕ) where
  -- The deps after one row has lost its dependency.
  abbrev pub cut : Deps
  cut i = if i == p then some none else deps i

  cut_self : (i : ℕ) → (i == p) ≡ true → cut i ≡ some none
  cut_self i same = rw same

  cut_other : (i : ℕ) → (i == p) ≡ false → cut i ≡ deps i
  cut_other i ne = rw ne

  -- No chain grows by it.
  Ends-cut : (r : Option ℕ) → deps p ≡ some r → (n i : ℕ) → Ends deps n i → Ends cut n i
  Ends-cut r known n i (absent _ _ e) = elim (Bool-cases (i == p)) [
    | inl same ↦
        absurd
          (none_not_some (sym e ∙ subst (λ k. deps k ≡ some r) (sym ((==_iff i p).0 same)) known))
    | inr ne ↦ absent n i (cut_other i ne ∙ e)
  ]
  Ends-cut r known (suc n) i (last _ _ e) = elim (Bool-cases (i == p)) [
    | inl same ↦ last n i (cut_self i same)
    | inr ne ↦ last n i (cut_other i ne ∙ e)
  ]
  Ends-cut r known (suc n) i (next _ _ j e d) = elim (Bool-cases (i == p)) [
    | inl same ↦ last n i (cut_self i same)
    | inr ne ↦ next n i j (cut_other i ne ∙ e) (Ends-cut r known n j d)
  ]

  pub cut-IsAcyclic : (r : Option ℕ) → deps p ≡ some r → IsAcyclic deps → IsAcyclic cut
  cut-IsAcyclic r known acyclic i = ((acyclic i).0, Ends-cut r known (acyclic i).0 i (acyclic i).1)
