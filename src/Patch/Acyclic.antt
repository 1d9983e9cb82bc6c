-- ===== src/Patch/Acyclic.antt =====
-- The graph of dependencies under `patch_pursuit` (api/app/routers/write.py).
use mathlib.Core.Path.{subst, fun_ext}
use cpde_web.Prelude.{
  ℕ, String, ◌≡◌, refl, sym, ap, ◌∙◌, Bool, false, Option, none, some, ◌==◌, ==_iff, ==_refl,
  Bool-cases, inl, inr,
}
use cpde_web.Prelude.Num.{Float}
use cpde_web.Prelude.Ensures.{Ensures, weaken}
use cpde_web.Store.{Pursuit, Store, dependency_of, pursuit_of}
use cpde_web.Store.Valid.{IsValid}
use cpde_web.Scope.{IdText, scoped}
use cpde_web.Scoring.{Cache}
use cpde_web.Recalc.{Payload, EngineAnswer}
use cpde_web.Lifecycle.Closing.{IsHistory}
use cpde_web.Lifecycle.Recorded.{find?-one}
use cpde_web.Dependency.{Deps, deps_of, chain_cap}
use cpde_web.Dependency.Acyclic.{Ends, IsAcyclic, redirect, redirect-IsAcyclic}
use cpde_web.Dependency.Cut.{cut, cut-IsAcyclic}
use cpde_web.Patch.Body.{Sent, PursuitPatch, is_value}
use cpde_web.Patch.Plan.{References}
use cpde_web.Patch.Handler.{Patched, patch_pursuit}
use cpde_web.Patch.Recorded.{IsPatch, patch_pursuit-IsPatch}

module _ {N : Type 0} where
  deps_at : (s : Store N) (j : ℕ) → deps_of s j ≡ dependency_of (pursuit_of j s)
  deps_at s j = of_found (pursuit_of j s)
    where
      of_found :
          (o : Option (Pursuit N))
          → elim o [ none ↦ none | some p ↦ some p.depends_on_pursuit_id ] ≡ dependency_of o
      of_found none = refl
      of_found (some p) = refl

  deps_same : (s t : Store N) (j : ℕ) → pursuit_of j t ≡ pursuit_of j s → deps_of t j ≡ deps_of s j
  deps_same s t j e = deps_at t j ∙ ap dependency_of e ∙ sym (deps_at s j)

  deps_found :
      (s : Store N) (j : ℕ) (p : Pursuit N)
      → pursuit_of j s ≡ some p
      → deps_of s j ≡ some p.depends_on_pursuit_id
  deps_found s j p e = deps_at s j ∙ ap dependency_of e

  -- The graph after a write to one row.
  module _ (i : ℕ) (s t : Store N)
      (others : (j : ℕ) → (j == i) ≡ false → pursuit_of j t ≡ pursuit_of j s) (new : Pursuit N)
      (is_new : pursuit_of i t ≡ some new) where
    write_graph :
        (d : Option ℕ)
        → new.depends_on_pursuit_id ≡ d
        → (g : Deps) → (g i ≡ some d)
        → ((j : ℕ) → (j == i) ≡ false → g j ≡ deps_of s j)
        → deps_of t ≡ g
    write_graph d e g here elsewhere = fun_ext λ j. elim (Bool-cases (j == i)) [
      | inl same ↦
          subst (λ k. deps_of t k ≡ g k) (sym ((==_iff j i).0 same))
            (deps_found t i new is_new ∙ ap some e ∙ sym here)
      | inr ne ↦ deps_same s t j (others j ne) ∙ sym (elsewhere j ne)
    ]

module _ (fl : Float) where
  open fl use {Num}

  module _ (pursuit_text : IdText) (body : PursuitPatch Num) (user_id : ℕ) (is_admin : Bool)
      (s t : Store Num) (h : IsPatch fl pursuit_text body user_id is_admin s t) where
    module _ (hist : IsHistory s) (short : (j : ℕ) → Ends (deps_of s) chain_cap j) where
      before_deps : deps_of s h.pursuit_id ≡ some h.before.depends_on_pursuit_id
      before_deps = deps_found s h.pursuit_id h.before (
          find?-one (λ p. p.id == h.pursuit_id) (scoped user_id s) h.before s.pursuits h.in_scope
            (hist.one_pursuit h.pursuit_id))

      was-IsAcyclic : IsAcyclic (deps_of s)
      was-IsAcyclic j = (chain_cap, short j)

      graph :
          (d : Option ℕ)
          → h.after.depends_on_pursuit_id ≡ d
          → (g : Deps) → (g h.pursuit_id ≡ some d)
          → ((j : ℕ) → (j == h.pursuit_id) ≡ false → g j ≡ deps_of s j)
          → deps_of t ≡ g
      graph = write_graph h.pursuit_id s t h.others h.after h.is_after

      unnamed_IsAcyclic : is_value body.depends_on_opp_id ≡ false → IsAcyclic (deps_of t)
      unnamed_IsAcyclic e = elim (h.kept_dependency e) [
        | inl same ↦
            subst IsAcyclic
              (sym
                (graph h.before.depends_on_pursuit_id same (deps_of s) before_deps (λ j ne. refl)))
              was-IsAcyclic
        | inr gone ↦
            subst IsAcyclic
              (sym (
                graph none gone (cut (deps_of s) h.pursuit_id) (rw (==_refl h.pursuit_id) refl)
                  (λ j ne. rw ne refl)))
              (cut-IsAcyclic (deps_of s) h.pursuit_id h.before.depends_on_pursuit_id before_deps
                was-IsAcyclic)
      ]

      named_IsAcyclic :
          (uid : String) → body.depends_on_opp_id ≡ some (some uid) → IsAcyclic (deps_of t)
      named_IsAcyclic uid named =
          let (target, e, accepted) = h.depends uid named in
          subst IsAcyclic
            (sym (
              graph (some target) e (redirect (deps_of s) h.pursuit_id target)
                (rw (==_refl h.pursuit_id) refl) (λ j ne. rw ne refl)))
            (redirect-IsAcyclic (deps_of s) h.pursuit_id target before_deps chain_cap was-IsAcyclic
              (short target) accepted.no_cycle)

      patched-IsAcyclic : IsAcyclic (deps_of t)
      patched-IsAcyclic = of_sent body.depends_on_opp_id refl
        where
          of_sent : (sent : Sent String) → body.depends_on_opp_id ≡ sent → IsAcyclic (deps_of t)
          of_sent none e = unnamed_IsAcyclic (ap is_value e)
          of_sent (some none) e = unnamed_IsAcyclic (ap is_value e)
          of_sent (some (some uid)) e = named_IsAcyclic uid e

  module _ {Q : Type 0} (cache : Cache fl Q) (engine : Pursuit Num → Payload fl → EngineAnswer fl)
      (refs : References) (pursuit_text : IdText) (body : PursuitPatch Num) (user_id : ℕ)
      (is_admin : Bool) (s : Store Num) where
    -- Where the store satisfies the constraints of the schema, every WON or LOST pursuit is BID,
    -- and every chain of dependencies ends within fifty rows, no dependencies make a cycle after
    -- an accepted edit; a refused edit leaves the store as it was.
    pub patch_pursuit-IsAcyclic :
        IsValid s
        → IsHistory s
        → ((j : ℕ) → Ends (deps_of s) chain_cap j)
        → Ensures
            (λ _ t. IsAcyclic (deps_of t))
            (λ t. t ≡ s)
            (patch_pursuit fl cache engine refs pursuit_text body user_id is_admin s)
    patch_pursuit-IsAcyclic v hist short =
        weaken (λ (_ : Patched Num) t. IsPatch fl pursuit_text body user_id is_admin s t)
          (λ _ t. IsAcyclic (deps_of t)) (λ t. t ≡ s)
          (λ _ t h. patched-IsAcyclic pursuit_text body user_id is_admin s t h hist short)
          (patch_pursuit fl cache engine refs pursuit_text body user_id is_admin s)
          (patch_pursuit-IsPatch fl cache engine refs pursuit_text body user_id is_admin s v hist)
