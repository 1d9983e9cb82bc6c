-- ===== src/Dependency/Resolve.antt =====
-- What a dependency write accepts, and what it does to the graph of dependencies.
use cpde_web.Prelude.{
  ℕ, String, ◌≤◌, ◌≡◌, refl, sym, ap, ◌∙◌, ◌≢◌, Bool, true, false, not, ◌&&◌, Option, none, some,
  List, [], ◌∷◌, arith, ◌==◌, ==_iff, is_some, count, find?, update_where, if◌then◌else◌,
  Bool-cases, inl, inr,
}
use mathlib.Core.Bool.{false≢true}
use mathlib.Core.Path.{fun_ext, subst}
use mathlib.Core.Option
use native.Mathlib.Decide.{dec_le}
use cpde_web.Prelude.Monad.{Result, ok, text, pure, or_raise, raise_if, ◌>>=◌, ◌>>◌}
use cpde_web.Store.{Pursuit, Store}
use cpde_web.Store.Rows.{find?-passes, find?-keep, find?-key}
use cpde_web.Scope.{scoped}
use cpde_web.Dependency.{
  deps_of, chain_hits, chain_cap, is_lpta, dependency_candidates, resolve_pursuit_dependency,
  set_dependency, has_text, has_text-some,
}
use cpde_web.Dependency.Acyclic.{
  Ends, At, IsAcyclic, redirect, chain_hits_iff, redirect-IsAcyclic, redirect_cycle,
}

abbrev row_of : {N : Type 0} → Option (Pursuit N) → Option (Option ℕ)
row_of none = none
row_of (some p) = some p.depends_on_pursuit_id

module _ {N : Type 0} (pursuit_id user_id : ℕ) (uid : String) (s : Store N) where
  -- What is known of a target that was accepted.
  pub record IsAccepted (t : ℕ) : Type 0 where
    pub not_lpta : is_lpta pursuit_id s ≡ false
    pub target : Pursuit N
    pub is_target : find? (λ p. p.id == t) s.pursuits ≡ some target
    pub named : target.external_opportunity_id ≡ some uid
    pub in_scope : scoped user_id s target ≡ true
    pub is_open : target.outcome ≡ none
    pub not_self : t ≢ pursuit_id
    pub no_cycle : chain_hits chain_cap (deps_of s) t pursuit_id ≡ false

  abbrev steps : Bool → Option (Pursuit N) → Result ℕ
  steps l x =
      ((do
        raise_if l 400 (text "an LPTA pursuit cannot have a dependency")
        target ← or_raise x 404 (text "dependency target not found in your scope")
        raise_if (target.id == pursuit_id) 400 (text "a pursuit cannot depend on itself")
        raise_if (chain_hits chain_cap (deps_of s) target.id pursuit_id) 400
            (text "this would create a dependency cycle")
        pure target.id)
        s).0

  steps-ok :
      (l : Bool) (x : Option (Pursuit N)) (t : ℕ)
      → steps l x ≡ ok t
      → (l ≡ false)
        × (target : Pursuit N) × (x ≡ some target)
        × (target.id ≡ t)
        × ((target.id == pursuit_id) ≡ false)
        × (chain_hits chain_cap (deps_of s) target.id pursuit_id ≡ false)
  steps-ok true x t h = cc
  steps-ok false none t h = cc
  steps-ok false (some p) t h = elim (Bool-cases (p.id == pursuit_id)) [
    | inl same ↦ ground arith
    | inr other ↦ elim (Bool-cases (chain_hits chain_cap (deps_of s) p.id pursuit_id)) [
      | inl hit ↦ ground arith
      | inr clear ↦ (refl, p, refl, ground arith, other, clear)
    ]
  ]

  resolve-not_hit :
      (t : ℕ)
      → (resolve_pursuit_dependency pursuit_id user_id uid s).0 ≡ ok t
      → chain_hits chain_cap (deps_of s) t pursuit_id ≡ false
  unfolding resolve_pursuit_dependency
  resolve-not_hit t h =
      let named = λ (p : Pursuit N). has_text uid p.external_opportunity_id in
      let (l, p, e, same, ne, clear) =
        steps-ok (is_lpta pursuit_id s) (find? named (dependency_candidates user_id s)) t h in
      subst (λ k. chain_hits chain_cap (deps_of s) k pursuit_id ≡ false) same clear

  -- A target whose id at most one pursuit has is accepted only if the pursuit is not LPTA and the
  -- row of the store with that id is another, visible and open pursuit with the given opportunity
  -- id whose chain does not come to the pursuit within fifty rows.
  pub resolve-IsAccepted :
      (t : ℕ)
      → count (λ p. p.id == t) s.pursuits ≤ 1
      → (resolve_pursuit_dependency pursuit_id user_id uid s).0 ≡ ok t
      → IsAccepted t
  unfolding resolve_pursuit_dependency dependency_candidates
  resolve-IsAccepted t one h =
      let named = λ (p : Pursuit N). has_text uid p.external_opportunity_id in
      let open_in_scope = λ (p : Pursuit N). scoped user_id s p && not (is_some p.outcome) in
      let accepts = λ (p : Pursuit N). open_in_scope p && named p in
      let (l, p, e, same, ne, clear) =
        steps-ok (is_lpta pursuit_id s) (find? named (dependency_candidates user_id s)) t h in
      let g = sym (find?-keep named open_in_scope s.pursuits) ∙ e in
      let f = find?-passes accepts s.pursuits p g in
      record {
        not_lpta = l;
        target = p;
        is_target = find?-key accepts (λ q. q.id == t) p s.pursuits g ((==_iff p.id t).1 same) one;
        named = has_text-some uid p.external_opportunity_id (ground arith);
        in_scope = ground arith;
        is_open = ground arith;
        not_self = λ q. false≢true (sym ne ∙ (==_iff p.id pursuit_id).1 (same ∙ q));
        no_cycle = resolve-not_hit t h;
      }

  deps_update :
      (t i : ℕ) (ps : List (Pursuit N))
      → row_of (
          find?
            (λ q. q.id == i)
            (update_where
              (λ q. q.id == pursuit_id)
              (λ q. record q { depends_on_pursuit_id = some t })
              ps))
        ≡ (if i == pursuit_id
            then Option.map (λ q. some t) (find? (λ q. q.id == i) ps)
            else row_of (find? (λ q. q.id == i) ps))
  deps_update t i [] = ground arith
  deps_update t i (q ∷ ps) = ground (arith, deps_update t i ps)

  -- The graph after the write.
  deps-set_dependency :
      (t : ℕ) {p : Pursuit N}
      → find? (λ q. q.id == pursuit_id) s.pursuits ≡ some p
      → deps_of (set_dependency pursuit_id (some t) s) ≡ redirect (deps_of s) pursuit_id t
  deps-set_dependency t {p} known = fun_ext λ i. elim (Bool-cases (i == pursuit_id)) [
    | inl same ↦
        deps_update t i s.pursuits
        ∙ rw same (
            ap (Option.map (λ q. some t))
              (ap (λ k. find? (λ q. q.id == k) s.pursuits) ((==_iff i pursuit_id).0 same) ∙ known))
    | inr other ↦ deps_update t i s.pursuits ∙ rw other
  ]

  -- If the pursuit exists, the dependencies have no cycle and the chain of the target ends within
  -- fifty rows, then writing a target that was accepted leaves the dependencies without a cycle.
  pub resolve-IsAcyclic :
      (t : ℕ) {p : Pursuit N}
      → find? (λ q. q.id == pursuit_id) s.pursuits ≡ some p
      → IsAcyclic (deps_of s)
      → Ends (deps_of s) chain_cap t
      → (resolve_pursuit_dependency pursuit_id user_id uid s).0 ≡ ok t
      → IsAcyclic (deps_of (set_dependency pursuit_id (some t) s))
  resolve-IsAcyclic t {p} known acyclic short h =
      subst IsAcyclic (sym (deps-set_dependency t known)) (
        redirect-IsAcyclic (deps_of s) pursuit_id t (ap row_of known) chain_cap acyclic short
          (resolve-not_hit t h))

  -- If the pursuit exists and the chain of an accepted target comes to it, then it does so only
  -- after fifty rows or more, and writing the target makes a cycle.
  pub resolve_cycle :
      (t n : ℕ) {p : Pursuit N}
      → find? (λ q. q.id == pursuit_id) s.pursuits ≡ some p
      → At (deps_of s) n t pursuit_id
      → (resolve_pursuit_dependency pursuit_id user_id uid s).0 ≡ ok t
      → (chain_cap ≤ n) × ¬ IsAcyclic (deps_of (set_dependency pursuit_id (some t) s))
  resolve_cycle t n known a h = (
    elim (dec_le chain_cap n) [
      | yes far ↦ far
      | no near ↦ absurd (
          false≢true (
            sym (resolve-not_hit t h)
            ∙ (chain_hits_iff (deps_of s) chain_cap t pursuit_id).1 (n, omega arith, a)))
    ],
    (λ c.
        redirect_cycle (deps_of s) pursuit_id t n a
          (subst IsAcyclic (deps-set_dependency t known) c)),
  )
