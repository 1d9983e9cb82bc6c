-- ===== src/Dependency/Tests.antt =====
-- Dependencies on the sample, and a chain that is longer than the check reads.
use cpde_web.Prelude.{
  ℕ, String, Bool-cases, inl, inr, suc, zero, ◌≡◌, ◌≤◌, ◌↔◌, refl, true, none, some, Option, [],
  ◌∷◌, arith, ◌==◌, List, find?, if◌then◌else◌,
}
use cpde_web.Prelude.Monad.{ok}
use cpde_web.Store.{Store, Pursuit}
use cpde_web.Sample.{sample, sample_pursuit}
use cpde_web.Scope.{scoped, user_has_scope, is_visible_from}
use cpde_web.Dependency.{
  deps_of, chain_hits, chain_cap, is_lpta, latest_questionnaire, dependency_candidates,
  resolve_pursuit_dependency, set_dependency,
}
use cpde_web.Dependency.Acyclic.{Ends, absent, last, next, IsAcyclic, At, chain_hits_iff}
use cpde_web.Dependency.Resolve.{IsAccepted, resolve-IsAccepted, resolve_cycle}

chain_hits_iff_example :
    (chain_hits 50 (deps_of sample) 2 1 ≡ true)
    ↔ ((n : ℕ) × (suc n ≤ 50) × At (deps_of sample) n 2 1)
chain_hits_iff_example = chain_hits_iff (deps_of sample) 50 2 1

-- The third pursuit asks to depend on the second.
abbrev named : ℕ → Option ℕ → String → Pursuit ℕ
named i dep uid = record (sample_pursuit i dep none) { external_opportunity_id = some uid }

abbrev three : Store ℕ
three = record sample { pursuits = named 1 none "A" ∷ named 2 (some 1) "B" ∷ named 3 none "C" ∷ [] }

accepted : (resolve_pursuit_dependency 3 7 "B" three).0 ≡ ok 2
unfolding resolve_pursuit_dependency is_lpta latest_questionnaire dependency_candidates chain_hits
    scoped user_has_scope is_visible_from
accepted = refl

resolve-IsAccepted_example : IsAccepted 3 7 "B" three 2
resolve-IsAccepted_example = resolve-IsAccepted 3 7 "B" three 2 (omega arith) accepted

three-IsAcyclic : IsAcyclic (deps_of three)
three-IsAcyclic i = elim (Bool-cases (1 == i)) [
  | inl one ↦ (1, last 0 i (ground arith))
  | inr ne1 ↦ elim (Bool-cases (2 == i)) [
    | inl two ↦ (2, next 1 i 1 (ground arith) (last 0 1 refl))
    | inr ne2 ↦ elim (Bool-cases (3 == i)) [
      | inl same ↦ (1, last 0 i (ground arith))
      | inr ne3 ↦ (0, absent 0 i (ground arith))
    ]
  ]
]

short : Ends (deps_of three) chain_cap 2
short = next 49 2 1 refl (last 48 1 refl)

-- Pursuit 0 without a dependency, and each of 1 to 50 dependent on the one before it.
chain : ℕ → List (Pursuit ℕ)
chain zero = named 0 none "first" ∷ []
chain (suc k) = named (suc k) (some k) (if suc k == 50 then "last" else "between") ∷ chain k

abbrev long : Store ℕ
long = record sample { pursuits = chain 50 }

comes_round : chain_hits 51 (deps_of long) 50 0 ≡ true
unfolding chain_hits chain
comes_round = refl

accepted_long : (resolve_pursuit_dependency 0 7 "last" long).0 ≡ ok 50
unfolding resolve_pursuit_dependency is_lpta latest_questionnaire dependency_candidates chain_hits
    chain scoped user_has_scope is_visible_from
accepted_long = refl

found_first : find? (λ q. q.id == 0) long.pursuits ≡ some (named 0 none "first")
unfolding chain
found_first = refl

abbrev way_round : (n : ℕ) × (suc n ≤ 51) × At (deps_of long) n 50 0
way_round = (chain_hits_iff (deps_of long) 51 50 0).0 comes_round

resolve_cycle_example :
    (chain_cap ≤ way_round.0) × ¬ IsAcyclic (deps_of (set_dependency 0 (some 50) long))
resolve_cycle_example =
    resolve_cycle 0 7 "last" long 50 way_round.0 {p = named 0 none "first"} found_first way_round.2
      accepted_long
