-- ===== src/Dependency.antt =====
-- The "Depends on" write: `dependency_candidates` and `resolve_pursuit_dependency` of
-- api/app/plan_scope.py.
pub mod Acyclic
pub mod Cut
pub mod Latest
pub mod Resolve
mod Tests
use cpde_web.Prelude.{
  ℕ, zero, suc, String, Bool, true, false, Option, none, some, List, [], ◌∷◌, ◌==◌, ◌&&◌, not,
  str_eq, if◌then◌else◌, ◌≡◌, ap, eq_iff, find?, keep, is_some, ltb, update_where,
}
use cpde_web.Prelude.Monad.{Tx, text, pure, raise, gets, or_raise, ◌>>=◌, ◌>>◌, raise_if}
use cpde_web.Store.{
  Scenario, base, Pursuit, Assessment, Answer, AnswerValue, option, Store, same_scenario,
  is_questionnaire,
}
use cpde_web.Scope.{scoped}

-- `column = %s`, which no NULL passes.
abbrev pub has_text : String → Option String → Bool
has_text t none = false
has_text t (some v) = str_eq v t

pub has_text-some : (t : String) (v : Option String) → has_text t v ≡ true → v ≡ some t
has_text-some t none e = cc
has_text-some t (some v) e = ap some ((eq_iff v t).0 e)

module _ {N : Type 0} where
  -- Of the assessments of a pursuit and scenario that pass the test, the latest calculated; the first
  -- of equals (the query leaves that choice open).
  later_of : Assessment N → Option (Assessment N) → Assessment N
  later_of a none = a
  later_of a (some b) = if ltb a.calculated_at b.calculated_at then b else a

  latest : (Assessment N → Bool) → List (Assessment N) → Option (Assessment N)
  latest p [] = none
  latest p (a ∷ rows) = let rest = latest p rows in if p a then some (later_of a rest) else rest

  -- `LATEST_QUESTIONNAIRE_JOIN`, and `latest_questionnaire_id` for its id.
  unfoldable pub latest_questionnaire : ℕ → Scenario → Store N → Option (Assessment N)
  unfolding latest later_of
  latest_questionnaire pursuit_id scenario s =
      latest
        (λ a.
          a.pursuit_id == pursuit_id
          && same_scenario a.scenario scenario
          && is_questionnaire a.assessment_type)
        s.assessments

  -- The label that answers a question in one assessment.
  abbrev pub answer_label : ℕ → String → Store N → Option String
  answer_label assessment_id code s =
      elim (find? (λ w. w.pwin_assessment_id == assessment_id && str_eq w.question code)
        s.answers) [
          | none ↦ none
          | some w ↦ elim w.value [ option _ label ↦ some label | _ ↦ none ]
        ]

  -- The pursuit's own stored P2 answer is LPTA.
  unfoldable pub is_lpta : ℕ → Store N → Bool
  unfolding latest_questionnaire
  is_lpta pursuit_id s = elim (latest_questionnaire pursuit_id base s) [
    | none ↦ false
    | some a ↦ elim (answer_label a.id "P2" s) [ none ↦ false | some label ↦ str_eq label "LPTA" ]
  ]

  unfoldable pub dependency_candidates : ℕ → Store N → List (Pursuit N)
  dependency_candidates user_id s =
      keep (λ p. scoped user_id s p && not (is_some p.outcome)) s.pursuits

-- `depends_on_pursuit_id` as a partial function on ids; `none` also where there is no such row.
abbrev pub Deps : Type 0
Deps = ℕ → Option (Option ℕ)

module _ {N : Type 0} where
  abbrev pub deps_of : Store N → Deps
  deps_of s i = elim (find? (λ p. p.id == i) s.pursuits) [
    | none ↦ none
    | some p ↦ some p.depends_on_pursuit_id
  ]

-- The recursive query: the rows of the chain from `cur`, at most `depth` of them, and whether one of
-- them is the goal.
unfoldable pub chain_hits : (depth : ℕ) → Deps → (cur goal : ℕ) → Bool
chain_hits zero deps cur goal = false
chain_hits (suc depth) deps cur goal = elim (deps cur) [
  | none ↦ false
  | some next ↦ elim (cur == goal) [
    | true ↦ true
    | false ↦ elim next [ none ↦ false | some q ↦ chain_hits depth deps q goal ]
  ]
]

abbrev pub chain_cap : ℕ
chain_cap = 50

module _ {N : Type 0} where
  unfoldable pub resolve_pursuit_dependency :
      (pursuit_id user_id : ℕ) → (depends_on_uid : String) → Tx (Store N) ℕ
  unfolding is_lpta dependency_candidates chain_hits
  resolve_pursuit_dependency pursuit_id user_id depends_on_uid s =
      (do
        raise_if (is_lpta pursuit_id s) 400 (text "an LPTA pursuit cannot have a dependency")
        target ←
            or_raise
              (find? (λ p. has_text depends_on_uid p.external_opportunity_id)
                (dependency_candidates user_id s))
              404 (text "dependency target not found in your scope")
        raise_if (target.id == pursuit_id) 400 (text "a pursuit cannot depend on itself")
        raise_if (chain_hits chain_cap (deps_of s) target.id pursuit_id) 400
            (text "this would create a dependency cycle")
        pure target.id)
        s

  -- The dependencies after the resolved id has been written to the pursuit; no other column matters here.
  abbrev pub set_dependency : ℕ → Option ℕ → Store N → Store N
  set_dependency pursuit_id target s = record s {
    pursuits =
        update_where (λ p. p.id == pursuit_id) (λ p. record p { depends_on_pursuit_id = target })
          s.pursuits;
  }
