-- ===== src/Pwin.antt =====
-- The dependency blend of api/app/recalc.py, and the clearing of dependents of
-- api/app/plan_scope.py.
pub mod Blend
pub mod Kept
pub mod Clear
pub mod Valid
pub mod Answers
mod Tests
use cpde_web.Prelude.{
  ℕ, String, Bool, true, false, Option, none, some, List, [], ◌∷◌, ◌==◌, ◌&&◌, if◌then◌else◌, keep,
  map, update_where,
}
use cpde_web.Prelude.Num.{Float}
use cpde_web.Store.{
  Scenario, base, dependent_won, Outcome, won, lost, cancelled, Pursuit, Assessment, Store,
  same_scenario, is_current_of, current_of, pursuit_of,
}

-- `float(row["pwin"]) if row and row["pwin"] is not None else default`
abbrev pub pwin_or : {N : Type 0} → N → Option (Assessment N) → N
pwin_or default none = default
pwin_or default (some row) = elim row.pwin [ none ↦ default | some v ↦ v ]

module _ (fl : Float) where
  open fl use {Num, zero, one, add, sub, mul}

  -- The factor of a decided predecessor, and of an open one that is given.
  abbrev decided_factor : Option Outcome → Num → Num
  decided_factor (some won) open_factor = one
  decided_factor (some lost) open_factor = zero
  decided_factor (some cancelled) open_factor = zero
  decided_factor (some Outcome.no_bid) open_factor = zero
  decided_factor none open_factor = open_factor

  abbrev outcome_of : Option (Pursuit Num) → Option Outcome
  outcome_of none = none
  outcome_of (some p) = p.outcome

  -- `dep_factor` in `apply_dependency_blend`
  unfoldable pub dep_factor : ℕ → Store Num → Num
  dep_factor predecessor_id s =
      decided_factor (outcome_of (pursuit_of predecessor_id s))
        (pwin_or zero (current_of predecessor_id base s))

  -- `dep_win`
  unfoldable pub dep_win : ℕ → Num → Store Num → Num
  dep_win pursuit_id base_pwin s = pwin_or base_pwin (current_of pursuit_id dependent_won s)

  -- `blended = base + (dep_win - base) * dep_factor`
  unfoldable pub blended_of : (base_pwin dep_pwin factor : Num) → Num
  blended_of base_pwin dep_pwin factor = add base_pwin (mul (sub dep_pwin base_pwin) factor)

  abbrev set_blend : Num → Assessment Num → Assessment Num
  set_blend blended a = record a { pwin = some blended; blended_pwin = some blended }

  blend_row : Option (Assessment Num) → ℕ → ℕ → Store Num → Store Num
  unfolding dep_factor dep_win blended_of
  blend_row none pursuit_id predecessor_id s = s
  blend_row (some row) pursuit_id predecessor_id s = elim row.base_pwin [
    | none ↦ s
    | some b ↦ record s {
      assessments =
          update_where (λ a. a.id == row.id)
            (set_blend (blended_of b (dep_win pursuit_id b s) (dep_factor predecessor_id s)))
            s.assessments;
    }
  ]

  unfoldable pub apply_dependency_blend : ℕ → ℕ → Store Num → Store Num
  unfolding blend_row
  apply_dependency_blend pursuit_id predecessor_id s =
      blend_row (current_of pursuit_id base s) pursuit_id predecessor_id s

-- A dependent that was cleared, as the response lists it.
pub record Cleared : Type 0 where
  pub id : ℕ
  pub external_opportunity_id : Option String
  pub name : String

module _ {N : Type 0} where
  abbrev pub depends_on : ℕ → Pursuit N → Bool
  depends_on predecessor_id p = elim p.depends_on_pursuit_id [
    | none ↦ false
    | some q ↦ q == predecessor_id
  ]

  abbrev pub drop_dependency : ℕ → ℕ → Pursuit N → Pursuit N
  drop_dependency user_id now p = record p {
    depends_on_pursuit_id = none;
    updated_at = now;
    updated_by = some user_id;
  }

  abbrev pub demote : Assessment N → Assessment N
  demote a = record a { is_current = false }

  abbrev pub reset_pwin : Assessment N → Assessment N
  reset_pwin a = record a { pwin = a.base_pwin; blended_pwin = none }

  -- The body of the loop over the dependents: the three updates.
  unfoldable pub clear_dependent : (user_id : ℕ) → Pursuit N → Store N → Store N
  clear_dependent user_id dep s = record s {
    pursuits = update_where (λ p. p.id == dep.id) (drop_dependency user_id s.now) s.pursuits;
    assessments =
        update_where (is_current_of dep.id base) reset_pwin
          (update_where (is_current_of dep.id dependent_won) demote s.assessments);
  }

  abbrev cleared_entry : Pursuit N → Cleared
  cleared_entry dep = record {
    id = dep.id;
    external_opportunity_id = dep.external_opportunity_id;
    name = dep.name;
  }

  clear_all : (user_id : ℕ) → List (Pursuit N) → Store N → Store N
  clear_all user_id [] s = s
  clear_all user_id (dep ∷ deps) s = clear_all user_id deps (clear_dependent user_id dep s)

  unfoldable pub auto_clear_dependents_of_outcome :
      (predecessor_id user_id : ℕ) → Store N → List Cleared × Store N
  unfolding clear_all
  auto_clear_dependents_of_outcome predecessor_id user_id s =
      let dependents = keep (depends_on predecessor_id) s.pursuits in
      (map cleared_entry dependents, clear_all user_id dependents s)
