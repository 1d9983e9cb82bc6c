-- ===== src/Pwin/Blend.antt =====
-- The value of the blend of api/app/recalc.py.
use mathlib.Core.Path.{subst}
use cpde_web.Prelude.{
  ℕ, ◌≡◌, refl, ap, ◌∙◌, Bool, true, false, Option, none, some, arith, ◌==◌, ==_refl, if◌then◌else◌,
}
use cpde_web.Prelude.Num.{Float}
use cpde_web.Store.{
  base, Outcome, won, lost, cancelled, Pursuit, Assessment, Store, is_current_of, current_of,
  pursuit_of,
}
use cpde_web.Store.Rows.{find?-update_where}
use cpde_web.Pwin.{
  pwin_or, dep_factor, dep_win, blended_of, apply_dependency_blend, blend_row, set_blend,
  decided_factor, outcome_of,
}

abbrev pub is_won : Outcome → Bool
is_won won = true
is_won _ = false

module _ (fl : Float) where
  open fl use {Num, zero, one, add, sub, mul, leq}

  -- Whatever the predecessor, a blend sets `pwin` and `blended_pwin` of the current BASE row to the
  -- formula's value and leaves the rest of that row as it was.
  pub current_of-blend :
      (pursuit_id predecessor_id : ℕ) (s : Store Num) {row : Assessment Num} {b : Num}
      → current_of pursuit_id base s ≡ some row
      → row.base_pwin ≡ some b
      → let v = blended_of fl b (dep_win fl pursuit_id b s) (dep_factor fl predecessor_id s) in
        current_of pursuit_id base (apply_dependency_blend fl pursuit_id predecessor_id s)
        ≡ some (record row { pwin = some v; blended_pwin = some v })
  unfolding apply_dependency_blend
  current_of-blend pursuit_id predecessor_id s {row} {b} found has =
      rw (found, blend_row, has)
        (rw
          (find?-update_where (is_current_of pursuit_id base) (λ a. a.id == row.id)
            (set_blend fl
              (blended_of fl b (dep_win fl pursuit_id b s) (dep_factor fl predecessor_id s)))
            (λ x. refl) s.assessments)
          (rw found (ground (arith, ==_refl row.id))))

  -- The `pwin` that every list and rollup reads for a pursuit.
  abbrev pub row_pwin : Option (Assessment Num) → Option Num
  row_pwin none = none
  row_pwin (some row) = row.pwin

  abbrev pub live_pwin : ℕ → Store Num → Option Num
  live_pwin pursuit_id s = row_pwin (current_of pursuit_id base s)

  dep_factor_decided :
      (predecessor_id : ℕ) (s : Store Num) {pred : Pursuit Num} {o : Outcome}
      → pursuit_of predecessor_id s ≡ some pred
      → pred.outcome ≡ some o
      → dep_factor fl predecessor_id s
        ≡ decided_factor fl (some o) (pwin_or zero (current_of predecessor_id base s))
  unfolding dep_factor
  dep_factor_decided predecessor_id s is_pred decided =
      ap (λ x. decided_factor fl x (pwin_or zero (current_of predecessor_id base s)))
        (ap (outcome_of fl) is_pred ∙ decided)

  decided_blend :
      (o : Outcome) (open_factor b x : Num)
      → add b (mul x (decided_factor fl (some o) open_factor)) ≡ (if is_won o then add b x else b)
  decided_blend won f b x = ap (add b) (fl.mul_one x)
  decided_blend lost f b x = fl.add-mul_zero b x
  decided_blend cancelled f b x = fl.add-mul_zero b x
  decided_blend Outcome.no_bid f b x = fl.add-mul_zero b x

  module _ (pursuit_id predecessor_id : ℕ) (s : Store Num) {row : Assessment Num} {b : Num}
      (found : current_of pursuit_id base s ≡ some row) (has : row.base_pwin ≡ some b) where
    live_pwin-blend :
        live_pwin pursuit_id (apply_dependency_blend fl pursuit_id predecessor_id s)
        ≡ some (blended_of fl b (dep_win fl pursuit_id b s) (dep_factor fl predecessor_id s))
    live_pwin-blend = ap row_pwin (current_of-blend pursuit_id predecessor_id s found has)

    -- Where the current BASE row of a pursuit has a standalone Pwin and the predecessor is
    -- decided, the blend leaves the whole step to the dependent-won Pwin after a win, and exactly
    -- the standalone Pwin after a loss, a cancellation or a no-bid.
    pub live_pwin-blend_decided :
        {pred : Pursuit Num} {o : Outcome}
        → pursuit_of predecessor_id s ≡ some pred
        → pred.outcome ≡ some o
        → live_pwin pursuit_id (apply_dependency_blend fl pursuit_id predecessor_id s)
          ≡ some (if is_won o then add b (sub (dep_win fl pursuit_id b s) b) else b)
    unfolding blended_of
    live_pwin-blend_decided {pred} {o} is_pred decided =
        let d = dep_win fl pursuit_id b s in
        let f = dep_factor_decided predecessor_id s is_pred decided in
        let step : Num → Option Num = λ x. some (add b (mul (sub d b) x)) in
        live_pwin-blend
        ∙ ap step f
        ∙ ap some (decided_blend o (pwin_or zero (current_of predecessor_id base s)) b (sub d b))

    -- Where the current BASE row has a standalone Pwin not above the dependent-won one, and the
    -- factor is between 0 and 1, the blended Pwin lies between the standalone Pwin and the full
    -- step.
    pub live_pwin-blend_bounds :
        leq b (dep_win fl pursuit_id b s) ≡ true
        → leq zero (dep_factor fl predecessor_id s) ≡ true
        → leq (dep_factor fl predecessor_id s) one ≡ true
        → (v : Num) × (live_pwin pursuit_id (apply_dependency_blend fl pursuit_id predecessor_id s)
            ≡ some v)
          × (leq b v ≡ true)
          × (leq v (add b (sub (dep_win fl pursuit_id b s) b)) ≡ true)
    unfolding blended_of
    live_pwin-blend_bounds up f0 f1 =
        let d = dep_win fl pursuit_id b s in
        let f = dep_factor fl predecessor_id s in
        let x = sub d b in
        let nonneg = fl.sub_nonneg b d up in
        let low = fl.add_mono b (mul x zero) (mul x f) (fl.mul_mono x zero f nonneg f0) in
        let high = fl.add_mono b (mul x f) (mul x one) (fl.mul_mono x f one nonneg f1) in
        (
          add b (mul x f),
          live_pwin-blend,
          subst (λ z. leq z (add b (mul x f)) ≡ true) (fl.add-mul_zero b x) low,
          subst (λ z. leq (add b (mul x f)) (add b z) ≡ true) (fl.mul_one x) high,
        )
