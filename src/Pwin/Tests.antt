-- ===== src/Pwin/Tests.antt =====
-- The blend and the clearing on the sample.
use cpde_web.Prelude.{ℕ, ◌≡◌, refl, true, none, some, [], ◌∷◌, keep, arith}
use cpde_web.Prelude.Thousandths.{thousandths}
use cpde_web.Store.{Store, base, lost, Pursuit, current_of}
use cpde_web.Sample.{sample, sample_pursuit, sample_row, sample-IsValid}
use cpde_web.Pwin.{
  apply_dependency_blend, auto_clear_dependents_of_outcome, dep_win, dep_factor, depends_on,
}
use cpde_web.Pwin.Blend.{live_pwin, live_pwin-blend_decided, live_pwin-blend_bounds}
use cpde_web.Pwin.Kept.{current_of-blend_twice}
use cpde_web.Pwin.Clear.{cleared_view, is_dependent, current_of-auto_clear, dependents-auto_clear}

abbrev lost_pursuit : Pursuit ℕ
lost_pursuit = record (sample_pursuit 1 none none) { outcome = some lost }

abbrev after_loss : Store ℕ
after_loss = record sample { pursuits = lost_pursuit ∷ sample_pursuit 2 (some 1) none ∷ [] }

live_pwin-blend_decided_example :
    live_pwin thousandths 2 (apply_dependency_blend thousandths 2 1 after_loss) ≡ some 200
live_pwin-blend_decided_example =
    live_pwin-blend_decided thousandths 2 1 after_loss {row = sample_row 11 2 200} {b = 200} refl
      refl {pred = lost_pursuit} {o = lost} refl refl

dep_win_2 : dep_win thousandths 2 200 sample ≡ 200
unfolding dep_win
dep_win_2 = refl

dep_factor_1 : dep_factor thousandths 1 sample ≡ 400
unfolding dep_factor
dep_factor_1 = refl

live_pwin-blend_bounds_example :
    (v : ℕ) × (live_pwin thousandths 2 (apply_dependency_blend thousandths 2 1 sample) ≡ some v)
    × (thousandths.leq 200 v ≡ true)
    × (thousandths.leq v
          (thousandths.add 200 (thousandths.sub (dep_win thousandths 2 200 sample) 200))
        ≡ true)
live_pwin-blend_bounds_example =
    live_pwin-blend_bounds thousandths 2 1 sample {row = sample_row 11 2 200} {b = 200} refl refl
      (rw dep_win_2 refl) (rw dep_factor_1 refl) (rw dep_factor_1 refl)

current_of-blend_twice_example :
    current_of 2 base
      (apply_dependency_blend thousandths 2 1 (apply_dependency_blend thousandths 2 1 sample))
    ≡ current_of 2 base (apply_dependency_blend thousandths 2 1 sample)
current_of-blend_twice_example =
    current_of-blend_twice thousandths 2 1 sample sample-IsValid.one_id (λ e. omega arith)

current_of-auto_clear_example :
    current_of 2 base (auto_clear_dependents_of_outcome 1 7 sample).1
    ≡ cleared_view (is_dependent 1 2 sample) base (current_of 2 base sample)
current_of-auto_clear_example = current_of-auto_clear 1 7 sample 2 base

dependents-auto_clear_example :
    keep (depends_on 1) (auto_clear_dependents_of_outcome 1 7 sample).1.pursuits ≡ []
dependents-auto_clear_example = dependents-auto_clear 1 7 sample
