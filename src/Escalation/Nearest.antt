-- ===== src/Escalation/Nearest.antt =====
-- Which rate of api/app/staffing_escalation.py is used, and how the factor grows from year to year.
use cpde_web.Prelude.{
  ℕ, zero, suc, ◌+◌, ◌-◌, ◌≤◌, ◌≡◌, refl, sym, ap, ◌∙◌, inl, inr, false, Option, none, some, List,
  [], ◌∷◌, leb, if◌then◌else◌, nat_eq, ◌==◌, arith, Bool-cases,
}
use mathlib.Core.List.{foldl}
use cpde_web.Prelude.Dict.{get, put, get-put}
use cpde_web.Prelude.Num.{Float}
use cpde_web.Escalation.{
  Rates, generic_escalation_rates, merged, put_rate, latest_before, earliest, rate_of, rate_in,
  resolve_escalation_rate, compound, compute_cumulative_escalation_factor,
}

module _ (fl : Float) where
  open fl use {Num, one, add, mul}

  compound-last :
      (n year : ℕ) (rows : List (ℕ × Option Num)) (f : Num)
      → compound fl (suc n) year rows f
        ≡ mul (compound fl n year rows f) (add one (resolve_escalation_rate fl (n + year) rows))
  unfolding compound
  compound-last zero year rows f =
      ap (λ y. mul f (add one (resolve_escalation_rate fl y rows))) (omega arith)
  compound-last (suc n) year rows f =
      compound-last n (suc year) rows (mul f (add one (resolve_escalation_rate fl year rows)))
      ∙ ap
          (λ y.
            mul
              (compound fl n (suc year) rows
                (mul f (add one (resolve_escalation_rate fl year rows))))
              (add one (resolve_escalation_rate fl y rows)))
          (omega arith)

  -- From a base year not after the target year, the cumulative factor of the next year is that of
  -- the target year times one plus the rate of the target year.
  pub cumulative_step :
      (target base : ℕ) (rows : List (ℕ × Option Num))
      → base ≤ target
      → compute_cumulative_escalation_factor fl (suc target) rows base
        ≡ mul
            (compute_cumulative_escalation_factor fl target rows base)
            (add one (resolve_escalation_rate fl target rows))
  unfolding compute_cumulative_escalation_factor compound
  cumulative_step target base rows le =
      let n = target - base in
      let gap : suc target - base ≡ suc n = omega arith in
      let back : n + base ≡ target = omega arith in
      let late : leb (suc target) base ≡ false = ground arith in
      let whole : compute_cumulative_escalation_factor fl (suc target) rows base
          ≡ compound fl (suc n) base rows one =
        rw late (ap (λ k. compound fl k base rows one) gap) in
      let part : compute_cumulative_escalation_factor fl target rows base
          ≡ compound fl n base rows one =
        elim (Bool-cases (leb target base)) [
          | inl e ↦
              let none_between : 0 ≡ n = ground arith in
              rw e (ap (λ k. compound fl k base rows one) none_between)
          | inr e ↦ rw e refl
        ] in
      whole
      ∙ compound-last n base rows one
      ∙ ap (λ y. mul (compound fl n base rows one) (add one (resolve_escalation_rate fl y rows)))
          back
      ∙ ap (λ x. mul x (add one (resolve_escalation_rate fl target rows))) (sym part)

  -- The last rate that the client's rows give for a year.
  unfoldable pub last_rate : ℕ → List (ℕ × Option Num) → Option Num
  last_rate year [] = none
  last_rate year ((y, r) ∷ rows) =
      let rest = last_rate year rows in
      elim rest [ none ↦ if year == y then r else none | some w ↦ some w ]

  abbrev or_else : Option Num → Option Num → Option Num
  or_else none d = d
  or_else (some w) d = some w

  get-fold_rate :
      (year : ℕ) (rows : List (ℕ × Option Num)) (rates : Rates fl)
      → get year (foldl (put_rate fl) rates rows) ≡ or_else (last_rate year rows) (get year rates)
  unfolding last_rate put_rate
  get-fold_rate year [] rates = refl
  get-fold_rate year ((y, none) ∷ rows) rates = get-fold_rate year rows rates ∙ ground arith
  get-fold_rate year ((y, some r) ∷ rows) rates =
      get-fold_rate year rows (put y r rates) ∙ ground (arith, get-put y year r rates)

  rate_in-own :
      (year : ℕ) (rates : Rates fl) (r : Num) → get year rates ≡ some r → rate_in fl year rates ≡ r
  unfolding rate_in
  rate_in-own year rates r e =
      ap
        (λ o. elim o [
          | some x ↦ x
          | none ↦ rate_of fl (latest_before fl year rates) (earliest fl rates)
        ])
        e

  -- Where the rows of the client give a rate for a year, the last such rate is the one that is
  -- used for the year.
  pub resolve_own_rate :
      (year : ℕ) (rows : List (ℕ × Option Num)) (r : Num)
      → last_rate year rows ≡ some r
      → resolve_escalation_rate fl year rows ≡ r
  unfolding resolve_escalation_rate merged
  resolve_own_rate year rows r e = rate_in-own year (merged fl rows) r (
      get-fold_rate year rows (generic_escalation_rates fl)
      ∙ ap (λ o. or_else o (get year (generic_escalation_rates fl))) e)
