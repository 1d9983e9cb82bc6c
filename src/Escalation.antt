-- ===== src/Escalation.antt =====
-- The escalation of salaries: api/app/staffing_escalation.py. A client's own rates come as rows
-- of a year and a nullable rate.
pub mod Nearest
mod Tests
use mathlib.Core.List.{foldl}
use cpde_web.Prelude.{
  ℕ, zero, suc, ◌+◌, ◌-◌, Bool, true, false, Option, none, some, List, [], ◌∷◌, leb, ltb,
  if◌then◌else◌, nat_eq,
}
use cpde_web.Prelude.Dict.{Dict, get, put}
use cpde_web.Prelude.Num.{Float}

module _ (fl : Float) where
  open fl use {Num, zero as nought, one, add, mul, div, of_nat, leq}

  abbrev pub Rates : Type 0
  Rates = Dict ℕ Num

  abbrev rate : ℕ → Num
  rate n = div (of_nat n) (of_nat 10000)

  -- `GENERIC_ESCALATION_RATES`
  abbrev pub generic_escalation_rates : Rates
  generic_escalation_rates =
      (2026, rate 283)
      ∷ (2027, rate 540)
      ∷ (2028, rate 265)
      ∷ (2029, rate 196)
      ∷ (2030, rate 193)
      ∷ (2031, rate 203)
      ∷ []

  put_rate : Rates → ℕ × Option Num → Rates
  put_rate rates (year, none) = rates
  put_rate rates (year, some r) = put year r rates

  unfoldable pub merged : List (ℕ × Option Num) → Rates
  unfolding put_rate
  merged client_rates = foldl put_rate generic_escalation_rates client_rates

  later : ℕ × Num → Option (ℕ × Num) → ℕ × Num
  later e none = e
  later e (some d) = if ltb e.0 d.0 then d else e

  earlier : ℕ × Num → Option (ℕ × Num) → ℕ × Num
  earlier e none = e
  earlier e (some d) = if ltb d.0 e.0 then d else e

  -- The entry of the last year up to the given one.
  latest_before : ℕ → Rates → Option (ℕ × Num)
  latest_before year [] = none
  latest_before year (e ∷ rates) =
      let rest = latest_before year rates in if leb e.0 year then some (later e rest) else rest

  earliest : Rates → Option (ℕ × Num)
  earliest [] = none
  earliest (e ∷ rates) = some (earlier e (earliest rates))

  rate_of : Option (ℕ × Num) → Option (ℕ × Num) → Num
  rate_of (some e) fallback = e.1
  rate_of none (some e) = e.1
  rate_of none none = nought

  -- The lookup in the merged rates, which are never empty.
  unfoldable pub rate_in : ℕ → Rates → Num
  unfolding latest_before earliest later earlier rate_of
  rate_in year rates = elim (get year rates) [
    | some r ↦ r
    | none ↦ rate_of (latest_before year rates) (earliest rates)
  ]

  unfoldable pub resolve_escalation_rate : (year : ℕ) → List (ℕ × Option Num) → Num
  unfolding rate_in merged
  resolve_escalation_rate year client_rates = rate_in year (merged client_rates)

  -- `for yr in range(year, year + n)`
  unfoldable pub compound : (n year : ℕ) → List (ℕ × Option Num) → Num → Num
  compound zero year client_rates factor = factor
  compound (suc n) year client_rates factor =
      compound n (suc year) client_rates
        (mul factor (add one (resolve_escalation_rate year client_rates)))

  unfoldable pub compute_cumulative_escalation_factor :
      (target_year : ℕ) → List (ℕ × Option Num) → (base_year : ℕ) → Num
  unfolding compound
  compute_cumulative_escalation_factor target_year client_rates base_year =
      if leb target_year base_year
      then one
      else compound (target_year - base_year) base_year client_rates one

  unfoldable pub apply_escalation_to_fte :
      Num → (target_year : ℕ) → List (ℕ × Option Num) → (base_year : ℕ) → Num
  unfolding compute_cumulative_escalation_factor
  apply_escalation_to_fte base_fte target_year client_rates base_year =
      let factor = compute_cumulative_escalation_factor target_year client_rates base_year in
      if leq factor nought then base_fte else div base_fte factor
