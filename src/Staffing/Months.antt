-- ===== src/Staffing/Months.antt =====
-- Demand by month: `monthly_contributions` of api/app/routers/staffing.py. A month is its number (Calendar);
-- the code's key is its year and month as a text. Python has no month after December 9999, where it raises.
use mathlib.Core.List.{foldl}
use cpde_web.Prelude.{
  ℕ, zero, suc, ◌-◌, String, Bool, Option, none, some, List, [], ◌∷◌, ◌&&◌, map, ltb, min, max,
  string_eq, nat_eq, if◌then◌else◌,
}
use cpde_web.Prelude.Dict.{Dict, get, put}
use cpde_web.Prelude.Num.{Float}
use cpde_web.Escalation.{apply_escalation_to_fte}
use cpde_web.Staffing.Calendar.{year_of, month_start, month_of}
use cpde_web.Staffing.Phases.{Span, PhaseDates}

-- The days of a month in an interval.
unfoldable pub overlap : (month : ℕ) → Span → ℕ
overlap month (start, stop) = min stop (month_start (suc month)) - max start (month_start month)

-- The loop over the months from one on, with the days of each that has some.
unfoldable pub overlaps : (fuel month : ℕ) → Span → List (ℕ × ℕ)
unfolding overlap
overlaps zero month span = []
overlaps (suc fuel) month span =
    let rest = overlaps fuel (suc month) span in
    if ltb (month_start month) span.1
    then (if ltb 0 (overlap month span) then (month, overlap month span) ∷ rest else rest)
    else []

-- From the month of the start. Each round moves on by a day at least.
unfoldable pub span_overlaps : Span → List (ℕ × ℕ)
unfolding overlaps
span_overlaps span = overlaps span.1 (month_of span.0) span

module _ (fl : Float) where
  open fl use {Num, zero as nought, add, mul, div, of_nat, leq}

  abbrev pub Demand : Type 0
  Demand = Dict ℕ Num

  abbrev or_nought : Option Num → Num
  or_nought none = nought
  or_nought (some v) = v

  -- `out[month] += v`
  abbrev pub add_month : Demand → ℕ → Num → Demand
  add_month out month v = put month (add (or_nought (get month out)) v) out

  -- `not fte`
  abbrev is_nought : Num → Bool
  is_nought v = leq v nought && leq nought v

  abbrev pub share : Num → Span → ℕ → Num
  share fte span days = div (mul fte (of_nat days)) (of_nat (span.1 - span.0))

  unfoldable pub add_span : Num → Span → Demand → Demand
  unfolding span_overlaps
  add_span fte span out =
      if ltb span.0 span.1
      then foldl (λ o e. add_month o e.0 (share fte span e.1)) out (span_overlaps span)
      else out

  unfoldable pub add_phase : PhaseDates → Demand → String × Num → Demand
  unfolding add_span
  add_phase phase_dates out (phase, fte) =
      if is_nought fte
      then out
      else elim (get phase phase_dates) [ none ↦ out | some span ↦ add_span fte span out ]

  -- `ESCALATION_BASE_YEAR`
  abbrev pub escalation_base_year : ℕ
  escalation_base_year = 2026

  unfoldable pub monthly_contributions :
      Dict String Num
      → PhaseDates
      → (is_static : Bool) → (client_rates : List (ℕ × Option Num)) → Demand
  unfolding add_phase
  monthly_contributions fte_by_phase phase_dates is_static client_rates =
      let out = foldl (add_phase phase_dates) [] fte_by_phase in
      if is_static
      then out
      else map
          (λ e.
            (e.0, apply_escalation_to_fte fl e.1 (year_of e.0) client_rates escalation_base_year))
          out
