-- ===== src/Staffing/Tests.antt =====
-- Phases of a pursuit that is due on day 70 of year 1, and the tables of rates.
use cpde_web.Prelude.{
  ℕ, ◌-◌, ◌≡◌, refl, String, true, false, some, ◌==◌, nat_eq, [], ◌∷◌, All, arith, string_eq,
}
use cpde_web.Prelude.Thousandths.{thousandths}
use cpde_web.Prelude.Dict.{Dict, get}
use cpde_web.Prelude.Monad.{ok}
use cpde_web.Escalation.{resolve_escalation_rate}
use cpde_web.Staffing.Calendar.{month_start, month_of, month_from, month_length}
use cpde_web.Staffing.Phases.{
  PhaseDates, compute_phase_dates, stack_phases, round_days, apply_cutoff,
}
use cpde_web.Staffing.Months.{
  span_overlaps, overlaps, overlap, monthly_contributions, add_phase, add_span,
}
use cpde_web.Staffing.Rates.{
  RateTable, is_accepted_rate, put_escalation_rate, client_escalation_rates,
}
use cpde_web.Staffing.Exact.{sum_days, IsShare, span_overlaps-sum}
use cpde_web.Staffing.Stacked.{IsStacked, IsCut, compute_phase_dates-IsStacked, apply_cutoff-IsCut}
use cpde_web.Staffing.Saved.{HasOneRow, put_escalation_rate-resolve}

-- Two weeks, half a week, and a week and a half.
abbrev weeks : Dict String ℕ
weeks = ("FINAL", 200) ∷ ("SOL", 50) ∷ ("EN", 150) ∷ []

abbrev dates : PhaseDates
dates =
    ("FINAL", (56, 70))
    ∷ ("PREPROP", (56, 56))
    ∷ ("SOL", (52, 56))
    ∷ ("STRAT", (52, 52))
    ∷ ("EN", (70, 80))
    ∷ []

computed : compute_phase_dates 70 weeks ≡ some dates
unfolding compute_phase_dates stack_phases round_days
computed = refl

compute_phase_dates-IsStacked_example :
    (out : PhaseDates) × (compute_phase_dates 70 weeks ≡ some out) × IsStacked weeks 70 out
unfolding round_days
compute_phase_dates-IsStacked_example =
    compute_phase_dates-IsStacked weeks 70 (omega arith) (omega arith)

apply_cutoff-IsCut_example :
    (new : ℕ × ℕ) × (get "FINAL" (apply_cutoff dates (some 60)) ≡ some new) × IsCut 60 (56, 70) new
apply_cutoff-IsCut_example = apply_cutoff-IsCut dates 60 "FINAL" (56, 70) refl

-- February and March of year 1.
months : span_overlaps (56, 70) ≡ (1, 4) ∷ (2, 10) ∷ []
unfolding span_overlaps overlaps overlap month_of month_from month_start month_length
months = refl

span_overlaps-sum_example :
    (sum_days (span_overlaps (56, 70)) ≡ 70 - 56) × All IsShare (span_overlaps (56, 70))
span_overlaps-sum_example = span_overlaps-sum 56 70 (omega arith) (omega arith)

demand :
    monthly_contributions thousandths (("FINAL", 7000) ∷ ("SOL", 1000) ∷ []) dates true []
    ≡ (1, 3000) ∷ (2, 5000) ∷ []
unfolding monthly_contributions add_phase add_span span_overlaps overlaps overlap month_of
    month_from month_start month_length
demand = refl

abbrev table : RateTable thousandths
table = (2027, (30, 1)) ∷ []

accepted : is_accepted_rate thousandths 40 ≡ true
unfolding is_accepted_rate
accepted = refl

-- A rate in thousandths has no more than six decimals.
abbrev exact_column : ℕ → ℕ
exact_column rate = rate

put_escalation_rate-resolve_example :
    let saved = put_escalation_rate thousandths exact_column 5 2028 40 table in
    (saved.0 ≡ ok (2028, 40, 5))
    × (resolve_escalation_rate thousandths 2028 (client_escalation_rates thousandths saved.1) ≡ 40)
    × HasOneRow thousandths saved.1
    × ((other : ℕ) → (other == 2028) ≡ false → get other saved.1 ≡ get other table)
put_escalation_rate-resolve_example =
    put_escalation_rate-resolve thousandths exact_column 5 2028 40 table accepted refl (refl, tt)
