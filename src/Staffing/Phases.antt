-- ===== src/Staffing/Phases.antt =====
-- The intervals of the phases: `compute_phase_dates` and `apply_cutoff` of api/app/routers/staffing.py. Weeks
-- are hundredths, as the database holds them. A date before year 1 or after year 9999 does not exist: then
-- Python raises an OverflowError, here `none`.
use cpde_web.Prelude.{
  ℕ, ◌+◌, ◌-◌, ◌*◌, ◌/◌, ◌%◌, String, Option, none, some, List, [], ◌∷◌, map, leb, ltb, min,
  string_eq, if◌then◌else◌,
}
use cpde_web.Prelude.Dict.{Dict, get, put}

-- A start and an exclusive end.
abbrev pub Span : Type 0
Span = ℕ × ℕ

abbrev pub PhaseDates : Type 0
PhaseDates = Dict String Span

-- `BACKWARD_PHASES` and `EN_PHASE`
abbrev pub backward_phases : List String
backward_phases = "FINAL" ∷ "PREPROP" ∷ "SOL" ∷ "STRAT" ∷ []

abbrev pub en_phase : String
en_phase = "EN"

abbrev weeks_or_zero : Option ℕ → ℕ
weeks_or_zero none = 0
weeks_or_zero (some w) = w

-- `round(weeks * 7)`: to the nearest day, and a half to the even one.
unfoldable pub round_days : (weeks : ℕ) → ℕ
round_days weeks =
    let days = weeks * 7 / 100 in
    let rest = weeks * 7 % 100 in
    if ltb rest 50 then days else if ltb 50 rest then days + 1 else days + days % 2

abbrev pub phase_days : String → Dict String ℕ → ℕ
phase_days phase weeks = round_days (weeks_or_zero (get phase weeks))

-- `end - timedelta(days)` and `start + timedelta(days)`
abbrev pub minus_days : ℕ → ℕ → Option ℕ
minus_days date days = if ltb days date then some (date - days) else none

abbrev pub last_date : ℕ
last_date = 3652059

abbrev pub plus_days : ℕ → ℕ → Option ℕ
plus_days date days = if leb (date + days) last_date then some (date + days) else none

-- The loop, with the cursor.
unfoldable pub stack_phases :
    (cursor : ℕ) → List String → Dict String ℕ → PhaseDates → Option PhaseDates
stack_phases cursor [] weeks out = some out
stack_phases cursor (phase ∷ phases) weeks out = elim (minus_days cursor (phase_days phase weeks)) [
  | none ↦ none
  | some start ↦ stack_phases start phases weeks (put phase (start, cursor) out)
]

unfoldable pub compute_phase_dates : (proposal_due : ℕ) → Dict String ℕ → Option PhaseDates
unfolding stack_phases round_days
compute_phase_dates proposal_due weeks = elim (stack_phases proposal_due backward_phases weeks []) [
  | none ↦ none
  | some out ↦ elim (plus_days proposal_due (phase_days en_phase weeks)) [
    | none ↦ none
    | some stop ↦ some (put en_phase (proposal_due, stop) out)
  ]
]

abbrev pub cut_span : (cancel_date : ℕ) → Span → Span
cut_span cancel_date (start, stop) =
    let eff = min stop cancel_date in if leb eff start then (start, start) else (start, eff)

unfoldable pub apply_cutoff : PhaseDates → (cancel_date : Option ℕ) → PhaseDates
apply_cutoff phase_dates none = phase_dates
apply_cutoff phase_dates (some cancel_date) = map (λ e. (e.0, cut_span cancel_date e.1)) phase_dates
