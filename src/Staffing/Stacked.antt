-- ===== src/Staffing/Stacked.antt =====
-- The phases of `compute_phase_dates` (api/app/routers/staffing.py) follow one another, and a cutoff only
-- shortens them.
use cpde_web.Prelude.{
  ℕ, ◌+◌, ◌-◌, ◌≤◌, ◌<◌, ◌≡◌, refl, ◌∙◌, ap, String, Option, none, some, List, [], ◌∷◌, arith, leb,
  ltb, Bool, ◌&&◌, min, map, Bool-cases, inl, inr, string_eq,
}
use cpde_web.Prelude.Dict.{Dict, get, put}
use cpde_web.Staffing.Phases.{
  Span, PhaseDates, backward_phases, en_phase, last_date, phase_days, minus_days, plus_days,
  cut_span, stack_phases, compute_phase_dates, apply_cutoff,
}

module _ (weeks : Dict String ℕ) where
  -- Each phase ends where the next one starts, the last one on the due date, from which the EN
  -- response runs.
  pub record IsStacked (due : ℕ) (dates : PhaseDates) : Type 0 where
    pub final_start : ℕ
    pub preprop_start : ℕ
    pub sol_start : ℕ
    pub strat_start : ℕ
    pub en_stop : ℕ
    pub final : get "FINAL" dates ≡ some (final_start, due)
    pub preprop : get "PREPROP" dates ≡ some (preprop_start, final_start)
    pub sol : get "SOL" dates ≡ some (sol_start, preprop_start)
    pub strat : get "STRAT" dates ≡ some (strat_start, sol_start)
    pub en : get en_phase dates ≡ some (due, en_stop)
    pub final_days : final_start + phase_days "FINAL" weeks ≡ due
    pub preprop_days : preprop_start + phase_days "PREPROP" weeks ≡ final_start
    pub sol_days : sol_start + phase_days "SOL" weeks ≡ preprop_start
    pub strat_days : strat_start + phase_days "STRAT" weeks ≡ sol_start
    pub en_days : due + phase_days en_phase weeks ≡ en_stop
    pub exists : 0 < strat_start

  -- The days of the phases before the due date.
  abbrev pub days_before : ℕ
  days_before =
      phase_days "FINAL" weeks
      + phase_days "PREPROP" weeks
      + phase_days "SOL" weeks
      + phase_days "STRAT" weeks

  stack_fits :
      (cursor : ℕ) (phase : String) (phases : List String) (out : PhaseDates)
      → phase_days phase weeks < cursor
      → stack_phases cursor (phase ∷ phases) weeks out
        ≡ stack_phases
            (cursor - phase_days phase weeks)
            phases
            weeks
            (put phase (cursor - phase_days phase weeks, cursor) out)
  unfolding stack_phases
  stack_fits cursor phase phases out h =
      let fits : minus_days cursor (phase_days phase weeks)
          ≡ some (cursor - phase_days phase weeks) =
        ground arith in
      ap
        (λ o. elim o [
          | none ↦ none
          | some start ↦ stack_phases start phases weeks (put phase (start, cursor) out)
        ])
        fits

  -- The phases, stacked.
  abbrev stacked_dates : ℕ → PhaseDates
  stacked_dates due =
      let final_start = due - phase_days "FINAL" weeks in
      let preprop_start = final_start - phase_days "PREPROP" weeks in
      let sol_start = preprop_start - phase_days "SOL" weeks in
      ("FINAL", (final_start, due))
      ∷ ("PREPROP", (preprop_start, final_start))
      ∷ ("SOL", (sol_start, preprop_start))
      ∷ ("STRAT", (sol_start - phase_days "STRAT" weeks, sol_start))
      ∷ (en_phase, (due, due + phase_days en_phase weeks))
      ∷ []

  -- Where the four phases before the due date take fewer days than its ordinal, and the EN
  -- response ends by the last date, the phase dates exist: each phase takes its days, ends where
  -- the next one starts, the final one on the due date, and the EN response runs from there.
  pub compute_phase_dates-IsStacked :
      (due : ℕ)
      → days_before < due
      → due + phase_days en_phase weeks ≤ last_date
      → (dates : PhaseDates) × (compute_phase_dates due weeks ≡ some dates) × IsStacked due dates
  unfolding compute_phase_dates stack_phases
  compute_phase_dates-IsStacked due early late =
      let f = phase_days "FINAL" weeks in
      let p = phase_days "PREPROP" weeks in
      let o = phase_days "SOL" weeks in
      let t = phase_days "STRAT" weeks in
      let e = phase_days en_phase weeks in
      let in_range : plus_days due e ≡ some (due + e) = ground arith in
      let s1 = due - f in
      let s2 = s1 - p in
      let s3 = s2 - o in
      let o1 : PhaseDates = ("FINAL", (s1, due)) ∷ [] in
      let o2 : PhaseDates = ("FINAL", (s1, due)) ∷ ("PREPROP", (s2, s1)) ∷ [] in
      let o3 : PhaseDates = ("FINAL", (s1, due)) ∷ ("PREPROP", (s2, s1)) ∷ ("SOL", (s3, s2)) ∷ [] in
      let o4 : PhaseDates =
        ("FINAL", (s1, due))
        ∷ ("PREPROP", (s2, s1))
        ∷ ("SOL", (s3, s2))
        ∷ ("STRAT", (s3 - t, s3))
        ∷ [] in
      let stacks : stack_phases due backward_phases weeks [] ≡ some o4 =
        stack_fits due "FINAL" ("PREPROP" ∷ "SOL" ∷ "STRAT" ∷ []) [] (omega arith)
        ∙ stack_fits s1 "PREPROP" ("SOL" ∷ "STRAT" ∷ []) o1 (omega arith)
        ∙ stack_fits s2 "SOL" ("STRAT" ∷ []) o2 (omega arith)
        ∙ stack_fits s3 "STRAT" [] o3 (omega arith) in
      let ends : PhaseDates → Option ℕ → Option PhaseDates =
        λ o r. elim r [ none ↦ none | some stop ↦ some (put en_phase (due, stop) o) ] in
      let computes : compute_phase_dates due weeks ≡ some (stacked_dates due) =
        ap (λ r. elim r [ none ↦ none | some o ↦ ends o (plus_days due e) ]) stacks
        ∙ ap (ends o4) in_range in
      (
        stacked_dates due,
        computes,
        record {
          final_start = s1;
          preprop_start = s2;
          sol_start = s3;
          strat_start = s3 - t;
          en_stop = due + e;
          final = refl;
          preprop = refl;
          sol = refl;
          strat = refl;
          en = refl;
          final_days = omega arith;
          preprop_days = omega arith;
          sol_days = omega arith;
          strat_days = omega arith;
          en_days = refl;
          exists = omega arith;
        },
      )

-- The days of an interval: from its start to the day before its end.
abbrev pub is_within : Span → (day : ℕ) → Bool
is_within span day = leb span.0 day && ltb day span.1

-- A cut interval starts where the old one does, runs forward, and has exactly the days of the old one
-- before the cutoff.
abbrev pub IsCut : ℕ → Span → Span → Type 0
IsCut cancel_date old new =
    (new.0 ≡ old.0)
    × (new.0 ≤ new.1)
    × ((day : ℕ) → is_within new day ≡ (is_within old day && ltb day cancel_date))

cut_span-IsCut :
    (cancel_date : ℕ) (span : Span) → IsCut cancel_date span (cut_span cancel_date span)
cut_span-IsCut cancel_date (start, stop) = elim (Bool-cases (leb (min stop cancel_date) start)) [
  | inl early ↦ rw early (refl, omega arith, (λ day. ground arith))
  | inr late ↦ rw late (refl, ground arith, (λ day. ground arith))
]

-- The cutoff by a cancellation date keeps the start of each phase and gives it the days that it
-- had before the cancellation, exactly; no phase then ends before it starts.
pub apply_cutoff-IsCut :
    (dates : PhaseDates) (cancel_date : ℕ) (phase : String) (old : Span)
    → get phase dates ≡ some old
    → (new : Span) × (get phase (apply_cutoff dates (some cancel_date)) ≡ some new)
      × IsCut cancel_date old new
unfolding apply_cutoff
apply_cutoff-IsCut dates cancel_date phase old h =
    (cut_span cancel_date old, get-cut dates h, cut_span-IsCut cancel_date old)
  where
    get-cut :
        (d : PhaseDates)
        → get phase d ≡ some old
        → get phase (map (λ e. (e.0, cut_span cancel_date e.1)) d) ≡ some (cut_span cancel_date old)
    get-cut [] e = cc
    get-cut ((k, v) ∷ d) e = ground (arith, get-cut d)
