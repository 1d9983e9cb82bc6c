-- ===== src/Staffing/Exact.antt =====
-- The loop over the months (`monthly_contributions` of api/app/routers/staffing.py) ends, and gives each day
-- of a phase to one month.
use cpde_web.Prelude.{
  ℕ, zero, suc, ◌+◌, ◌-◌, ◌≤◌, ◌<◌, ◌≡◌, refl, ◌∙◌, List, [], ◌∷◌, All, arith, ltb, min, max,
  Bool-cases, inl, inr,
}
use cpde_web.Staffing.Calendar.{
  month_start, month_of, month_of-contains, month_start_step, month_start_skip,
}
use cpde_web.Staffing.Phases.{Span}
use cpde_web.Staffing.Months.{overlap, overlaps, span_overlaps}

abbrev pub sum_days : List (ℕ × ℕ) → ℕ
sum_days [] = 0
sum_days (e ∷ l) = e.1 + sum_days l

split_days :
    (s e a b : ℕ) → s ≤ e → a < e → a < b → (min e b - max s a) + (e - max s b) ≡ e - max s a
split_days s e a b h1 h2 h3 = ground arith

overlaps-sum :
    (fuel k j s e : ℕ)
    → s ≤ e
    → j ≡ fuel + k
    → e ≤ month_start j
    → sum_days (overlaps fuel k (s, e)) ≡ e - max s (month_start k)
unfolding overlaps overlap
overlaps-sum zero k j s e h eq end = let same : k ≡ j = omega arith in rw same (ground arith)
overlaps-sum (suc fuel) k j s e h eq end =
    let rest = overlaps-sum fuel (suc k) j s e h (omega arith) end in
    elim (Bool-cases (ltb (month_start k) e)) [
      | inl on ↦
          let split =
            split_days s e (month_start k) (month_start (suc k)) h (ground arith)
              (month_start_step k) in
          elim (Bool-cases (ltb 0 (overlap k (s, e)))) [
            | inl some_days ↦ rw (on, some_days) (omega (arith, rest, split))
            | inr no_days ↦
                let empty : min e (month_start (suc k)) - max s (month_start k) ≡ 0 =
                  ground arith in
                rw (on, no_days) (omega (arith, rest, split, empty))
          ]
      | inr off ↦ rw off (ground arith)
    ]

-- A month that is listed has days of the phase, and no more than it has days.
abbrev pub IsShare : ℕ × ℕ → Type 0
IsShare m = (0 < m.1) × (m.1 ≤ month_start (suc m.0) - month_start m.0)

overlaps-IsShare : (fuel k : ℕ) (span : Span) → All IsShare (overlaps fuel k span)
unfolding overlaps overlap
overlaps-IsShare zero k span = tt
overlaps-IsShare (suc fuel) k (s, e) =
    let rest = overlaps-IsShare fuel (suc k) (s, e) in
    elim (Bool-cases (ltb (month_start k) e)) [
      | inl on ↦ elim (Bool-cases (ltb 0 (overlap k (s, e)))) [
        | inl some_days ↦ rw (on, some_days) ((ground arith, ground arith), rest)
        | inr no_days ↦ rw (on, no_days) rest
      ]
      | inr off ↦ rw off tt
    ]

-- For a phase that does not end before it starts, the loop over its months ends, lists only months
-- with days of the phase, none with more days than it has, and the days that it lists are together
-- those of the phase; the months go on after December 9999, where the code raises.
pub span_overlaps-sum :
    (s e : ℕ)
    → 1 ≤ s
    → s ≤ e
    → (sum_days (span_overlaps (s, e)) ≡ e - s) × All IsShare (span_overlaps (s, e))
unfolding span_overlaps
span_overlaps-sum s e h1 h2 =
    let k = month_of s in
    let inside = month_of-contains s h1 in
    (
      overlaps-sum e k (e + k) s e h2 refl (omega (arith, month_start_skip e k (e + k) refl))
          ∙ ground (arith, inside.0),
      overlaps-IsShare e k (s, e),
    )
