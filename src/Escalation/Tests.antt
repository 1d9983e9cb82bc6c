-- ===== src/Escalation/Tests.antt =====
-- Escalation with one rate of a client's own.
use cpde_web.Prelude.{ℕ, ◌≡◌, refl, Option, some, none, List, [], ◌∷◌, arith}
use cpde_web.Prelude.Thousandths.{thousandths}
use cpde_web.Escalation.{
  resolve_escalation_rate, compute_cumulative_escalation_factor, rate_in, merged, put_rate,
  latest_before, earliest, later, earlier, rate_of,
}
use cpde_web.Escalation.Nearest.{last_rate, cumulative_step}

abbrev rows : List (ℕ × Option ℕ)
rows = (2027, some 100) ∷ (2028, none) ∷ []

cumulative_step_example :
    compute_cumulative_escalation_factor thousandths 2028 rows 2026
    ≡ thousandths.mul
        (compute_cumulative_escalation_factor thousandths 2027 rows 2026)
        (thousandths.add 1000 (resolve_escalation_rate thousandths 2027 rows))
cumulative_step_example = cumulative_step thousandths 2027 2026 rows (omega arith)

own : last_rate thousandths 2027 rows ≡ some 100
unfolding last_rate
own = refl

flat_hold : resolve_escalation_rate thousandths 2040 rows ≡ 20
unfolding resolve_escalation_rate rate_in merged put_rate latest_before earliest later earlier
    rate_of
flat_hold = refl
