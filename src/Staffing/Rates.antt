-- ===== src/Staffing/Rates.antt =====
-- The client's own escalation rates: `put_escalation_rate`, `escalation_rates` and
-- `client_escalation_rates` of api/app/routers/staffing.py. The table has one row for a year.
use cpde_web.Prelude.{ℕ, Bool, Option, some, List, ◌&&◌, not, leb, map, nat_eq}
use cpde_web.Prelude.Num.{Float}
use cpde_web.Prelude.Dict.{Dict, put}
use cpde_web.Prelude.Monad.{Tx, text, pure, modify, raise_if, transaction, ◌>>◌}

module _ (fl : Float) where
  open fl use {Num, zero as nought, one, sub, div, of_nat, leq}

  -- Rows: the year, its rate, and when it was written.
  abbrev pub RateTable : Type 0
  RateTable = Dict ℕ (Num × ℕ)

  -- `-0.5 <= rate <= 0.5`
  unfoldable pub is_accepted_rate : Num → Bool
  is_accepted_rate rate =
      leq (sub nought (div one (of_nat 2))) rate && leq rate (div one (of_nat 2))

  -- `column` is the conversion of PostgreSQL to the type NUMERIC(9, 6) of the column `rate`, which
  -- rounds to six decimals; `RETURNING` gives the stored rate.
  unfoldable pub put_escalation_rate :
      (column : Num → Num) → (now calendar_year : ℕ) → Num → Tx RateTable (ℕ × Num × ℕ)
  unfolding is_accepted_rate
  put_escalation_rate column now calendar_year rate = transaction (do
    raise_if (not (is_accepted_rate rate)) 422 (text "rate must be between -0.5 and 0.5")
    raise_if (not (leb 2000 calendar_year && leb calendar_year 2100)) 400 (text "implausible year")
    modify (put calendar_year (column rate, now))
    pure (calendar_year, column rate, now))

  -- The rates that `apply_escalation_to_fte` gets.
  unfoldable pub client_escalation_rates : RateTable → List (ℕ × Option Num)
  client_escalation_rates table = map (λ e. (e.0, some e.1.0)) table
