-- ===== src/Staffing/Saved.antt =====
-- A rate that `put_escalation_rate` (api/app/routers/staffing.py) has saved is the one that the escalation of
-- its year uses.
use cpde_web.Prelude.{
  ℕ, ◌≡◌, refl, ◌∙◌, ap, true, false, none, some, [], ◌∷◌, ◌&&◌, leb, ◌==◌, ==_refl, ==_iff, nat_eq,
  arith, Bool-cases, inl, inr,
}
use cpde_web.Prelude.Num.{Float}
use cpde_web.Prelude.Dict.{get, put, get-put}
use cpde_web.Prelude.Monad.{ok}
use cpde_web.Escalation.{resolve_escalation_rate}
use cpde_web.Escalation.Nearest.{last_rate, resolve_own_rate}
use cpde_web.Staffing.Rates.{
  RateTable, is_accepted_rate, put_escalation_rate, client_escalation_rates,
}

module _ (fl : Float) where
  open fl use {Num}

  -- The primary key: a year has one row.
  abbrev pub HasOneRow : RateTable fl → Type 0
  HasOneRow [] = Unit
  HasOneRow (e ∷ d) = (get e.0 d ≡ none) × HasOneRow d

  last_rate-none :
      (year : ℕ) (d : RateTable fl)
      → get year d ≡ none
      → last_rate fl year (client_escalation_rates fl d) ≡ none
  unfolding last_rate client_escalation_rates
  last_rate-none year [] h = refl
  last_rate-none year ((y, v) ∷ d) h = rw (last_rate-none year d (ground arith)) (ground arith)

  last_rate-put :
      (year : ℕ) (v : Num × ℕ) (d : RateTable fl)
      → HasOneRow d
      → last_rate fl year (client_escalation_rates fl (put year v d)) ≡ some v.0
  unfolding last_rate client_escalation_rates
  last_rate-put year v [] u = rw (==_refl year) refl
  last_rate-put year v ((y, w) ∷ d) u = elim (Bool-cases (year == y)) [
    | inl same ↦
        let gone : get year d ≡ none = ap (λ k. get k d) ((==_iff year y).0 same) ∙ u.0 in
        rw (same, last_rate-none year d gone, ==_refl year) refl
    | inr other ↦ rw (other, last_rate-put year v d u.1) refl
  ]

  put-HasOneRow :
      (year : ℕ) (v : Num × ℕ) (d : RateTable fl) → HasOneRow d → HasOneRow (put year v d)
  put-HasOneRow year v [] u = (refl, tt)
  put-HasOneRow year v ((y, w) ∷ d) u = elim (Bool-cases (year == y)) [
    | inl same ↦ rw same (ap (λ k. get k d) ((==_iff year y).0 same) ∙ u.0, u.1)
    | inr other ↦ rw other (ground (arith, get-put year y v d, u.0), put-HasOneRow year v d u.1)
  ]

  -- Where the rates have one row for each year, an accepted rate for a year from 2000 to 2100 is
  -- answered as its column stores it, which is the rate that the escalation then uses for that
  -- year; the years still have one row each, and the row of no other year changes.
  pub put_escalation_rate-resolve :
      (column : Num → Num) (now year : ℕ) (rate : Num) (table : RateTable fl)
      → is_accepted_rate fl rate ≡ true
      → (leb 2000 year && leb year 2100) ≡ true
      → HasOneRow table
      → let saved = put_escalation_rate fl column now year rate table in
        (saved.0 ≡ ok (year, column rate, now))
        × (resolve_escalation_rate fl year (client_escalation_rates fl saved.1) ≡ column rate)
        × HasOneRow saved.1
        × ((other : ℕ) → (other == year) ≡ false → get other saved.1 ≡ get other table)
  unfolding put_escalation_rate
  put_escalation_rate-resolve column now year rate table accepted plausible one =
      let row : Num × ℕ = (column rate, now) in
      rw (accepted, plausible)
        (
          refl,
          resolve_own_rate fl year (client_escalation_rates fl (put year row table)) (column rate)
              (last_rate-put year row table one),
          put-HasOneRow year row table one,
          (λ other ne. ground (arith, get-put year other row table)),
        )
