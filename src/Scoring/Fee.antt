-- ===== src/Scoring/Fee.antt =====
-- The fee (api/app/fee.py) that is computed from a cache that a response has filled.
use cpde_web.Prelude.{ℕ, ◌≡◌, refl, ap, ◌∙◌, Option, none, some, []}
use cpde_web.Prelude.Num.{Float}
use cpde_web.Prelude.Dict.{Dict, get}
use cpde_web.Prelude.Monad.{Result, ok, http_exception, text}
use cpde_web.Prelude.Text.{Text, codes, lower, text_eq}
use cpde_web.Store.{ContractType, QuestionOption, Store}
use cpde_web.Scoring.{
  Row, Table, flat, Response, Cache, Scored, scored, key_of, from_loaded, fill, fill_rest, rates_of,
  refresh, normalize, fee_rate_for_label, lookup, fee_from, fee_of_labels, row_or_zero,
  contract_type_of, question_option_of, resolve_fee,
}
use cpde_web.Scoring.Tables.{last_match, get-normalize, lookup-refresh, dict_or_empty}

module _ (fl : Float) where
  open fl use {Num, add}

  -- The fee by the rate of the contract type, if the response has one, and the price row.
  abbrev pub fee_with : Option Num → Row fl → Result Num
  fee_with none delta =
      http_exception 400 (text "Fee configuration is incomplete for this contract type")
  fee_with (some rate) delta = ok (add rate delta.client_price)

module _ (fl : Float) {Q : Type 0} (now : ℕ) (r : Response fl Q) (old : Cache fl Q) where
  open fl use {Num}

  get-rates : (key : Text) → get key (rates_of fl r) ≡ last_match key (dict_or_empty r.fee_rates)
  unfolding normalize
  get-rates key = at r.fee_rates
    where
      at :
          (o : Option (Dict Text Num))
          → get key (elim o [ none ↦ [] | some rates ↦ normalize rates ])
            ≡ last_match key (dict_or_empty o)
      at none = get-normalize key []
      at (some rates) = get-normalize key rates

  -- The rates of a response that has its tables and its base score are assigned.
  rates-refresh :
      (tables : Dict Text (Table fl)) (base : Num)
      → r.tables ≡ some tables
      → r.base_score ≡ some base
      → (refresh fl now (some r) old).1.fee_rates ≡ some (rates_of fl r)
  unfolding refresh fill fill_rest
  rates-refresh tables base sent has = rw (sent, has) refl

  fee_from-rate :
      (rate : Option Num) (delta : Row fl)
      → fee_from fl (scored rate) (scored delta) ≡ fee_with fl rate delta
  unfolding fee_from
  fee_from-rate none delta = refl
  fee_from-rate (some rate) delta = refl

  -- After a fetch of a response with its base score and with tables, the P1 table flat, the fee
  -- for an existing contract type and price option is the response's last rate that reads as the
  -- label of the type, up to case and outer blanks, plus the client price of the last row of the
  -- P1 table that reads as the label of the option, zero if there is none; without such a rate it
  -- is the 400.
  pub resolve_fee-refresh :
      (contract_type_id : Option ℕ) (option_id : ℕ) (s : Store Num) (ct : ContractType)
      (o : QuestionOption) (tables : Dict Text (Table fl)) (answers : Dict Text (Row fl))
      (base : Num)
      → contract_type_of fl contract_type_id s ≡ some ct
      → question_option_of fl option_id s ≡ some o
      → r.tables ≡ some tables
      → r.base_score ≡ some base
      → get (codes "p1") tables ≡ some (flat answers)
      → resolve_fee fl (refresh fl now (some r) old).1 contract_type_id option_id s ≡ (
        fee_with fl
            (last_match (key_of (codes ct.label)) (dict_or_empty r.fee_rates))
            (row_or_zero fl (last_match (key_of (codes o.label_text)) answers)),
        s,
      )
  unfolding resolve_fee fee_of_labels fee_rate_for_label lower
  resolve_fee-refresh contract_type_id option_id s ct o tables answers base is_type is_option sent
        has p1 =
      let cache = (refresh fl now (some r) old).1 in
      let rate_key = key_of (codes ct.label) in
      let row = row_or_zero fl (last_match (key_of (codes o.label_text)) answers) in
      let looked : lookup fl (codes "p1") (codes o.label_text) [] cache ≡ scored row =
        lookup-refresh fl now r old (codes "p1") (codes o.label_text) [] tables answers sent p1 in
      let rated : fee_rate_for_label fl (codes ct.label) cache
          ≡ scored (last_match rate_key (dict_or_empty r.fee_rates)) =
        ap (from_loaded (get rate_key)) (rates-refresh tables base sent has)
        ∙ ap scored (get-rates rate_key) in
      let fee_for : Option ContractType → Option QuestionOption → Result Num =
        λ c p. fee_of_labels fl c p cache in
      let fee_at : Scored (Option Num) → Scored (Row fl) → Result Num = λ x y. fee_from fl x y in
      ap (λ (f : Result Num). (f, s))
        (ap (λ c. fee_for c (question_option_of fl option_id s)) is_type
          ∙ ap (fee_for (some ct)) is_option
          ∙ ap (λ x. fee_at x (lookup fl (codes "p1") (codes o.label_text) [] cache)) rated
          ∙ ap (fee_at (scored (last_match rate_key (dict_or_empty r.fee_rates)))) looked
          ∙ fee_from-rate (last_match rate_key (dict_or_empty r.fee_rates)) row)
