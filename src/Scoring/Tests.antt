-- ===== src/Scoring/Tests.antt =====
-- Scoring, the cache and fees on a small table.
use cpde_web.Prelude.{ℕ, ◌≡◌, refl, true, none, some, [], ◌∷◌, List}
use cpde_web.Prelude.Dict.{Dict}
use cpde_web.Prelude.Text.{Text, text_eq, codes, lower}
use cpde_web.Prelude.Thousandths.{thousandths}
use cpde_web.Store.{ContractType, QuestionOption}
use cpde_web.Sample.{sample, price_row}
use cpde_web.Scoring.{
  Row, Table, flat, branched, Response, Cache, Round, fetched, scored, key_of, is_dev, contains,
  refresh, refresh_loop, lookup, row_or_zero, resolve_fee,
}
use cpde_web.Scoring.Tables.{last_match, dict_or_empty, lookup-refresh}
use cpde_web.Scoring.Refresh.{
  first_broken, before, ended, last_good, filled_or, refresh_loop-last_good,
}
use cpde_web.Scoring.Fee.{fee_with, resolve_fee-refresh}

abbrev answers : Dict Text (Row thousandths)
answers = (codes " Yes", price_row) ∷ []

abbrev branches : Dict Text (Dict Text (Row thousandths))
branches = (codes "dev", answers) ∷ (codes "service", []) ∷ []

abbrev prices : Dict Text (Row thousandths)
prices = (codes "low", price_row) ∷ []

abbrev sent_tables : Dict Text (Table thousandths)
sent_tables =
    (codes "tm1a", flat answers) ∷ (codes "tm5", branched branches) ∷ (codes "p1", flat prices) ∷ []

abbrev response : Response thousandths ℕ
response = record {
  tables = some sent_tables;
  base_score = some 500;
  fee_rates = some ((codes "FFP", 80) ∷ []);
  questionnaire = some 2;
}

-- A response without a base score.
abbrev partial_response : Response thousandths ℕ
partial_response = record response { tables = some []; base_score = none }

abbrev empty : Cache thousandths ℕ
empty = record {
  tables = none;
  base_score = none;
  fee_rates = none;
  questionnaire = none;
  last_fetched = 0;
}

lookup-refresh_example :
    lookup thousandths
      (codes "TM1A")
      (codes "YES ")
      []
      (refresh thousandths 3 (some response) empty).1
    ≡ scored (row_or_zero thousandths (last_match (key_of (codes "YES ")) answers))
unfolding lower
lookup-refresh_example =
    lookup-refresh thousandths 3 response empty (codes "TM1A") (codes "YES ") [] sent_tables answers
      refl refl

development : is_dev (codes "Dev") ≡ true
unfolding is_dev contains lower
development = refl

abbrev rounds : List (Round thousandths ℕ)
rounds =
    fetched 2 (some response)
    ∷ fetched 3 none
    ∷ fetched 4 (some partial_response)
    ∷ fetched 5 (some response)
    ∷ []

refresh_loop-last_good_example :
    refresh_loop thousandths rounds empty
    ≡ ended thousandths
        (first_broken thousandths rounds)
        (filled_or thousandths empty (last_good thousandths (before thousandths rounds)))
refresh_loop-last_good_example = refresh_loop-last_good thousandths rounds empty

abbrev ffp : ContractType
ffp = record { id = 3; code = "FFP"; label = "FFP" }

abbrev low_price : QuestionOption
low_price = record { id = 4; question = "P1"; code = "A"; label_text = "Low"; is_active = true }

resolve_fee-refresh_example :
    resolve_fee thousandths (refresh thousandths 3 (some response) empty).1 (some 3) 4 sample ≡ (
      fee_with thousandths
          (last_match (key_of (codes ffp.label)) (dict_or_empty response.fee_rates))
          (row_or_zero thousandths (last_match (key_of (codes low_price.label_text)) prices)),
      sample,
    )
resolve_fee-refresh_example =
    resolve_fee-refresh thousandths 3 response empty (some 3) 4 sample ffp low_price sent_tables
      prices 500 refl refl refl refl refl
