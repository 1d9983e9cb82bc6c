-- ===== src/Requests/Tests.antt =====
-- A bid on the second pursuit of the sample, which is then won.
use cpde_web.Prelude.{true, false, none, some, [], ◌∷◌, List}
use cpde_web.Prelude.Thousandths.{thousandths}
use cpde_web.Store.{won}
use cpde_web.Scope.{uuid}
use cpde_web.Recalc.{unreachable}
use cpde_web.Sample.{sample, sample-IsValid, sample-IsHistory}
use cpde_web.Requests.{Service, sets_bid, sets_outcome, Call, serve_all}
use cpde_web.Requests.Sound.{IsSound, serve_all-IsSound}

abbrev service : Service thousandths
service = record {
  cache = record {
    tables = some [];
    base_score = some 500;
    fee_rates = none;
    questionnaire = none;
    last_fetched = 4;
  };
  engine = λ pursuit payload. unreachable;
  references = record {
    markets = [];
    opportunity_types = [];
    contract_types = [];
    pipeline_stages = [];
  };
  questions = [];
  roles = [];
  order = λ rows. rows;
}

abbrev calls : List (Call thousandths)
calls =
    (record { service = service; request = sets_bid (uuid 2) true; user_id = 7; at = 6 })
    ∷ (record {
      service = service;
      request =
          sets_outcome (uuid 2)
            (record { outcome = some won; outcome_date = none; also_set_bid = false });
      user_id = 7;
      at = 7;
    })
    ∷ []

serve_all-IsSound_example : IsSound (serve_all thousandths calls sample)
serve_all-IsSound_example =
    serve_all-IsSound thousandths calls sample (sample-IsValid, sample-IsHistory)
