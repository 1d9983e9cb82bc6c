-- ===== src/Bhptw/Tests.antt =====
-- The submissions on concrete requests.
use cpde_web.Prelude.{◌≡◌, refl, true, none, some}
use cpde_web.Prelude.Thousandths.{thousandths}
use cpde_web.Prelude.Monad.{is_ok}
use cpde_web.Prelude.Ensures.{Ensures}
use cpde_web.Prelude.Text.{lower, strip}
use cpde_web.Store.{base, dependent_won, black_hat, ptw}
use cpde_web.Scope.{uuid, scoped, user_has_scope, is_visible_from, parse_uuid}
use cpde_web.Scoring.{
  resolve_fee, fee_of_labels, fee_from, fee_rate_for_label, lookup, lookup_in, answers_of,
  from_loaded, key_of,
}
use cpde_web.Sample.{sample, sample_cache, sample-IsValid}
use cpde_web.Bhptw.{
  BlackHatIn, PtwIn, black_hat_body_ok, submit_black_hat, submit_ptw, load_pursuit, finish,
  submit_row, recompute_complete, ptw_body_ok,
}
use cpde_web.Bhptw.Submit.{IsSubmission, submit_black_hat-IsSubmission, submit_ptw-IsSubmission}

abbrev ptw_body : PtwIn thousandths
ptw_body = record {
  scenario = dependent_won;
  margin_rate = 100;
  bid_price = 5000;
  investment = none;
  completed_date = none;
  base_pwin = 700;
}

abbrev black_hat_body : BlackHatIn thousandths
black_hat_body = record {
  scenario = base;
  aggressiveness_option_code = "A";
  investment = some 3;
  completed_date = none;
  base_pwin = 700;
}

submit_ptw-IsSubmission_example :
    Ensures
      (λ _ t. IsSubmission thousandths ptw (uuid 2) dependent_won 700 7 sample t)
      (λ t. t ≡ sample)
      (submit_ptw thousandths (uuid 2) ptw_body 7 sample)
submit_ptw-IsSubmission_example =
    submit_ptw-IsSubmission thousandths (uuid 2) 7 sample sample-IsValid ptw_body

submit_black_hat-IsSubmission_example :
    Ensures
      (λ _ t. IsSubmission thousandths black_hat (uuid 2) base 700 7 sample t)
      (λ t. t ≡ sample)
      (submit_black_hat thousandths sample_cache (uuid 2) black_hat_body 7 sample)
submit_black_hat-IsSubmission_example =
    submit_black_hat-IsSubmission thousandths (uuid 2) 7 sample sample-IsValid sample_cache
      black_hat_body

accepted : is_ok (submit_ptw thousandths (uuid 2) ptw_body 7 sample).0 ≡ true
unfolding submit_ptw load_pursuit finish parse_uuid ptw_body_ok scoped user_has_scope
    is_visible_from recompute_complete submit_row
accepted = refl

accepted_black_hat :
    is_ok (submit_black_hat thousandths sample_cache (uuid 2) black_hat_body 7 sample).0 ≡ true
unfolding submit_black_hat load_pursuit finish parse_uuid black_hat_body_ok scoped user_has_scope
    is_visible_from recompute_complete submit_row resolve_fee fee_of_labels fee_from
    fee_rate_for_label lookup lookup_in answers_of from_loaded key_of lower strip
accepted_black_hat = refl
