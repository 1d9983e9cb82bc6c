-- ===== src/Recalc/Tests.antt =====
-- Recalculations of the sample's second pursuit by an engine that answers 600.
use cpde_web.Prelude.{ℕ, ◌≡◌, refl, true, [], ◌∷◌}
use cpde_web.Prelude.Thousandths.{thousandths}
use cpde_web.Prelude.Monad.{is_ok}
use cpde_web.Prelude.Ensures.{Ensures}
use cpde_web.Prelude.Text.{lower, upper, strip}
use cpde_web.Store.{base, Pursuit}
use cpde_web.Scope.{uuid, scoped, user_has_scope, is_visible_from, parse_uuid}
use cpde_web.Scoring.{
  resolve_fee, fee_of_labels, fee_from, fee_rate_for_label, lookup, lookup_in, answers_of,
  from_loaded, key_of, scored_question_codes, accumulate,
}
use cpde_web.Dependency.{latest_questionnaire}
use cpde_web.Sample.{sample, sample_cache, sample-IsValid}
use cpde_web.Questionnaire.{by_code, answers_of_row, given_of, p1_option_id, option_with_label}
use cpde_web.Recalc.{
  Payload, EngineAnswer, solved, total_of, deltas, inputs, prepare, run, run_result,
  recalculate_pwin, recalculate, recalculate_preview, labels_ok,
}
use cpde_web.Recalc.Recorded.{
  IsRecalculation, recalculate-IsRecalculation, recalculate_preview_reads,
}

abbrev engine : Pursuit ℕ → Payload thousandths → EngineAnswer thousandths
engine pu payload = solved 600 "solved"

recalculate-IsRecalculation_example :
    Ensures
      (IsRecalculation thousandths sample_cache engine (uuid 2) base 7 sample)
      (λ t. t ≡ sample)
      (recalculate thousandths sample_cache engine (uuid 2) base 7 sample)
recalculate-IsRecalculation_example =
    recalculate-IsRecalculation thousandths sample_cache engine (uuid 2) 7 sample base
      sample-IsValid

recalculate_preview_reads_example :
    (recalculate_preview thousandths sample_cache engine (uuid 2) (("P1", "Low") ∷ []) 7 sample).1
    ≡ sample
recalculate_preview_reads_example =
    recalculate_preview_reads thousandths sample_cache engine (uuid 2) 7 sample (("P1", "Low") ∷ [])

answered : is_ok (recalculate thousandths sample_cache engine (uuid 2) base 7 sample).0 ≡ true
unfolding recalculate recalculate_pwin run run_result prepare inputs by_code answers_of_row given_of
    p1_option_id option_with_label total_of deltas scored_question_codes accumulate resolve_fee
    fee_of_labels fee_from fee_rate_for_label lookup lookup_in answers_of from_loaded key_of lower
    upper strip scoped user_has_scope is_visible_from parse_uuid latest_questionnaire
answered = refl

previewed :
    is_ok
      (recalculate_preview thousandths sample_cache engine (uuid 2) (("P1", "Low") ∷ []) 7 sample).0
    ≡ true
unfolding recalculate_preview labels_ok recalculate_pwin run run_result prepare inputs by_code
    answers_of_row given_of p1_option_id option_with_label total_of deltas scored_question_codes
    accumulate resolve_fee fee_of_labels fee_from fee_rate_for_label lookup lookup_in answers_of
    from_loaded key_of lower upper strip scoped user_has_scope is_visible_from parse_uuid
    latest_questionnaire
previewed = refl
