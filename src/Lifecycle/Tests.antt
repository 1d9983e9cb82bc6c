-- ===== src/Lifecycle/Tests.antt =====
-- The endpoints on concrete requests.
use cpde_web.Prelude.{◌≡◌, refl, true, some}
use cpde_web.Prelude.Monad.{is_ok}
use cpde_web.Prelude.Ensures.{Ensures}
use cpde_web.Store.{won}
use cpde_web.Scope.{uuid, scoped, user_has_scope, is_visible_from, parse_uuid}
use cpde_web.Sample.{sample, sample-IsHistory}
use cpde_web.Lifecycle.{OutcomeIn, set_bid, set_outcome, write_outcome, clear_withdrawn}
use cpde_web.Lifecycle.Bid.{set_bid_twice}
use cpde_web.Lifecycle.Recorded.{IsClosing, set_outcome-IsClosing}

abbrev won_body : OutcomeIn
won_body = record { outcome = some won; outcome_date = some 9; also_set_bid = true }

set_outcome-IsClosing_example :
    Ensures
      (λ _ t. IsClosing (uuid 2) won_body 7 sample t)
      (λ t. t ≡ sample)
      (set_outcome (uuid 2) won_body 7 sample)
set_outcome-IsClosing_example = set_outcome-IsClosing (uuid 2) won_body 7 sample sample-IsHistory

set_bid_twice_example :
    (set_bid (uuid 2) true 7 (record (set_bid (uuid 2) true 7 sample).1 { now = 9 })).1
    ≡ record (set_bid (uuid 2) true 7 sample).1 { now = 9 }
set_bid_twice_example = set_bid_twice (uuid 2) true 7 9 sample

accepted : is_ok (set_outcome (uuid 2) won_body 7 sample).0 ≡ true
unfolding set_outcome write_outcome clear_withdrawn parse_uuid scoped user_has_scope is_visible_from
accepted = refl
