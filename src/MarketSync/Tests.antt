-- ===== src/MarketSync/Tests.antt =====
-- A sync of two markets, one of which the engine no longer reports.
use cpde_web.Prelude.{◌≡◌, refl, Bool, true, false, List, [], ◌∷◌, ◌++◌, map, All}
use cpde_web.Prelude.Text.{Text, codes, upper, strip, strip_left}
use cpde_web.MarketSync.Code.{
  base_code, slug, strip_underscores, drop_underscores, generate_code, next_free, suffixed, digits,
  digits_from, is_used,
}
use cpde_web.MarketSync.Fresh.{generate_code-fresh}
use cpde_web.MarketSync.Apply.{
  Market, SyncStore, new_market, engine_names, sorted_names, by_name, sync_names, sync_name,
  sync_found, flag_all, flag_missing, apply_market_sync,
}
use cpde_web.MarketSync.Kept.{core, code_of, HasOneCode, apply_market_sync-kept}

abbrev used : List Text
used = codes "OCS_GENERAL" ∷ codes "OCS_GENERAL_2" ∷ []

third : generate_code (codes " OCS - General") used ≡ codes "OCS_GENERAL_3"
unfolding generate_code base_code slug strip_underscores drop_underscores next_free suffixed digits
    digits_from upper strip strip_left
third = refl

generate_code-fresh_example : is_used used (generate_code (codes " OCS - General") used) ≡ false
generate_code-fresh_example = generate_code-fresh (codes " OCS - General") used

abbrev before : SyncStore
before = record {
  markets =
      new_market 1 (codes "NAVY") (codes "Navy") ∷ new_market 2 (codes "ARMY") (codes "Army") ∷ [];
  runs = [];
  next_id = 3;
  now = 9;
}

abbrev names : List Text
names = codes "Navy " ∷ codes "Navy!" ∷ codes " " ∷ []

apply_market_sync-kept_example :
    let t = (apply_market_sync names before).1 in
    HasOneCode (map code_of t.markets)
    × ((new : List Market) × (map core t.markets ≡ map core before.markets ++ map core new)
        × All (λ (m : Market). m.is_active ≡ true) new)
apply_market_sync-kept_example = apply_market_sync-kept names before (refl, (refl, tt))

-- Army is flagged, and Navy! is new.
flags :
    map {B = Text × Bool}
      (λ m. (m.code, m.flagged_for_review))
      (apply_market_sync names before).1.markets
    ≡ (codes "NAVY", false) ∷ (codes "ARMY", true) ∷ (codes "NAVY_2", false) ∷ []
unfolding apply_market_sync engine_names sorted_names by_name sync_names sync_name sync_found
    flag_all flag_missing generate_code base_code slug strip_underscores drop_underscores next_free
    suffixed digits digits_from upper strip strip_left
flags = refl
