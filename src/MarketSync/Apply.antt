-- ===== src/MarketSync/Apply.antt =====
-- `apply_market_sync` and `sync_client_markets` of api/app/market_sync.py on the tables of one client.
use cpde_web.Prelude.{
  ℕ, suc, String, Bool, true, false, Option, none, some, List, [], ◌∷◌, ◌++◌, ◌==◌, ◌&&◌, ◌||◌, not,
  any, keep, ltb, map, update_where, if◌then◌else◌,
}
use cpde_web.Prelude.Dict.{Dict, get, put}
use cpde_web.Prelude.Text.{Text, text_beq, text_eq, strip}
use cpde_web.MarketSync.Code.{generate_code}

pub record Market : Type 0 where
  pub id : ℕ
  pub code : Text
  pub name : Text
  pub is_active : Bool
  pub flagged_for_review : Bool
  pub flagged_at : Option ℕ
  pub flagged_reason : Option String

-- The last three are the names of a run that succeeded.
pub data SyncRun : Type 0 where
  failed : (finished_at : ℕ) → (error_message : Text) → SyncRun
  succeeded : (finished_at : ℕ) → (created flagged unflagged : List Text) → SyncRun

pub record SyncStore : Type 0 where
  pub markets : List Market
  pub runs : List SyncRun
  pub next_id : ℕ
  pub now : ℕ

pub record SyncResult : Type 0 where
  pub created : List Text
  pub flagged : List Text
  pub unflagged : List Text

-- Python's order on texts.
text_ltb : Text → Text → Bool
text_ltb [] [] = false
text_ltb [] (_ ∷ _) = true
text_ltb (_ ∷ _) [] = false
text_ltb (x ∷ xs) (y ∷ ys) = ltb x y || (x == y && text_ltb xs ys)

-- A set as its sorted list.
insert_name : Text → List Text → List Text
unfolding text_ltb
insert_name n [] = n ∷ []
insert_name n (m ∷ names) =
    let rest = insert_name n names in
    if text_beq n m then m ∷ names else if text_ltb n m then n ∷ m ∷ names else m ∷ rest

unfoldable pub sorted_names : List Text → List Text
unfolding insert_name
sorted_names [] = []
sorted_names (n ∷ names) = insert_name n (sorted_names names)

abbrev is_blank_text : Text → Bool
is_blank_text [] = true
is_blank_text (_ ∷ _) = false

-- `sorted({n.strip() for n in names if n and n.strip()})`
unfoldable pub engine_names : List Text → List Text
engine_names names = sorted_names (keep (λ n. not (is_blank_text n)) (map strip names))

-- `{m["name"]: m for m in local}`
unfoldable pub by_name : Dict Text Market → List Market → Dict Text Market
by_name d [] = d
by_name d (m ∷ ms) = by_name (put m.name m d) ms

abbrev pub unflag : Market → Market
unflag m = record m { flagged_for_review = false; flagged_at = none; flagged_reason = none }

abbrev pub flag : (now : ℕ) → Market → Market
flag now m = record m {
  flagged_for_review = true;
  flagged_at = some now;
  flagged_reason = some "not present in latest engine sync";
}

abbrev pub new_market : (id : ℕ) → (code name : Text) → Market
new_market id code name = record {
  id = id;
  code = code;
  name = name;
  is_active = true;
  flagged_for_review = false;
  flagged_at = none;
  flagged_reason = none;
}

-- The local variables of the loops.
pub record Progress : Type 0 where
  pub store : SyncStore
  pub existing_codes : List Text
  pub result : SyncResult

abbrev pub with_markets : List Market → SyncStore → SyncStore
with_markets ms s = record s { markets = ms }

-- The body of the first loop, by the local market of the name.
unfoldable pub sync_found : Option Market → Text → Progress → Progress
sync_found (some m) name p =
    if m.flagged_for_review
    then record p {
      store = with_markets (update_where (λ x. x.id == m.id) unflag p.store.markets) p.store;
      result = record p.result { unflagged = p.result.unflagged ++ name ∷ [] };
    }
    else p
sync_found none name p =
    let code = generate_code name p.existing_codes in
    record p {
      store = record p.store {
        markets = p.store.markets ++ new_market p.store.next_id code name ∷ [];
        next_id = suc p.store.next_id;
      };
      existing_codes = code ∷ p.existing_codes;
      result = record p.result { created = p.result.created ++ name ∷ [] };
    }

unfoldable pub sync_name : Dict Text Market → Text → Progress → Progress
unfolding sync_found
sync_name local_by_name name p = sync_found (get name local_by_name) name p

unfoldable pub sync_names : Dict Text Market → List Text → Progress → Progress
unfolding sync_name
sync_names local_by_name [] p = p
sync_names local_by_name (name ∷ names) p =
    sync_names local_by_name names (sync_name local_by_name name p)

-- The body of the second loop.
unfoldable pub flag_missing : (names : List Text) → Text × Market → Progress → Progress
flag_missing names (name, m) p =
    if not (any (text_beq name) names) && not m.flagged_for_review
    then record p {
      store =
          with_markets (update_where (λ x. x.id == m.id) (flag p.store.now) p.store.markets)
            p.store;
      result = record p.result { flagged = p.result.flagged ++ name ∷ [] };
    }
    else p

unfoldable pub flag_all : (names : List Text) → Dict Text Market → Progress → Progress
unfolding flag_missing
flag_all names [] p = p
flag_all names (e ∷ d) p = flag_all names d (flag_missing names e p)

abbrev pub start : SyncStore → Progress
start s = record {
  store = s;
  existing_codes = map (λ m. m.code) s.markets;
  result = record { created = []; flagged = []; unflagged = [] };
}

abbrev sorted_result : SyncResult → SyncResult
sorted_result r = record {
  created = sorted_names r.created;
  flagged = sorted_names r.flagged;
  unflagged = sorted_names r.unflagged;
}

unfoldable pub apply_market_sync :
    (engine_market_names : List Text) → SyncStore → SyncResult × SyncStore
unfolding engine_names by_name sync_names flag_all
apply_market_sync engine_market_names s =
    let names = engine_names engine_market_names in
    let local_by_name = by_name [] s.markets in
    let p = flag_all names local_by_name (sync_names local_by_name names (start s)) in
    (sorted_result p.result, p.store)

-- What the fetch of the names came to.
pub data Fetch : Type 0 where
  fetched : List Text → Fetch
  unfetched : (error : Text) → Fetch

abbrev pub log_run : SyncRun → SyncStore → SyncStore
log_run run s = record s { runs = s.runs ++ run ∷ [] }

-- Nothing but the run is written where the fetch failed.
unfoldable pub sync_client_markets : Fetch → SyncStore → SyncRun × SyncStore
unfolding apply_market_sync
sync_client_markets (unfetched error) s = (failed s.now error, log_run (failed s.now error) s)
sync_client_markets (fetched names) s =
    let (r, s') = apply_market_sync names s in
    let run = succeeded s.now r.created r.flagged r.unflagged in (run, log_run run s')
