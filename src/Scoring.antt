-- ===== src/Scoring.antt =====
-- The scoring tables that are fetched from the engine and cached: api/app/scoring.py, and the fee of
-- api/app/fee.py that is read from the same cache.
pub mod Tables
pub mod Refresh
pub mod Fee
mod Tests
use cpde_web.Prelude.{
  ℕ, zero, suc, String, Bool, true, false, Option, none, some, List, [], ◌∷◌, ◌==◌, ◌||◌, ◌&&◌,
  if◌then◌else◌, map, is_some, find?,
}
use mathlib.Core.List.{foldl}
use cpde_web.Prelude.Dict.{Dict, get, put}
use cpde_web.Prelude.Num.{Float}
use cpde_web.Prelude.Monad.{Result, ok, http_exception, text, Tx}
use cpde_web.Store.{ContractType, QuestionOption, Store}
use cpde_web.Prelude.Text.{Text, codes, lower, upper, strip, text_beq, text_eq}

-- `_normalize`'s keys
unfoldable pub key_of : Text → Text
key_of answer = lower (strip answer)

put_normal : {V : Type 0} → Dict Text V → Text × V → Dict Text V
put_normal d (k, v) = put (key_of k) v d

-- `{k.strip().lower(): v for k, v in table.items()}`: a later entry takes the place of an earlier one
-- with the same key.
unfoldable pub normalize : {V : Type 0} → Dict Text V → Dict Text V
unfolding put_normal
normalize table = foldl put_normal [] table

-- `needle in text`
abbrev is_prefix : Text → Text → Bool
is_prefix [] s = true
is_prefix (_ ∷ _) [] = false
is_prefix (x ∷ xs) (y ∷ ys) = x == y && is_prefix xs ys

unfoldable pub contains : Text → Text → Bool
contains needle [] = is_prefix needle []
contains needle (c ∷ s) = is_prefix needle (c ∷ s) || contains needle s

-- `_is_dev`
unfoldable pub is_dev : Text → Bool
unfolding contains
is_dev pursuit_type =
    let p = lower pursuit_type in
    contains (codes "dev") p || (contains (codes "existing") p || contains (codes "product") p)

-- A value, or a `ScoringTableError`.
pub data Scored (A : Type 0) : Type 0 where
  scored : A → Scored A
  table_error : Scored A

-- How a refresh ends: a failed fetch is a ScoringTableError, a missing key a KeyError.
pub data Refreshed : Type 0 where
  refreshed : Refreshed
  unfetched : Refreshed
  missing_key : Refreshed

unfoldable pub from_loaded : {A B : Type 0} → (A → B) → Option A → Scored B
from_loaded f none = table_error
from_loaded f (some a) = scored (f a)

module _ (fl : Float) where
  open fl use {Num, zero, add}

  pub record Row : Type 0 where
    pub tech : Num
    pub mgmt : Num
    pub pp : Num
    pub client_price : Num
    pub comp_price : Num

  abbrev pub zero_row : Row
  zero_row = record { tech = zero; mgmt = zero; pp = zero; client_price = zero; comp_price = zero }

  -- One entry of `tables`: a code with its answers, and under the code "tm5" a table for each branch,
  -- which the engine sends under no other code.
  pub data Table : Type 0 where
    flat : Dict Text Row → Table
    branched : Dict Text (Dict Text Row) → Table

  -- The response of GET /v1/scoring-tables, where a key may be missing; the questionnaire is passed
  -- through as it is.
  pub record Response (Q : Type 0) : Type 0 where
    pub tables : Option (Dict Text Table)
    pub base_score : Option Num
    pub fee_rates : Option (Dict Text Num)
    pub questionnaire : Option Q

  pub record Cache (Q : Type 0) : Type 0 where
    pub tables : Option (Dict Text Table)
    pub base_score : Option Num
    pub fee_rates : Option (Dict Text Num)
    pub questionnaire : Option Q
    pub last_fetched : ℕ

  pub normalize_table : Table → Table
  normalize_table (flat answers) = flat (normalize answers)
  normalize_table (branched branches) = branched (map (λ b. (b.0, normalize b.1)) branches)

  unfoldable pub normalize_tables : Dict Text Table → Dict Text Table
  unfolding normalize_table
  normalize_tables tables = map (λ t. (t.0, normalize_table t.1)) tables

  module _ {Q : Type 0} where
    -- `_normalize(data.get("fee_rates", {}))`
    abbrev pub rates_of : Response Q → Dict Text Num
    rates_of data_ = elim data_.fee_rates [ none ↦ [] | some rates ↦ normalize rates ]

    -- From `data["base_score"]` on.
    unfoldable pub fill_rest :
        (now : ℕ) → Response Q → (base_score : Option Num) → Cache Q → Refreshed × Cache Q
    fill_rest now data_ none cache = (missing_key, cache)
    fill_rest now data_ (some base_score) cache = (
      refreshed,
      record cache {
        base_score = some base_score;
        fee_rates = some (rates_of data_);
        questionnaire = data_.questionnaire;
        last_fetched = now;
      },
    )

    -- From `data["tables"]` on: the tables are assigned before the next key is read.
    unfoldable pub fill :
        (now : ℕ)
        → Response Q
        → (raw_tables : Option (Dict Text Table)) → Cache Q
        → Refreshed × Cache Q
    unfolding normalize_tables fill_rest
    fill now data_ none cache = (missing_key, cache)
    fill now data_ (some raw_tables) cache =
        fill_rest now data_ data_.base_score
          (record cache { tables = some (normalize_tables raw_tables) })

    -- `refresh`; `none` is a call of the engine that raised.
    unfoldable pub refresh : (now : ℕ) → Option (Response Q) → Cache Q → Refreshed × Cache Q
    unfolding fill
    refresh now none cache = (unfetched, cache)
    refresh now (some data_) cache = fill now data_ data_.tables cache

  -- `refresh_loop`: a round has no active client, or a fetch.
  pub data Round (Q : Type 0) : Type 0 where
    no_client : Round Q
    fetched : (now : ℕ) → Option (Response Q) → Round Q

  -- `_tables.get("tm5", {}).get(branch, {})` or `_tables.get(code, {})`
  unfoldable pub answers_of : (code : Text) → (dev : Bool) → Option Table → Dict Text Row
  answers_of code dev none = []
  answers_of code dev (some (flat answers)) = answers
  answers_of code dev (some (branched branches)) =
      elim (get (codes (if dev then "dev" else "service")) branches) [ none ↦ [] | some d ↦ d ]

  abbrev pub row_or_zero : Option Row → Row
  row_or_zero none = zero_row
  row_or_zero (some row) = row

  unfoldable pub lookup_in : (question_code answer pursuit_type : Text) → Dict Text Table → Row
  lookup_in question_code answer pursuit_type tables =
      let code = lower question_code in
      row_or_zero (get (key_of answer) (answers_of code (is_dev pursuit_type) (get code tables)))

  module _ {Q : Type 0} where
    unfoldable pub run_round : Round Q → Cache Q → Refreshed × Cache Q
    unfolding refresh
    run_round no_client cache = (refreshed, cache)
    run_round (fetched now answer) cache = refresh now answer cache

    -- Whether the loop still runs, and the cache. It goes on after a ScoringTableError, and no other
    -- exception is caught.
    unfoldable pub refresh_loop : List (Round Q) → Cache Q → Bool × Cache Q
    unfolding run_round
    refresh_loop [] cache = (true, cache)
    refresh_loop (r ∷ rounds) cache =
        let (end, cache') = run_round r cache in
        elim end [
          | refreshed ↦ refresh_loop rounds cache'
          | unfetched ↦ refresh_loop rounds cache'
          | missing_key ↦ (false, cache')
        ]

    unfoldable pub is_loaded : Cache Q → Bool
    is_loaded cache = is_some cache.tables

    unfoldable pub scored_question_codes : Cache Q → Scored (List Text)
    unfolding from_loaded
    scored_question_codes cache = from_loaded (map (λ t. upper t.0)) cache.tables

    unfoldable pub get_questionnaire : Cache Q → Scored Q
    unfolding from_loaded
    get_questionnaire cache = from_loaded (λ q. q) cache.questionnaire

    -- `none` is a label that the loaded table does not have.
    unfoldable pub fee_rate_for_label : Text → Cache Q → Scored (Option Num)
    unfolding from_loaded
    fee_rate_for_label label cache = from_loaded (get (key_of label)) cache.fee_rates

    unfoldable pub lookup : (question_code answer pursuit_type : Text) → Cache Q → Scored Row
    unfolding from_loaded lookup_in answers_of
    lookup question_code answer pursuit_type cache =
        from_loaded (lookup_in question_code answer pursuit_type) cache.tables

  abbrev add_row : Row → Row → Row
  add_row total d = record {
    tech = add total.tech d.tech;
    mgmt = add total.mgmt d.mgmt;
    pp = add total.pp d.pp;
    client_price = add total.client_price d.client_price;
    comp_price = add total.comp_price d.comp_price;
  }

  unfoldable pub accumulate : List Row → Row
  accumulate deltas = foldl add_row zero_row deltas

  unfoldable pub fee_from : Scored (Option Num) → Scored Row → Result Num
  fee_from table_error delta = http_exception 502 (text "Fee cannot be computed right now")
  fee_from (scored base_rate) table_error =
      http_exception 502 (text "Fee cannot be computed right now")
  fee_from (scored none) (scored delta) =
      http_exception 400 (text "Fee configuration is incomplete for this contract type")
  fee_from (scored (some rate)) (scored delta) = ok (add rate delta.client_price)

  -- The row of the pursuit's contract type, which is nullable, and that of the P1 option.
  abbrev pub contract_type_of : Option ℕ → Store Num → Option ContractType
  contract_type_of none s = none
  contract_type_of (some i) s = find? (λ ct. ct.id == i) s.contract_types

  abbrev pub question_option_of : ℕ → Store Num → Option QuestionOption
  question_option_of i s = find? (λ o. o.id == i) s.question_options

  module _ {Q : Type 0} where
    unfoldable pub fee_of_labels :
        Option ContractType → Option QuestionOption → Cache Q → Result Num
    fee_of_labels (some ct) (some o) cache =
        fee_from (fee_rate_for_label (codes ct.label) cache)
          (lookup (codes "p1") (codes o.label_text) [] cache)
    fee_of_labels _ _ cache =
        http_exception 400
          (text "Fee configuration is incomplete for this contract type or price option")

    unfoldable pub resolve_fee :
        Cache Q → (contract_type_id : Option ℕ) → (p1_option_id : ℕ) → Tx (Store Num) Num
    unfolding fee_of_labels fee_from
    resolve_fee cache contract_type_id p1_option_id s = (
      fee_of_labels (contract_type_of contract_type_id s) (question_option_of p1_option_id s) cache,
      s,
    )
