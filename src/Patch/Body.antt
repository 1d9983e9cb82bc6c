-- ===== src/Patch/Body.antt =====
-- `PursuitPatch` of api/app/routers/write.py, its validators, and the merge of the sent fields with
-- the stored ones. Timestamps are microseconds, dates day numbers.
use cpde_web.Prelude.{
  ℕ, ◌-◌, String, Bool, true, false, Option, none, some, List, [], ◌∷◌, ◌&&◌, ◌||◌, is_some, leb,
  ltb, ◌==◌,
}
use cpde_web.Prelude.Num.{Float}
use cpde_web.Prelude.Text.{has_length}
use cpde_web.Store.{BidDecision}
use cpde_web.Scope.{IdText}

-- A field of the body: not sent, or sent with a value or an explicit null.
abbrev pub Sent : Type 0 → Type 0
Sent A = Option (Option A)

pub record PursuitPatch (N : Type 0) : Type 0 where
  pub expected_updated_at : Option ℕ
  pub name : Sent String
  pub external_opportunity_id : Sent String
  pub market_code : Sent String
  pub opportunity_type_code : Sent String
  pub contract_type_code : Sent String
  pub pipeline_stage_code : Sent String
  pub org_unit_code : Sent String
  pub owner_user_id : Sent IdText
  pub depends_on_opp_id : Sent String
  pub bid_decision : Sent BidDecision
  pub bidders : Sent ℕ
  pub is_sole_source : Sent Bool
  pub planned_total_award_value : Sent N
  pub planned_fee_rate : Sent N
  pub planned_investment : Sent N
  pub proposal_due_date : Sent ℕ
  pub contract_award_date : Sent ℕ
  pub period_end_date : Sent ℕ

module _ {A : Type 0} where
  -- A validator lets an absent field and a null pass.
  abbrev pub sent_ok : (A → Bool) → Sent A → Bool
  sent_ok p none = true
  sent_ok p (some none) = true
  sent_ok p (some (some v)) = p v

  abbrev pub is_null : Sent A → Bool
  is_null (some none) = true
  is_null _ = false

  abbrev pub is_value : Sent A → Bool
  is_value (some (some v)) = true
  is_value _ = false

  -- `{**stored, **fields}` at one column.
  abbrev pub merge : Sent A → Option A → Option A
  merge none old = old
  merge (some v) old = v

  -- At a column that is NOT NULL.
  abbrev pub merge_value : Sent A → A → A
  merge_value (some (some v)) old = v
  merge_value _ old = old

abbrev is_bidder_count : ℕ → Bool
is_bidder_count n = leb 1 n && leb n 6

module _ (fl : Float) where
  open fl use {Num, zero, one, leq}

  abbrev is_rate : Num → Bool
  is_rate v = leq zero v && leq v one

  -- The constraints of the fields; the type of a bid decision is its validator.
  unfoldable pub is_accepted_patch : PursuitPatch Num → Bool
  is_accepted_patch body =
      sent_ok (has_length 1 300) body.name
      && sent_ok (has_length 1 100) body.external_opportunity_id
      && sent_ok (has_length 0 50) body.market_code
      && sent_ok (has_length 0 50) body.opportunity_type_code
      && sent_ok (has_length 0 50) body.contract_type_code
      && sent_ok (has_length 0 50) body.pipeline_stage_code
      && sent_ok (has_length 0 50) body.org_unit_code
      && sent_ok (has_length 0 100) body.depends_on_opp_id
      && sent_ok is_bidder_count body.bidders
      && sent_ok (leq zero) body.planned_total_award_value
      && sent_ok is_rate body.planned_fee_rate
      && sent_ok (leq zero) body.planned_investment

module _ {N : Type 0} where
  -- `not (not fields and not refs and ...)`
  unfoldable pub writes_something : PursuitPatch N → Bool
  writes_something body =
      is_some body.name
      || is_some body.external_opportunity_id
      || is_some body.market_code
      || is_some body.opportunity_type_code
      || is_some body.contract_type_code
      || is_some body.pipeline_stage_code
      || is_some body.org_unit_code
      || is_some body.owner_user_id
      || is_some body.depends_on_opp_id
      || is_some body.bid_decision
      || is_some body.bidders
      || is_some body.is_sole_source
      || is_some body.planned_total_award_value
      || is_some body.planned_fee_rate
      || is_some body.planned_investment
      || is_some body.proposal_due_date
      || is_some body.contract_award_date
      || is_some body.period_end_date

-- `(bidders or 1) != 1`
abbrev pub is_one_bidder : Option ℕ → Bool
is_one_bidder none = true
is_one_bidder (some n) = n == 0 || n == 1

-- `merged["is_sole_source"]`; a null is falsy.
abbrev pub merged_flag : Sent Bool → Bool → Bool
merged_flag none old = old
merged_flag (some none) old = false
merged_flag (some (some v)) old = v

-- `present == sorted(present)`
unfoldable pub present_dates : List (Option ℕ) → List ℕ
present_dates [] = []
present_dates (none ∷ ds) = present_dates ds
present_dates (some d ∷ ds) = d ∷ present_dates ds

unfoldable pub is_sorted_from : ℕ → List ℕ → Bool
is_sorted_from d [] = true
is_sorted_from d (e ∷ ds) = leb d e && is_sorted_from e ds

unfoldable pub is_sorted : List ℕ → Bool
unfolding is_sorted_from
is_sorted [] = true
is_sorted (d ∷ ds) = is_sorted_from d ds

unfoldable pub dates_in_order : (bp_start proposal_due award period_end : Option ℕ) → Bool
unfolding present_dates is_sorted
dates_in_order bp_start proposal_due award period_end =
    is_sorted (present_dates (bp_start ∷ proposal_due ∷ award ∷ period_end ∷ []))

-- `abs((updated_at - expected).total_seconds()) > 0.001`
unfoldable pub is_stale : (expected : Option ℕ) → (updated_at : ℕ) → Bool
is_stale none updated_at = false
is_stale (some expected) updated_at =
    ltb 1000 (updated_at - expected) || ltb 1000 (expected - updated_at)
