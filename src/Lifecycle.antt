-- ===== src/Lifecycle.antt =====
-- The bid toggle and the outcome of a pursuit: `set_bid` and `set_outcome` of
-- api/app/routers/write.py, for a caller whose role has been checked.
pub mod Bid
pub mod Closing
pub mod Recorded
mod Tests
use cpde_web.Prelude.{
  ℕ, String, Bool, true, false, Option, none, some, List, [], ◌==◌, ◌&&◌, ◌||◌, not, if◌then◌else◌,
  find?, is_some, update_where,
}
use cpde_web.Prelude.Monad.{
  Tx, ok, http_exception, text, bid_required, pure, raise_if, gets, or_raise, modify, transaction,
  ◌>>=◌, ◌>>◌,
}
use cpde_web.Store.{
  Outcome, won, lost, cancelled, no_bid, BidDecision, bid, undecided, Pursuit, Store,
}
use cpde_web.Scope.{IdText, parse_uuid, scoped, scoped_pursuit}
use cpde_web.Pwin.{Cleared, auto_clear_dependents_of_outcome}

-- Not `IS DISTINCT FROM`.
abbrev same_decision : (a b : Option BidDecision) → Bool
same_decision none none = true
same_decision (some bid) (some bid) = true
same_decision (some no_bid) (some no_bid) = true
same_decision (some undecided) (some undecided) = true
same_decision _ _ = false

abbrev pub decision_of : (body : Bool) → BidDecision
decision_of true = bid
decision_of false = no_bid

abbrev decision_text : Option BidDecision → String
decision_text (some bid) = "BID"
decision_text (some no_bid) = "NO_BID"
decision_text (some undecided) = "UNDECIDED"
decision_text none = "null"

-- `outcome in ("WON", "LOST")`
abbrev pub is_decided : Option Outcome → Bool
is_decided (some won) = true
is_decided (some lost) = true
is_decided _ = false

-- `outcome in ("CANCELLED", "NO_BID")`
abbrev pub is_withdrawn : Option Outcome → Bool
is_withdrawn (some cancelled) = true
is_withdrawn (some no_bid) = true
is_withdrawn _ = false

abbrev same_outcome : Option Outcome → Option Outcome → Bool
same_outcome none none = true
same_outcome (some won) (some won) = true
same_outcome (some lost) (some lost) = true
same_outcome (some cancelled) (some cancelled) = true
same_outcome (some no_bid) (some no_bid) = true
same_outcome _ _ = false

-- `_oc`, the validator of the body.
abbrev pub is_accepted_outcome : Option Outcome → Bool
is_accepted_outcome (some no_bid) = false
is_accepted_outcome _ = true

pub record OutcomeIn : Type 0 where
  pub outcome : Option Outcome
  pub outcome_date : Option ℕ
  pub also_set_bid : Bool

abbrev or_date : Option ℕ → Option ℕ → Option ℕ
or_date (some d) e = some d
or_date none e = e

pub record Closed (N : Type 0) : Type 0 where
  pub row : Pursuit N
  pub reopened : Bool
  pub dependents_cleared : List Cleared

module _ {N : Type 0} where
  -- The WHERE of the bid update.
  abbrev pub takes_bid : (i user_id : ℕ) → BidDecision → Store N → Pursuit N → Bool
  takes_bid i user_id decision s p =
      (p.id == i && scoped user_id s p)
      && (not (is_some p.outcome) && not (same_decision p.bid_decision (some decision)))

  abbrev pub set_decision : (user_id now : ℕ) → BidDecision → Pursuit N → Pursuit N
  set_decision user_id now decision p = record p {
    bid_decision = some decision;
    updated_at = now;
    updated_by = some user_id;
  }

  -- `RETURNING`, or where nothing was updated the reason why.
  pub update_bid : (i user_id : ℕ) → BidDecision → Option (Pursuit N) → Tx (Store N) (Pursuit N)
  update_bid i user_id decision (some p) s = (
    ok (set_decision user_id s.now decision p),
    record s {
      pursuits =
          update_where (takes_bid i user_id decision s) (set_decision user_id s.now decision)
            s.pursuits;
    },
  )
  update_bid i user_id decision none s =
      (do
        row ← or_raise (scoped_pursuit i user_id s) 404 (text "pursuit not found")
        raise_if (is_some row.outcome) 409 (text "pursuit is closed")
        pure row)
        s

  unfoldable pub set_bid : IdText → (body : Bool) → (user_id : ℕ) → Tx (Store N) (Pursuit N)
  unfolding update_bid
  set_bid pursuit_text body user_id = transaction (do
    i ← parse_uuid pursuit_text
    λ s.
        update_bid i user_id (decision_of body)
          (find? (takes_bid i user_id (decision_of body) s) s.pursuits) s)

  abbrev pub set_closed :
      (body : OutcomeIn) → (row : Pursuit N) → (user_id now : ℕ) → Pursuit N → Pursuit N
  set_closed body row user_id now p = record p {
    outcome = body.outcome;
    outcome_date =
        if is_some body.outcome then or_date body.outcome_date row.contract_award_date else none;
    bid_decision =
        if is_decided body.outcome && body.also_set_bid then some bid else p.bid_decision;
    updated_at = now;
    updated_by = some user_id;
  }

  -- The WHERE that names the pursuit, if the user sees it.
  abbrev pub names : (i user_id : ℕ) → Store N → Pursuit N → Bool
  names i user_id s p = p.id == i && scoped user_id s p

  unfoldable pub write_outcome : (i user_id : ℕ) → OutcomeIn → Pursuit N → Store N → Store N
  write_outcome i user_id body row s = record s {
    pursuits = update_where (names i user_id s) (set_closed body row user_id s.now) s.pursuits;
  }

  -- The dependents lose their dependency on the way into CANCELLED or NO_BID only.
  unfoldable pub clear_withdrawn :
      (i user_id : ℕ) → (before after : Option Outcome) → Store N → List Cleared × Store N
  clear_withdrawn i user_id before after s =
      if is_withdrawn after && not (same_outcome before after)
      then auto_clear_dependents_of_outcome i user_id s
      else ([], s)

  unfoldable pub set_outcome : IdText → OutcomeIn → (user_id : ℕ) → Tx (Store N) (Closed N)
  unfolding write_outcome clear_withdrawn
  set_outcome pursuit_text body user_id = transaction (do
    raise_if (not (is_accepted_outcome body.outcome)) 422
        (text "outcome must be WON, LOST, CANCELLED or null")
    i ← parse_uuid pursuit_text
    row ← λ s. or_raise (scoped_pursuit i user_id s) 404 (text "pursuit not found") s
    raise_if
        (is_decided body.outcome
          && (not (same_decision row.bid_decision (some bid)) && not body.also_set_bid))
        409 (bid_required (decision_text row.bid_decision))
    modify (write_outcome i user_id body row)
    updated ← λ s. or_raise (scoped_pursuit i user_id s) 500 (text "Internal Server Error") s
    cleared ← λ s. (
      ok (clear_withdrawn i user_id row.outcome body.outcome s).0,
      (clear_withdrawn i user_id row.outcome body.outcome s).1,
    )
    pure (record {
      row = updated;
      reopened = not (is_some body.outcome);
      dependents_cleared = cleared;
    }))
