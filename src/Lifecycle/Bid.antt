-- ===== src/Lifecycle/Bid.antt =====
-- What the bid toggle (set_bid of api/app/routers/write.py) leaves behind.
use mathlib.Core.Path.{subst, fun_ext}
use cpde_web.Prelude.{
  ℕ, ◌≡◌, refl, sym, ap, ◌∙◌, ◌⊎◌, Bool, true, false, Option, none, some, arith, find?,
  Option-cases, ◌==◌, ◌&&◌, not, update_where, inl, inr, is_some,
}
use cpde_web.Prelude.Monad.{
  Result, ok, http_exception, text, or_raise, raise_if, pure, transaction, ◌>>=◌, ◌>>◌,
}
use cpde_web.Store.{BidDecision, bid, no_bid, undecided, Pursuit, Store}
use cpde_web.Store.Rows.{find?-update_where_out}
use cpde_web.Scope.{IdText, blank, malformed, uuid, parse_uuid, scoped_pursuit}
use cpde_web.Scope.Visible.{scoped_at}
use cpde_web.Lifecycle.{same_decision, decision_of, takes_bid, set_decision, update_bid, set_bid}

same_decision_refl : (d : BidDecision) → same_decision (some d) (some d) ≡ true
same_decision_refl bid = refl
same_decision_refl no_bid = refl
same_decision_refl undecided = refl

module _ {N : Type 0} where
  -- The store after the update.
  abbrev pub bid_store : (i user_id : ℕ) → BidDecision → Store N → Store N
  bid_store i user_id decision s = record s {
    pursuits =
        update_where (takes_bid i user_id decision s) (set_decision user_id s.now decision)
          s.pursuits;
  }

  transaction_state :
      {A : Type 0} (r : Result A × Store N) (s : Store N) → r.1 ≡ s → (transaction (λ _. r) s).1 ≡ s
  transaction_state (ok a, t) s e = e
  transaction_state (http_exception code detail, t) s e = refl

  update_bid-none-state :
      (i user_id : ℕ) (decision : BidDecision) (s : Store N)
      → (update_bid i user_id decision none s).1 ≡ s
  unfolding update_bid
  update_bid-none-state i user_id decision s = found (scoped_pursuit i user_id s)
    where
      open_row :
          (r : Pursuit N) (c : Bool)
          → ((raise_if c 409 (text "pursuit is closed") >> pure r) s).1 ≡ s
      open_row r true = refl
      open_row r false = refl

      found :
          (o : Option (Pursuit N))
          → ((or_raise o 404 (text "pursuit not found") >>= λ row.
                raise_if (is_some row.outcome) 409 (text "pursuit is closed") >> pure row)
              s).1
            ≡ s
      found none = refl
      found (some r) = open_row r (is_some r.outcome)

  -- What the request leaves behind, by the row that the update finds.
  abbrev pub after_update : (i user_id : ℕ) → BidDecision → Option (Pursuit N) → Store N → Store N
  after_update i user_id decision o s = (transaction (update_bid i user_id decision o) s).1

  after_none :
      (i user_id : ℕ) (decision : BidDecision) (s : Store N)
      → after_update i user_id decision none s ≡ s
  after_none i user_id decision s =
      transaction_state (update_bid i user_id decision none s) s
        (update_bid-none-state i user_id decision s)

  pub after-cases :
      (i user_id : ℕ) (decision : BidDecision) (s : Store N) (o : Option (Pursuit N))
      → (after_update i user_id decision o s ≡ s)
        ⊎ (after_update i user_id decision o s ≡ bid_store i user_id decision s)
  unfolding update_bid
  after-cases i user_id decision s none = inl (after_none i user_id decision s)
  after-cases i user_id decision s (some p) = inr refl

  -- Nothing is left to update at a later time.
  none_left :
      (i user_id : ℕ) (decision : BidDecision) (s : Store N) (later : ℕ)
      → find?
          (takes_bid i user_id decision (record (bid_store i user_id decision s) { now = later }))
          (bid_store i user_id decision s).pursuits
        ≡ none
  none_left i user_id decision s later =
      find?-update_where_out
        (takes_bid i user_id decision (record (bid_store i user_id decision s) { now = later }))
        (takes_bid i user_id decision s) (set_decision user_id s.now decision)
        (λ p. ground (arith, same_decision_refl decision))
        (λ p e. ground (
          arith,
          e,
          scoped_at user_id s (bid_store i user_id decision s).pursuits s.assessments later p,
        ))
        s.pursuits

  -- The update finds the same row at any time.
  takes_bid_at :
      (i user_id : ℕ) (decision : BidDecision) (s : Store N) (later : ℕ)
      → find? (takes_bid i user_id decision (record s { now = later })) s.pursuits
        ≡ find? (takes_bid i user_id decision s) s.pursuits
  takes_bid_at i user_id decision s later =
      ap (λ (f : Pursuit N → Bool). find? f s.pursuits)
        (fun_ext (λ p.
          ap
            (λ b.
              (p.id == i && b)
              && (not (is_some p.outcome) && not (same_decision p.bid_decision (some decision))))
            (scoped_at user_id s s.pursuits s.assessments later p)))

  -- What a request for an id leaves behind.
  abbrev after : (i user_id : ℕ) → Bool → Store N → Store N
  after i user_id body u = (set_bid (uuid i) body user_id u).1

  nothing_left :
      (i user_id : ℕ) (body : Bool) (u : Store N)
      → find? (takes_bid i user_id (decision_of body) u) u.pursuits ≡ none
      → after i user_id body u ≡ u
  unfolding set_bid parse_uuid
  nothing_left i user_id body u gone =
      ap (λ o. after_update i user_id (decision_of body) o u) gone
      ∙ after_none i user_id (decision_of body) u

  -- Sending a bid decision again, at the same or any other time, changes nothing: the time of the
  -- last update stays that of the first request.
  pub set_bid_twice :
      (pursuit_text : IdText) (body : Bool) (user_id later : ℕ) (s : Store N)
      → let t = record (set_bid pursuit_text body user_id s).1 { now = later } in
        (set_bid pursuit_text body user_id t).1 ≡ t
  unfolding set_bid parse_uuid update_bid
  set_bid_twice blank body user_id later s = refl
  set_bid_twice malformed body user_id later s = refl
  set_bid_twice (uuid i) body user_id later s =
      let d = decision_of body in
      let Twice : Store N → Type 0 =
        λ u. after i user_id body (record u { now = later }) ≡ record u { now = later } in
      elim (Option-cases (find? (takes_bid i user_id d s) s.pursuits)) [
        | inl gone ↦ subst Twice (sym (nothing_left i user_id body s gone)) (
            nothing_left i user_id body (record s { now = later })
              (takes_bid_at i user_id d s later ∙ gone))
        | inr (p, hit) ↦ subst Twice (sym (ap (λ o. after_update i user_id d o s) hit)) (
            nothing_left i user_id body (record (bid_store i user_id d s) { now = later })
              (none_left i user_id d s later))
      ]
