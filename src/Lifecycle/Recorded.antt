-- ===== src/Lifecycle/Recorded.antt =====
-- What set_outcome of api/app/routers/write.py leaves behind, accepted or refused.
use mathlib.Core.Option
use cpde_web.Prelude.{
  ℕ, ◌≡◌, ◌≤◌, refl, ap, ◌∙◌, ◌⊎◌, inl, inr, Bool, true, false, not, ◌&&◌, Option, none, some, List,
  [], ◌∷◌, arith, any, count, find?, keep, Bool-cases, if◌then◌else◌, is_some, ◌==◌,
}
use cpde_web.Prelude.Monad.{Tx, ok, text, bid_required, or_raise, raise_if, ◌>>=◌, ◌>>◌}
use cpde_web.Prelude.Ensures.{Ensures, Ensures-raise_if, Ensures-or_raise, Ensures-transaction}
use cpde_web.Store.{Outcome, BidDecision, bid, no_bid, undecided, Pursuit, Store, pursuit_of}
use cpde_web.Store.Rows.{find?-update_where, find?-passes, count-pos_of_find?}
use cpde_web.Scope.Parse.{parse-Ensures}
use cpde_web.Scope.{IdText, uuid, parse_uuid, scoped, scoped_pursuit}
use cpde_web.Pwin.{depends_on, drop_dependency, auto_clear_dependents_of_outcome}
use cpde_web.Pwin.Clear.{pursuits-auto_clear, dependents-auto_clear}
use cpde_web.Lifecycle.{
  OutcomeIn, Closed, is_decided, is_withdrawn, same_outcome, is_accepted_outcome, same_decision,
  decision_text, names, set_closed, write_outcome, clear_withdrawn, set_outcome,
}
use cpde_web.Store.Valid.{IsValid}
use cpde_web.Pwin.Valid.{auto_clear-IsValid}
use cpde_web.Lifecycle.Closing.{IsHistory, write_outcome-IsHistory, clear_withdrawn-IsHistory}

and_left : (a b : Bool) → (a && b) ≡ true → a ≡ true
and_left true b e = refl
and_left false b e = cc

pub find?-one :
    {A : Type 0} (a b : A → Bool) (x : A) (l : List A)
    → find? (λ y. a y && b y) l ≡ some x
    → count a l ≤ 1
    → find? a l ≡ some x
find?-one a b x [] h u = ground arith
find?-one a b x (y ∷ l) h u = elim (Bool-cases (a y)) [
  | inl ay ↦ elim (Bool-cases (b y)) [
    | inl both ↦ ground arith
    | inr only ↦ absurd (
        ground (
          arith,
          count-pos_of_find? a (λ z. z) (λ z. a z && b z) b l x (ground arith)
              (and_left (a x) (b x) (find?-passes (λ z. a z && b z) l x (ground arith))),
        ))
  ]
  | inr off ↦ ground (arith, find?-one a b x l)
]

was_bid_of :
    (decided also : Bool) (d : Option BidDecision)
    → (decided && (not (same_decision d (some bid)) && not also)) ≡ false
    → decided ≡ true
    → (d ≡ some bid) ⊎ (also ≡ true)
was_bid_of decided true d g e = inr refl
was_bid_of decided false (some bid) g e = inl refl
was_bid_of decided false none g e = cc
was_bid_of decided false (some no_bid) g e = cc
was_bid_of decided false (some undecided) g e = cc

module _ {N : Type 0} where
  pub record IsClosing (pursuit_text : IdText) (body : OutcomeIn) (user_id : ℕ) (s t : Store N)
      : Type 0 where
    pub pursuit_id : ℕ
    pub is_pursuit : pursuit_text ≡ uuid pursuit_id
    pub pursuit : Pursuit N
    pub in_scope : scoped_pursuit pursuit_id user_id s ≡ some pursuit
    pub was_bid :
        is_decided body.outcome ≡ true
        → (pursuit.bid_decision ≡ some bid) ⊎ (body.also_set_bid ≡ true)
    pub recorded : Option.map (λ p. p.outcome) (pursuit_of pursuit_id t) ≡ some body.outcome
    pub undepended :
        is_withdrawn body.outcome ≡ true
        → same_outcome pursuit.outcome body.outcome ≡ false
        → keep (depends_on pursuit_id) t.pursuits ≡ []
    pub untouched : is_withdrawn body.outcome ≡ false → t.assessments ≡ s.assessments
    pub history : IsHistory t
    pub valid : IsValid s → IsValid t

  same_outcomes :
      (b : Pursuit N → Bool) (f : Pursuit N → Pursuit N)
      → ((p : Pursuit N) → (f p).outcome ≡ p.outcome)
      → (o : Option (Pursuit N))
      → Option.map (λ p. p.outcome) (Option.map (λ p. if b p then f p else p) o)
        ≡ Option.map (λ p. p.outcome) o
  same_outcomes b f same none = refl
  same_outcomes b f same (some p) = ground (arith, same p)

  outcome-clear_withdrawn :
      (i user_id : ℕ) (before after : Option Outcome) (s : Store N)
      → Option.map (λ p. p.outcome) (pursuit_of i (clear_withdrawn i user_id before after s).1)
        ≡ Option.map (λ p. p.outcome) (pursuit_of i s)
  unfolding clear_withdrawn
  outcome-clear_withdrawn i user_id before after s =
      of_test (is_withdrawn after && not (same_outcome before after))
    where
      of_test :
          (b : Bool)
          → Option.map
              (λ p. p.outcome)
              (pursuit_of i (if b then auto_clear_dependents_of_outcome i user_id s else ([], s)).1)
            ≡ Option.map (λ p. p.outcome) (pursuit_of i s)
      of_test false = refl
      of_test true =
          let q = λ (p : Pursuit N). any (λ d. p.id == d.id) (keep (depends_on i) s.pursuits) in
          let f = drop_dependency user_id s.now in
          ap (λ l. Option.map (λ p. p.outcome) (find? (λ p. p.id == i) l))
            (pursuits-auto_clear i user_id s)
          ∙ ap (Option.map (λ p. p.outcome))
              (find?-update_where (λ p. p.id == i) q f (λ p. refl) s.pursuits)
          ∙ same_outcomes q f (λ p. refl) (pursuit_of i s)

  outcome-write_outcome :
      (i user_id : ℕ) (body : OutcomeIn) (row : Pursuit N) (s : Store N)
      → count (λ p. p.id == i) s.pursuits ≤ 1
      → scoped_pursuit i user_id s ≡ some row
      → Option.map (λ p. p.outcome) (pursuit_of i (write_outcome i user_id body row s))
        ≡ some body.outcome
  unfolding write_outcome
  outcome-write_outcome i user_id body row s one found =
      let f = set_closed body row user_id s.now in
      let named = find?-passes (names i user_id s) s.pursuits row found in
      ap (Option.map (λ p. p.outcome)) (
        find?-update_where (λ p. p.id == i) (names i user_id s) f (λ p. refl) s.pursuits
        ∙ ap (Option.map (λ p. if names i user_id s p then f p else p))
            (find?-one (λ p. p.id == i) (scoped user_id s) row s.pursuits found one))
      ∙ ap (λ b. some (if b then f row else row).outcome) named

  assessments-clear_withdrawn :
      (i user_id : ℕ) (before after : Option Outcome) (s : Store N)
      → is_withdrawn after ≡ false
      → (clear_withdrawn i user_id before after s).1.assessments ≡ s.assessments
  unfolding clear_withdrawn
  assessments-clear_withdrawn i user_id before after s e = rw e refl

  clear_withdrawn-IsValid :
      (i user_id : ℕ) (before after : Option Outcome) (s : Store N)
      → IsValid s
      → IsValid (clear_withdrawn i user_id before after s).1
  unfolding clear_withdrawn
  clear_withdrawn-IsValid i user_id before after s v =
      of_test (is_withdrawn after && not (same_outcome before after))
    where
      of_test :
          (b : Bool)
          → IsValid (if b then auto_clear_dependents_of_outcome i user_id s else ([], s)).1
      of_test true = auto_clear-IsValid i user_id s v
      of_test false = v

  undepended-clear_withdrawn :
      (i user_id : ℕ) (before after : Option Outcome) (s : Store N)
      → is_withdrawn after ≡ true
      → same_outcome before after ≡ false
      → keep (depends_on i) (clear_withdrawn i user_id before after s).1.pursuits ≡ []
  unfolding clear_withdrawn
  undepended-clear_withdrawn i user_id before after s e f =
      rw (e, f) (dependents-auto_clear i user_id s)

  module _ (pursuit_text : IdText) (body : OutcomeIn) (user_id : ℕ) (s : Store N)
      (v : IsHistory s) where
    closing :
        (i : ℕ) (row : Pursuit N)
        → pursuit_text ≡ uuid i
        → scoped_pursuit i user_id s ≡ some row
        → (is_decided body.outcome
            && (not (same_decision row.bid_decision (some bid)) && not body.also_set_bid))
          ≡ false
        → IsClosing pursuit_text body user_id s
            (clear_withdrawn i user_id row.outcome body.outcome
              (write_outcome i user_id body row s)).1
    unfolding write_outcome
    closing i row is_i found guard =
        let u = write_outcome i user_id body row s in
        record {
          pursuit_id = i;
          is_pursuit = is_i;
          pursuit = row;
          in_scope = found;
          was_bid = was_bid_of (is_decided body.outcome) body.also_set_bid row.bid_decision guard;
          recorded =
              outcome-clear_withdrawn i user_id row.outcome body.outcome u
              ∙ outcome-write_outcome i user_id body row s (v.one_pursuit i) found;
          undepended = undepended-clear_withdrawn i user_id row.outcome body.outcome u;
          untouched = assessments-clear_withdrawn i user_id row.outcome body.outcome u;
          history =
              clear_withdrawn-IsHistory i user_id row.outcome body.outcome u
                (write_outcome-IsHistory i user_id body row s found guard v);
          valid = λ w.
              clear_withdrawn-IsValid i user_id row.outcome body.outcome u
                (record { one_current = w.one_current; one_id = w.one_id; old_ids = w.old_ids });
        }

    -- With unique pursuit ids and every WON or LOST pursuit BID, an accepted outcome is on a
    -- visible pursuit that is BID, or told to be, where the outcome is WON or LOST; the pursuit
    -- then has that outcome, decided pursuits are still BID, nothing depends on a newly cancelled
    -- one, and assessments change only if it is cancelled; where the ids and the current rows of
    -- assessments are unique, they are again. A refused outcome leaves the store as it was.
    pub set_outcome-IsClosing :
        Ensures
          (λ _ t. IsClosing pursuit_text body user_id s t)
          (λ t. t ≡ s)
          (set_outcome pursuit_text body user_id s)
    unfolding set_outcome
    set_outcome-IsClosing =
        let Q = λ (_ : Closed N) (t : Store N). IsClosing pursuit_text body user_id s t in
        let E = λ (t : Store N). Unit {0} in
        let refused = text "outcome must be WON, LOST, CANCELLED or null" in
        let after : ℕ → Pursuit N → Pursuit N → Tx (Store N) (Closed N) = λ i row updated u. (
          ok (record {
            row = updated;
            reopened = not (is_some body.outcome);
            dependents_cleared = (clear_withdrawn i user_id row.outcome body.outcome u).0;
          }),
          (clear_withdrawn i user_id row.outcome body.outcome u).1,
        ) in
        let k2 = λ (i : ℕ) (row : Pursuit N). λ (u : Store N).
          (or_raise (scoped_pursuit i user_id (write_outcome i user_id body row u)) 500
                (text "Internal Server Error")
              >>= after i row)
            (write_outcome i user_id body row u) in
        let guard = λ (row : Pursuit N).
          is_decided body.outcome
          && (not (same_decision row.bid_decision (some bid)) && not body.also_set_bid) in
        let k1 = λ (i : ℕ) (row : Pursuit N).
          raise_if (guard row) 409 (bid_required (decision_text row.bid_decision)) >> k2 i row in
        let k0 = λ (i : ℕ). λ (u : Store N).
          (or_raise (scoped_pursuit i user_id u) 404 (text "pursuit not found") >>= k1 i) u in
        Ensures-transaction Q E
          (raise_if (not (is_accepted_outcome body.outcome)) 422 refused
            >> (parse_uuid pursuit_text >>= k0))
          s
          (Ensures-raise_if Q E (not (is_accepted_outcome body.outcome)) 422 refused
            (parse_uuid pursuit_text >>= k0) s tt
            λ _. parse-Ensures Q E pursuit_text k0 s tt λ i is_i.
              Ensures-or_raise Q E (scoped_pursuit i user_id s) 404 (text "pursuit not found")
                (k1 i) s tt
                λ row found.
                  Ensures-raise_if Q E (guard row) 409
                    (bid_required (decision_text row.bid_decision)) (k2 i row) s tt
                    λ allowed.
                      Ensures-or_raise Q E
                        (scoped_pursuit i user_id (write_outcome i user_id body row s)) 500
                        (text "Internal Server Error") (after i row)
                        (write_outcome i user_id body row s) tt
                        λ updated _. closing i row is_i found allowed)
