-- ===== src/Lifecycle/Closing.antt =====
-- The history of the pursuits under the bid toggle and the parts of set_outcome
-- (api/app/routers/write.py).
use cpde_web.Prelude.{
  ℕ, ◌≡◌, ◌≤◌, refl, sym, ap, ◌∙◌, inl, inr, Bool, true, false, not, ◌&&◌, Option, none, some, List,
  [], ◌∷◌, All, arith, any, count, find?, keep, update_where, Bool-cases, if◌then◌else◌, is_some,
  ◌==◌,
}
use mathlib.Core.Path.{subst}
use mathlib.Core.Bool.{false≢true}
use cpde_web.Store.{Outcome, no_bid, BidDecision, bid, undecided, Pursuit, Store}
use cpde_web.Store.Rows.{count-update_where, All-update_where}
use cpde_web.Scope.{IdText, blank, malformed, uuid, parse_uuid, scoped, scoped_pursuit}
use cpde_web.Pwin.{depends_on, drop_dependency, auto_clear_dependents_of_outcome}
use cpde_web.Pwin.Clear.{pursuits-auto_clear}
use cpde_web.Lifecycle.{
  OutcomeIn, is_decided, is_withdrawn, same_outcome, same_decision, decision_of, takes_bid,
  set_decision, names, set_closed, write_outcome, clear_withdrawn, set_bid,
}
use cpde_web.Lifecycle.Bid.{bid_store, after-cases}

All-none :
    {A : Type 0} (q : A → Bool) (x : A) (l : List A)
    → count q l ≡ 0
    → All (λ y. q y ≡ true → y ≡ x) l
All-none q x [] u = tt
All-none q x (y ∷ l) u = ((λ e. ground arith), All-none q x l (ground arith))

open_undecided :
    (o : Option Outcome) (a b : Bool)
    → (a && (not (is_some o) && b)) ≡ true
    → is_decided o ≡ true
    → ⊥
open_undecided none a b e d = cc
open_undecided (some o) true b e d = cc
open_undecided (some o) false b e d = cc

-- Where one row at most is updated, the row that is found is that row.
pub All-found :
    {A : Type 0} (q : A → Bool) (x : A) (l : List A)
    → find? q l ≡ some x
    → count q l ≤ 1
    → All (λ y. q y ≡ true → y ≡ x) l
All-found q x [] h u = tt
All-found q x (y ∷ l) h u = elim (Bool-cases (q y)) [
  | inl e ↦ ((λ _. ground arith), All-none q x l (ground arith))
  | inr e ↦ ((λ t. absurd (false≢true (sym e ∙ t))), All-found q x l (ground arith) (ground arith))
]

pub All-update_found :
    {A : Type 0} (P : A → Type 0) (q : A → Bool) (f : A → A) (x : A)
    → P (f x)
    → (l : List A) → All (λ y. q y ≡ true → y ≡ x) l
    → All P l
    → All P (update_where q f l)
All-update_found P q f x p [] u h = tt
All-update_found P q f x p (y ∷ l) u h =
    let rest = All-update_found P q f x p l u.1 h.1 in
    elim (Bool-cases (q y)) [
      | inl e ↦ (
        subst (λ b. P (if b then f y else y)) (sym e) (subst (λ z. P (f z)) (sym (u.0 e)) p),
        rest,
      )
      | inr e ↦ (subst (λ b. P (if b then f y else y)) (sym e) h.0, rest)
    ]

pub count-both : {A : Type 0} (a b : A → Bool) (l : List A) → count (λ x. a x && b x) l ≤ count a l
count-both a b [] = omega arith
count-both a b (x ∷ l) = ground (arith, count-both a b l)

-- The guard of `set_outcome` leaves a decided pursuit BID.
guarded_bid :
    (decided also : Bool) (d : Option BidDecision)
    → (decided && (not (same_decision d (some bid)) && not also)) ≡ false
    → decided ≡ true
    → (if decided && also then some bid else d) ≡ some bid
guarded_bid false also d g e = cc
guarded_bid true true d g e = refl
guarded_bid true false none g e = cc
guarded_bid true false (some bid) g e = refl
guarded_bid true false (some no_bid) g e = cc
guarded_bid true false (some undecided) g e = cc

module _ {N : Type 0} where
  abbrev pub IsBid : Pursuit N → Type 0
  IsBid p = is_decided p.outcome ≡ true → p.bid_decision ≡ some bid

  -- `id` is the primary key of `pursuit`, and a pursuit that is WON or LOST is BID.
  pub record IsHistory (s : Store N) : Type 0 where
    pub one_pursuit : (i : ℕ) → count (λ p. p.id == i) s.pursuits ≤ 1
    pub decided_bid :
        All (λ (p : Pursuit N). is_decided p.outcome ≡ true → p.bid_decision ≡ some bid) s.pursuits

  -- The history is about the table of pursuits only.
  pub IsHistory-pursuits : {s t : Store N} → t.pursuits ≡ s.pursuits → IsHistory s → IsHistory t
  IsHistory-pursuits same v = record {
    one_pursuit = λ i. subst (λ ps. count (λ p. p.id == i) ps ≤ 1) (sym same) (v.one_pursuit i);
    decided_bid =
        subst (All (λ (p : Pursuit N). is_decided p.outcome ≡ true → p.bid_decision ≡ some bid))
          (sym same) v.decided_bid;
  }

  -- An update of other columns.
  pub IsHistory-update_where :
      (q : Pursuit N → Bool) (f : Pursuit N → Pursuit N) (s : Store N)
      → ((p : Pursuit N) → (f p).id ≡ p.id)
      → ((p : Pursuit N) → IsBid p → IsBid (f p))
      → IsHistory s
      → IsHistory (record s { pursuits = update_where q f s.pursuits })
  IsHistory-update_where q f s same step v = record {
    one_pursuit = λ j.
        subst (λ n. n ≤ 1)
          (sym
            (count-update_where (λ p. p.id == j) q f (λ p. ap (λ i. i == j) (same p)) s.pursuits))
          (v.one_pursuit j);
    decided_bid = All-update_where IsBid q f (λ p e. step p) s.pursuits v.decided_bid;
  }

  bid_store-IsHistory :
      (i user_id : ℕ) (decision : BidDecision) (s : Store N)
      → IsHistory s
      → IsHistory (bid_store i user_id decision s)
  bid_store-IsHistory i user_id decision s v = record {
    one_pursuit = λ j.
        subst (λ n. n ≤ 1)
          (sym (
            count-update_where (λ p. p.id == j) (takes_bid i user_id decision s)
              (set_decision user_id s.now decision) (λ p. refl) s.pursuits))
          (v.one_pursuit j);
    decided_bid =
        All-update_where IsBid (takes_bid i user_id decision s)
          (set_decision user_id s.now decision)
          (λ p e h d. absurd (
            open_undecided p.outcome (p.id == i && scoped user_id s p)
              (not (same_decision p.bid_decision (some decision))) e d))
          s.pursuits v.decided_bid;
  }

  -- A bid request keeps pursuit ids unique and every WON or LOST pursuit BID.
  pub set_bid-IsHistory :
      (pursuit_text : IdText) (body : Bool) (user_id : ℕ) (s : Store N)
      → IsHistory s
      → IsHistory (set_bid pursuit_text body user_id s).1
  unfolding set_bid parse_uuid
  set_bid-IsHistory blank body user_id s v = v
  set_bid-IsHistory malformed body user_id s v = v
  set_bid-IsHistory (uuid i) body user_id s v =
      let d = decision_of body in
      elim (after-cases i user_id d s (find? (takes_bid i user_id d s) s.pursuits)) [
        | inl same ↦ subst IsHistory (sym same) v
        | inr updated ↦ subst IsHistory (sym updated) (bid_store-IsHistory i user_id d s v)
      ]

  auto_clear-IsHistory :
      (i user_id : ℕ) (s : Store N)
      → IsHistory s
      → IsHistory (auto_clear_dependents_of_outcome i user_id s).1
  auto_clear-IsHistory i user_id s v =
      let ds = keep (depends_on i) s.pursuits in
      let q = λ (p : Pursuit N). any (λ d. p.id == d.id) ds in
      let e = pursuits-auto_clear i user_id s in
      record {
        one_pursuit = λ j.
            subst (λ n. n ≤ 1)
              (sym (
                ap (count (λ p. p.id == j)) e
                ∙ count-update_where (λ p. p.id == j) q (drop_dependency user_id s.now) (λ p. refl)
                    s.pursuits))
              (v.one_pursuit j);
        decided_bid = subst (All IsBid) (sym e) (
            All-update_where IsBid q (drop_dependency user_id s.now) (λ p _ h. h) s.pursuits
              v.decided_bid);
      }

  pub write_outcome-IsHistory :
      (i user_id : ℕ) (body : OutcomeIn) (row : Pursuit N) (s : Store N)
      → scoped_pursuit i user_id s ≡ some row
      → (is_decided body.outcome
          && (not (same_decision row.bid_decision (some bid)) && not body.also_set_bid))
        ≡ false
      → IsHistory s
      → IsHistory (write_outcome i user_id body row s)
  unfolding write_outcome
  write_outcome-IsHistory i user_id body row s found guard v =
      let f = set_closed body row user_id s.now in
      record {
        one_pursuit = λ j.
            subst (λ n. n ≤ 1)
              (sym
                (count-update_where (λ p. p.id == j) (names i user_id s) f (λ p. refl) s.pursuits))
              (v.one_pursuit j);
        decided_bid =
            All-update_found IsBid (names i user_id s) f row
              (guarded_bid (is_decided body.outcome) body.also_set_bid row.bid_decision guard)
              s.pursuits
              (All-found (names i user_id s) row s.pursuits found (
                omega (
                  arith,
                  count-both (λ p. p.id == i) (scoped user_id s) s.pursuits,
                  v.one_pursuit i,
                )))
              v.decided_bid;
      }

  pub clear_withdrawn-IsHistory :
      (i user_id : ℕ) (before after : Option Outcome) (s : Store N)
      → IsHistory s
      → IsHistory (clear_withdrawn i user_id before after s).1
  unfolding clear_withdrawn
  clear_withdrawn-IsHistory i user_id before after s v =
      of_test (is_withdrawn after && not (same_outcome before after))
    where
      of_test :
          (b : Bool)
          → IsHistory (if b then auto_clear_dependents_of_outcome i user_id s else ([], s)).1
      of_test true = auto_clear-IsHistory i user_id s v
      of_test false = v
