-- ===== src/Patch/Written.antt =====
-- The UPDATE of `patch_pursuit` (api/app/routers/write.py): what it leaves in the table of pursuits.
use mathlib.Core.Path.{subst}
use mathlib.Core.Option
use mathlib.Core.Bool.{false≢true}
use cpde_web.Prelude.{
  ℕ, ◌≡◌, ◌≤◌, refl, sym, ap, ◌∙◌, true, false, none, some, ◌==◌, arith, count, if◌then◌else◌,
}
use cpde_web.Store.{Pursuit, Store, bid, pursuit_of}
use cpde_web.Store.Rows.{
  count-update_where, find?-update_where, find?-update_where_apart, find?-passes,
}
use cpde_web.Store.Valid.{IsValid}
use cpde_web.Scope.{scoped, scoped_pursuit}
use cpde_web.Lifecycle.{names, is_decided}
use cpde_web.Lifecycle.Closing.{IsHistory, All-found, All-update_found, count-both}
use cpde_web.Lifecycle.Recorded.{find?-one}
use cpde_web.Patch.Body.{PursuitPatch}
use cpde_web.Patch.Plan.{Resolved, set_fields}
use cpde_web.Patch.Handler.{write_fields}

module _ {N : Type 0} where
  module _ (i user_id : ℕ) (body : PursuitPatch N) (r : Resolved) (existing : Pursuit N)
      (s : Store N) (in_scope : scoped_pursuit i user_id s ≡ some existing) where
    is_named : names i user_id s existing ≡ true
    is_named = find?-passes (names i user_id s) s.pursuits existing in_scope

    -- The edited pursuit.
    pub pursuit_of-write_fields :
        count (λ p. p.id == i) s.pursuits ≤ 1
        → pursuit_of i (write_fields i user_id body r s)
          ≡ some (set_fields body r user_id s.now existing)
    unfolding write_fields set_fields
    pursuit_of-write_fields one =
        let f = set_fields body r user_id s.now in
        find?-update_where (λ p. p.id == i) (names i user_id s) f (λ p. refl) s.pursuits
        ∙ ap (Option.map (λ p. if names i user_id s p then f p else p))
            (find?-one (λ p. p.id == i) (scoped user_id s) existing s.pursuits in_scope one)
        ∙ ap (λ b. some (if b then f existing else existing)) is_named

    -- The others.
    pub pursuit_of-write_fields_other :
        (j : ℕ) → (j == i) ≡ false → pursuit_of j (write_fields i user_id body r s) ≡ pursuit_of j s
    unfolding write_fields set_fields
    pursuit_of-write_fields_other j ne =
        find?-update_where_apart (λ p. p.id == j) (names i user_id s)
          (set_fields body r user_id s.now) (λ p named. ground arith) (λ p named. ground arith)
          s.pursuits

    pub write_fields-IsValid : IsValid s → IsValid (write_fields i user_id body r s)
    unfolding write_fields
    write_fields-IsValid v = record {
      one_current = v.one_current;
      one_id = v.one_id;
      old_ids = v.old_ids;
    }

    pub write_fields-IsHistory :
        existing.outcome ≡ none → IsHistory s → IsHistory (write_fields i user_id body r s)
    unfolding write_fields set_fields
    write_fields-IsHistory is_open v =
        let f = set_fields body r user_id s.now in
        record {
          one_pursuit = λ j.
              subst (λ n. n ≤ 1)
                (sym (
                  count-update_where (λ p. p.id == j) (names i user_id s) f (λ p. refl) s.pursuits))
                (v.one_pursuit j);
          decided_bid =
              All-update_found
                (λ (p : Pursuit N). is_decided p.outcome ≡ true → p.bid_decision ≡ some bid)
                (names i user_id s) f existing
                (λ d. absurd (false≢true (sym (ap is_decided is_open) ∙ d))) s.pursuits
                (All-found (names i user_id s) existing s.pursuits in_scope (
                  omega (
                    arith,
                    count-both (λ p. p.id == i) (scoped user_id s) s.pursuits,
                    v.one_pursuit i,
                  )))
                v.decided_bid;
        }
