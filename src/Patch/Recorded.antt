-- ===== src/Patch/Recorded.antt =====
-- What `patch_pursuit` of api/app/routers/write.py leaves behind, accepted or refused.
use mathlib.Core.Bool.{false≢true}
use mathlib.Core.Path.{subst}
use cpde_web.Prelude.{
  ℕ, String, ◌≡◌, refl, sym, ap, ◌∙◌, ◌⊎◌, Bool, true, false, not, ◌&&◌, none, some, [], ◌∷◌, ◌==◌,
  is_some, find?,
}
use cpde_web.Prelude.Num.{Float}
use cpde_web.Prelude.Monad.{Tx, ok, text, pure, read, raise_if, ◌>>=◌, ◌>>◌}
use cpde_web.Prelude.Ensures.{
  Ensures, Ensures-bind, Ensures-raise_if, Ensures-transaction, Ensures-read, weaken,
}
use cpde_web.Store.{Pursuit, Store, pursuit_of}
use cpde_web.Store.Valid.{IsValid}
use cpde_web.Scope.Parse.{parse-Ensures}
use cpde_web.Scope.{IdText, uuid, parse_uuid, scoped_pursuit}
use cpde_web.Scoring.{Cache}
use cpde_web.Recalc.{Payload, EngineAnswer}
use cpde_web.Lifecycle.Closing.{IsHistory}
use cpde_web.Dependency.Resolve.{IsAccepted, resolve-IsAccepted}
use cpde_web.Patch.Stale.{IsApart, is_stale_iff}
use cpde_web.Patch.Body.{
  PursuitPatch, is_value, merge, merged_flag, is_one_bidder, is_accepted_patch,
}
use cpde_web.Patch.Plan.{
  References, Resolved, clears_dependency, resolve_dependency, set_fields, plan,
}
use cpde_web.Patch.Dates.{IsOrdered, dates_in_order-IsOrdered}
use cpde_web.Patch.Planned.{IsPlanned, plan-IsPlanned}
use cpde_web.Patch.Effects.{PwinEffects, reverts, sole_source_effects, revert_effects}
use cpde_web.Patch.Kept.{
  AnyState, IsKept, IsKept-trans, IsSole, IsSoleKept, sole_source_effects-IsSoleKept, IsRevertKept,
  revert_effects-IsRevertKept,
}
use cpde_web.Patch.Written.{
  pursuit_of-write_fields, pursuit_of-write_fields_other, write_fields-IsValid,
  write_fields-IsHistory,
}
use cpde_web.Lifecycle.Closing.{IsHistory-pursuits}
use cpde_web.Patch.Columns.{kept_or_cleared, kept_or_dropped, named_target, sole_source_alone}
use cpde_web.Patch.Handler.{Patched, write_fields, apply_patch, patch_pursuit}

one_bidder_of : (sole one : Bool) → (sole && not one) ≡ false → sole ≡ true → one ≡ true
one_bidder_of true true h e = refl
one_bidder_of true false h e = cc
one_bidder_of false one h e = cc

module _ (fl : Float) where
  open fl use {Num}

  pub record IsPatch (pursuit_text : IdText) (body : PursuitPatch Num) (user_id : ℕ)
      (is_admin : Bool) (s t : Store Num) : Type 0 where
    pub pursuit_id : ℕ
    pub is_pursuit : pursuit_text ≡ uuid pursuit_id
    pub before : Pursuit Num
    pub in_scope : scoped_pursuit pursuit_id user_id s ≡ some before
    pub not_stale : ¬ IsApart body.expected_updated_at before.updated_at
    pub was_open : before.outcome ≡ none
    pub after : Pursuit Num
    pub is_after : pursuit_of pursuit_id t ≡ some after
    pub is_open : after.outcome ≡ none
    pub in_order : IsOrdered (
        after.bp_start_date ∷ after.proposal_due_date ∷ after.contract_award_date
        ∷ after.period_end_date ∷ [])
    pub one_bidder : after.is_sole_source ≡ true → is_one_bidder after.bidders ≡ true
    pub sole_source_alone :
        (before.is_sole_source ≡ true → before.depends_on_pursuit_id ≡ none)
        → after.is_sole_source ≡ true
        → after.depends_on_pursuit_id ≡ none
    pub opportunity :
        is_admin ≡ false
        → (after.external_opportunity_id ≡ before.external_opportunity_id)
          ⊎ (after.external_opportunity_id ≡ none)
    pub depends :
        (uid : String)
        → body.depends_on_opp_id ≡ some (some uid)
        → (target : ℕ) × (after.depends_on_pursuit_id ≡ some target)
          × IsAccepted pursuit_id user_id uid s target
    pub kept_dependency :
        is_value body.depends_on_opp_id ≡ false
        → (after.depends_on_pursuit_id ≡ before.depends_on_pursuit_id)
          ⊎ (after.depends_on_pursuit_id ≡ none)
    pub sole_source_pwin :
        body.is_sole_source ≡ some (some true)
        → reverts body before ≡ false
        → IsSole fl pursuit_id t
    pub others : (j : ℕ) → (j == pursuit_id) ≡ false → pursuit_of j t ≡ pursuit_of j s
    pub valid : IsValid t
    pub history : IsHistory t

  module _ {Q : Type 0} (cache : Cache fl Q) (engine : Pursuit Num → Payload fl → EngineAnswer fl)
      (refs : References) (pursuit_text : IdText) (body : PursuitPatch Num) (user_id : ℕ)
      (is_admin : Bool) (s : Store Num) (v : IsValid s) (hist : IsHistory s) where
    -- What the effects leave of the UPDATE.
    patched :
        (i : ℕ) (x : Pursuit Num × Resolved) (t : Store Num)
        → pursuit_text ≡ uuid i
        → IsPlanned refs i user_id is_admin body s x
        → IsKept fl (write_fields i user_id body x.1 s) t
        → (body.is_sole_source ≡ some (some true) → reverts body x.0 ≡ false → IsSole fl i t)
        → IsPatch pursuit_text body user_id is_admin s t
    unfolding set_fields
    patched i (existing, r) t is_i p kept sole =
        let row = set_fields body r user_id s.now existing in
        let found = λ (j : ℕ). ap (find? (λ (p : Pursuit Num). p.id == j)) kept.same_pursuits in
        record {
          pursuit_id = i;
          is_pursuit = is_i;
          before = existing;
          in_scope = p.in_scope;
          not_stale = λ apart. false≢true (
              sym p.checked.not_stale
              ∙ (is_stale_iff body.expected_updated_at existing.updated_at).1 apart);
          was_open = p.checked.is_open;
          after = row;
          is_after =
              found i
              ∙ pursuit_of-write_fields i user_id body r existing s p.in_scope (hist.one_pursuit i);
          is_open = p.checked.is_open;
          in_order =
              dates_in_order-IsOrdered existing.bp_start_date
                (merge body.proposal_due_date existing.proposal_due_date)
                (merge body.contract_award_date existing.contract_award_date)
                (merge body.period_end_date existing.period_end_date) p.checked.in_order;
          one_bidder =
              one_bidder_of (merged_flag body.is_sole_source existing.is_sole_source)
                (is_one_bidder (merge body.bidders existing.bidders)) p.checked.one_bidder;
          sole_source_alone =
              sole_source_alone i user_id s body existing r.dependency p.resolved.is_dependency
                p.resolved.not_sole;
          opportunity =
              kept_or_cleared body.external_opportunity_id is_admin existing.external_opportunity_id
                p.may_rename;
          depends = λ uid named.
              let (target, e, h) =
                named_target i user_id s (clears_dependency body existing) uid r.dependency (
                  subst
                    (λ d.
                      resolve_dependency i user_id (clears_dependency body existing) d s
                      ≡ ok r.dependency)
                    named p.resolved.is_dependency) in
              (
                target,
                ap (λ d. merge d existing.depends_on_pursuit_id) e,
                resolve-IsAccepted i user_id uid s target (hist.one_pursuit target) h,
              );
          kept_dependency = λ unnamed.
              kept_or_dropped i user_id s (clears_dependency body existing) body.depends_on_opp_id
                r.dependency existing.depends_on_pursuit_id p.resolved.is_dependency unnamed;
          sole_source_pwin = sole;
          others = λ j ne.
              found j ∙ pursuit_of-write_fields_other i user_id body r existing s p.in_scope j ne;
          valid = kept.valid;
          history = IsHistory-pursuits kept.same_pursuits (
              write_fields-IsHistory i user_id body r existing s p.in_scope p.checked.is_open hist);
        }

    -- From the UPDATE on.
    pub apply_patch-IsPatch :
        (i : ℕ) (x : Pursuit Num × Resolved)
        → pursuit_text ≡ uuid i
        → IsPlanned refs i user_id is_admin body s x
        → Ensures
            (λ _ t. IsPatch pursuit_text body user_id is_admin s t)
            (AnyState fl)
            (apply_patch fl cache engine i user_id body x s)
    unfolding apply_patch set_fields
    apply_patch-IsPatch i (existing, r) is_i p =
        let P =
          λ (_ : Patched Num) (t : Store Num). IsPatch pursuit_text body user_id is_admin s t in
        let row = set_fields body r user_id s.now existing in
        let changed = is_some body.is_sole_source in
        let u = write_fields i user_id body r s in
        let uv = write_fields-IsValid i user_id body r existing s p.in_scope v in
        let m = sole_source_effects fl cache engine i user_id changed row.is_sole_source in
        let back = λ (e : PwinEffects Num). reverts body existing && not e.base_recalc_done in
        let m2 = λ (e : PwinEffects Num). revert_effects fl cache engine i user_id (back e) e in
        let k2 : PwinEffects Num → Tx (Store Num) (Patched Num) = λ effects. pure (record {
          row = row;
          dependency_cleared = clears_dependency body existing;
          effects = effects;
        }) in
        let k : PwinEffects Num → Tx (Store Num) (Patched Num) = λ e. m2 e >>= k2 in
        let Sole =
          λ (_ : PwinEffects Num) (t : Store Num). IsSoleKept fl i changed row.is_sole_source u t in
        Ensures-bind P (AnyState fl) m k u (
          weaken Sole (λ e t. Ensures P (AnyState fl) (k e t)) (AnyState fl)
            (λ e t h. Ensures-bind P (AnyState fl) (m2 e) k2 t (
              weaken (λ _ w. IsRevertKept fl (back e) t w)
                (λ effects w. Ensures P (AnyState fl) (k2 effects w)) (AnyState fl)
                (λ effects w g.
                  patched i (existing, r) w is_i p (IsKept-trans fl h.kept g.kept)
                    λ on forward.
                      subst (IsSole fl i)
                        (sym (g.idle (ap (λ b. b && not e.base_recalc_done) forward)))
                        (h.sole (ap is_some on)
                          (ap (λ b. merged_flag b existing.is_sole_source) on)))
                (m2 e t)
                (revert_effects-IsRevertKept fl cache engine i user_id (back e) e t h.kept.valid)))
            (m u)
            (sole_source_effects-IsSoleKept fl cache engine i user_id changed row.is_sole_source u
              uv))

    -- In a store that satisfies the constraints of the schema, where every WON or LOST pursuit is
    -- BID, an accepted edit is on a visible and open pursuit that was not modified more than a
    -- millisecond before or after the expected time. The edited pursuit is open, its dates are in
    -- order, and a sole-source one has one bidder and, unless it was sole source with a dependency
    -- before, no dependency; an edit that makes it sole source without a reversion to Pre-BH gives
    -- its current BASE row the sole-source Pwin; without the role of an administrator the
    -- opportunity id is kept or gone; a dependency that is named is then on another pursuit of the
    -- store that the user sees, which is open, has that opportunity id, and whose chain does not
    -- come to the edited one within fifty rows, and without a name it is kept or gone; no other
    -- pursuit is changed. The constraints and the history hold again, and a refused edit leaves
    -- the store as it was.
    pub patch_pursuit-IsPatch :
        Ensures
          (λ _ t. IsPatch pursuit_text body user_id is_admin s t)
          (λ t. t ≡ s)
          (patch_pursuit fl cache engine refs pursuit_text body user_id is_admin s)
    unfolding patch_pursuit
    patch_pursuit-IsPatch =
        let P =
          λ (_ : Patched Num) (t : Store Num). IsPatch pursuit_text body user_id is_admin s t in
        let E = λ (t : Store Num). Unit {0} in
        let invalid = text "the body is not valid" in
        let c = not (is_accepted_patch fl body) in
        let k2 =
          λ (i : ℕ) (x : Pursuit Num × Resolved). apply_patch fl cache engine i user_id body x in
        let k = λ (i : ℕ). read (plan refs i user_id is_admin body) >>= k2 i in
        Ensures-transaction P E (raise_if c 422 invalid >> (parse_uuid pursuit_text >>= k)) s (
          Ensures-raise_if P E c 422 invalid (parse_uuid pursuit_text >>= k) s tt λ _.
            parse-Ensures P E pursuit_text k s tt λ i is_i.
              Ensures-read P E (plan refs i user_id is_admin body)
                (IsPlanned refs i user_id is_admin body s) (k2 i) s tt
                (plan-IsPlanned refs i user_id is_admin body s)
                λ x planned. apply_patch-IsPatch i x is_i planned)
