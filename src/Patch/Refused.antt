-- ===== src/Patch/Refused.antt =====
-- The lost-update guard of `patch_pursuit` (api/app/routers/write.py).
use mathlib.Core.Path.{subst}
use cpde_web.Prelude.{
  ℕ, ◌≡◌, ◌↔◌, refl, sym, ap, ◌∙◌, Bool, true, false, ◌&&◌, not, some, is_some, Bool-cases, inl,
  inr,
}
use cpde_web.Prelude.Num.{Float}
use cpde_web.Prelude.Monad.{
  Result, ok, http_exception, text, modified, require, ◌and_then◌, transaction, raise_if, read,
  ◌>>=◌, ◌>>◌,
}
use cpde_web.Store.{Pursuit, Store}
use cpde_web.Scope.{uuid, parse_uuid, scoped_pursuit}
use cpde_web.Scoring.{Cache}
use cpde_web.Recalc.{Payload, EngineAnswer}
use cpde_web.Patch.Body.{
  PursuitPatch, is_accepted_patch, is_stale, merge, merged_flag, is_one_bidder, dates_in_order,
}
use cpde_web.Patch.Plan.{
  References, Resolved, is_pre_bh, email_of, check_body, check_row, resolve_fields, violates, plan,
}
use cpde_web.Patch.Unmodified.{apply_patch-IsOther}
use cpde_web.Patch.Stale.{IsApart, is_stale_iff, IsOther, IsOther-then, resolve_fields-IsOther}
use cpde_web.Patch.Handler.{Patched, apply_patch, patch_pursuit}

IsOther-row :
    (a b c d : Bool)
    → IsOther (
        require a 400
          (text "Investment is derived from the questionnaire until Post-BH or Post-PTW")
        and_then λ _. require b 409 (text "pursuit is closed and cannot be edited") and_then λ _.
            require c 400 (text "a sole source pursuit has exactly one bidder") and_then λ _.
            require d 400 (text "dates must run B&P start -> proposal due -> award -> period end"))
IsOther-row false b c d = tt
IsOther-row true false c d = tt
IsOther-row true true false d = tt
IsOther-row true true true false = tt
IsOther-row true true true true = tt

IsOther-last :
    {A : Type 0} (c : Bool) (a : A)
    → IsOther (require c 500 (text "Internal Server Error") and_then λ _. ok a)
IsOther-last true a = tt
IsOther-last false a = tt

module _ {N : Type 0} (refs : References) (i user_id : ℕ) (is_admin : Bool) (body : PursuitPatch N)
    (existing : Pursuit N) (s : Store N) where
  check_row_stale :
      (is_some body.planned_investment && is_pre_bh existing.stage_code) ≡ false
      → is_stale body.expected_updated_at existing.updated_at ≡ true
      → check_row body existing s
        ≡ http_exception 409 (modified (email_of existing.updated_by s) existing.updated_at)
  unfolding check_row
  check_row_stale derived stale = rw (derived, stale) refl

  plan_stale :
      check_body body is_admin ≡ ok tt
      → scoped_pursuit i user_id s ≡ some existing
      → (is_some body.planned_investment && is_pre_bh existing.stage_code) ≡ false
      → is_stale body.expected_updated_at existing.updated_at ≡ true
      → plan refs i user_id is_admin body s
        ≡ http_exception 409 (modified (email_of existing.updated_by s) existing.updated_at)
  unfolding plan
  plan_stale checked found derived stale = rw (checked, found, check_row_stale derived stale) refl

  -- The guard alone answers that the pursuit was modified.
  check_row-IsOther :
      is_stale body.expected_updated_at existing.updated_at ≡ false
      → IsOther (check_row body existing s)
  unfolding check_row
  check_row-IsOther fresh = rw fresh (
      IsOther-row (not (is_some body.planned_investment && is_pre_bh existing.stage_code))
        (not (is_some existing.outcome))
        (not (
          merged_flag body.is_sole_source existing.is_sole_source
          && not (is_one_bidder (merge body.bidders existing.bidders))))
        (dates_in_order existing.bp_start_date
          (merge body.proposal_due_date existing.proposal_due_date)
          (merge body.contract_award_date existing.contract_award_date)
          (merge body.period_end_date existing.period_end_date)))

  plan-IsOther :
      check_body body is_admin ≡ ok tt
      → scoped_pursuit i user_id s ≡ some existing
      → is_stale body.expected_updated_at existing.updated_at ≡ false
      → IsOther (plan refs i user_id is_admin body s)
  unfolding plan
  plan-IsOther checked found fresh =
      rw (checked, found)
        (IsOther-then (check_row body existing s) _ (check_row-IsOther fresh) λ u.
          IsOther-then (resolve_fields refs i user_id body existing s) _
            (resolve_fields-IsOther user_id s refs i body existing)
            λ r. IsOther-last (not (violates i body s)) (existing, r))

module _ (fl : Float) where
  open fl use {Num}

  module _ {Q : Type 0} (cache : Cache fl Q) (engine : Pursuit Num → Payload fl → EngineAnswer fl)
      (refs : References) (i user_id : ℕ) (is_admin : Bool) (body : PursuitPatch Num)
      (existing : Pursuit Num) (s : Store Num) where
    -- The handler as far as the validators and the plan decide it.
    abbrev decided : Bool → Result (Pursuit Num × Resolved) → Result (Patched Num) × Store Num
    decided valid planned =
        transaction
          (raise_if (not valid) 422 (text "the body is not valid")
            >> (parse_uuid (uuid i) >>= λ j.
                read (λ _. planned) >>= λ x. apply_patch fl cache engine j user_id body x))
          s

    refuses :
        is_accepted_patch fl body ≡ true
        → check_body body is_admin ≡ ok tt
        → scoped_pursuit i user_id s ≡ some existing
        → (is_some body.planned_investment && is_pre_bh existing.stage_code) ≡ false
        → is_stale body.expected_updated_at existing.updated_at ≡ true
        → patch_pursuit fl cache engine refs (uuid i) body user_id is_admin s
          ≡ (http_exception 409 (modified (email_of existing.updated_by s) existing.updated_at), s)
    unfolding patch_pursuit parse_uuid
    refuses valid checked found derived stale =
        let refusal : Result (Patched Num) =
          http_exception 409 (modified (email_of existing.updated_by s) existing.updated_at) in
        subst (λ b. decided b (plan refs i user_id is_admin body s) ≡ (refusal, s)) (sym valid)
          (subst (λ r. decided true r ≡ (refusal, s))
            (sym (plan_stale refs i user_id is_admin body existing s checked found derived stale))
            refl)

    -- Once the plan is made, no step answers that the pursuit was modified.
    decided-IsOther : (r : Result (Pursuit Num × Resolved)) → IsOther r → IsOther (decided true r).0
    unfolding parse_uuid
    decided-IsOther (http_exception code detail) h = h
    decided-IsOther (ok x) h =
        kept (apply_patch fl cache engine i user_id body x s)
          (apply_patch-IsOther fl cache engine i user_id body x s)
      where
        kept :
            (a : Result (Patched Num) × Store Num)
            → IsOther a.0
            → IsOther (transaction (λ _. a) s).0
        kept (ok p, t) h = tt
        kept (http_exception code detail, t) h = h

    -- An edit of a visible pursuit with an accepted body and no derived planned investment is
    -- refused with the 409 that names who modified the pursuit and when, and leaves the store as
    -- it was, exactly if an expected time was sent that is more than a millisecond away from the
    -- time of the last update.
    pub patch_pursuit-modified_iff :
        is_accepted_patch fl body ≡ true
        → check_body body is_admin ≡ ok tt
        → scoped_pursuit i user_id s ≡ some existing
        → (is_some body.planned_investment && is_pre_bh existing.stage_code) ≡ false
        → (patch_pursuit fl cache engine refs (uuid i) body user_id is_admin s ≡ (
          http_exception 409 (modified (email_of existing.updated_by s) existing.updated_at),
          s,
        ))
          ↔ IsApart body.expected_updated_at existing.updated_at
    unfolding patch_pursuit parse_uuid
    patch_pursuit-modified_iff valid checked found derived =
        let iff = is_stale_iff body.expected_updated_at existing.updated_at in
        (
          (λ e. elim (Bool-cases (is_stale body.expected_updated_at existing.updated_at)) [
            | inl stale ↦ iff.0 stale
            | inr fresh ↦
                let planned = plan refs i user_id is_admin body s in
                let o : IsOther (decided true planned).0 =
                  decided-IsOther planned
                    (plan-IsOther refs i user_id is_admin body existing s checked found fresh) in
                absurd
                  (subst IsOther (ap (λ b. (decided b planned).0) (sym valid) ∙ ap (λ r. r.0) e) o)
          ]),
          (λ apart. refuses valid checked found derived (iff.1 apart)),
        )
