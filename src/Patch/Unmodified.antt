-- ===== src/Patch/Unmodified.antt =====
-- What follows the UPDATE of `patch_pursuit` (api/app/routers/write.py) never answers that the pursuit was
-- modified.
use cpde_web.Prelude.{
  ℕ, Bool, true, false, Option, none, some, ◌==◌, ◌&&◌, not, is_some, if◌then◌else◌, nat_eq,
}
use cpde_web.Prelude.Num.{Float}
use cpde_web.Prelude.Monad.{Detail, text, Result, ok, http_exception, Tx, pure, caught, ◌>>=◌}
use cpde_web.Store.{Scenario, base, dependent_won, Assessment, Pursuit, Store}
use cpde_web.Scoring.{Cache}
use cpde_web.Recalc.{EngineAnswer, Payload, recalculate_pwin, Recalculated}
use cpde_web.Patch.Body.{PursuitPatch}
use cpde_web.Patch.Plan.{Resolved, clears_dependency, set_fields}
use cpde_web.Patch.Effects.{
  Attempt, recalculated, refused, PwinEffects, attempt, turn_off_row, turn_off, off_effects,
  stale_row, sole_source_effects, reverts, recalc_dependent, revert_effects, has_dependent_won,
  base_effects, dependent_effects,
}
use cpde_web.Patch.Handler.{apply_patch, write_fields, Patched}
use cpde_web.Patch.Stale.{IsOther}

module _ {S : Type 0} where
  pub IsOther-bind :
      {A B : Type 0} (r : Result A × S) (k : A → Tx S B)
      → IsOther r.0
      → ((a : A) (t : S) → IsOther (k a t).0)
      → let bound : Result B × S = elim r.0 [
        | ok a ↦ k a r.1
        | http_exception code detail ↦ (http_exception code detail, r.1)
      ] in
        IsOther bound.0
  IsOther-bind (ok a, t) k h g = g a t
  IsOther-bind (http_exception code detail, t) k h g = h

  IsOther-caught :
      {A : Type 0} (c : Bool) (handled : Result A × S) (t : S)
      → IsOther handled.0
      → IsOther (if c then (http_exception 500 (text "Internal Server Error"), t) else handled).0
  IsOther-caught true handled t h = tt
  IsOther-caught false handled t h = h

  IsOther-catch :
      {A : Type 0} (r : Result A × S) (handler : Detail → Tx S A)
      → ((detail : Detail) (t : S) → IsOther (handler detail t).0)
      → let answer : Result A × S = elim r.0 [
        | ok a ↦ (ok a, r.1)
        | http_exception code detail ↦ caught code (handler detail r.1) r.1
      ] in
        IsOther answer.0
  IsOther-catch (ok a, t) handler h = tt
  IsOther-catch (http_exception code detail, t) handler h =
      IsOther-caught (code == 500) (handler detail t) t (h detail t)

module _ (fl : Float) where
  open fl use {Num}

  module _ {Q : Type 0} (cache : Cache fl Q) (engine : Pursuit Num → Payload fl → EngineAnswer fl)
      (i user_id : ℕ) where
    attempt-IsOther :
        (scenario : Scenario) (s : Store Num)
        → IsOther (attempt fl cache engine i user_id scenario s).0
    unfolding attempt
    attempt-IsOther scenario s =
        let m = recalculate_pwin fl cache engine none true scenario i user_id in
        let k : Recalculated fl → Tx (Store Num) (Attempt Num) = λ r. pure (recalculated r.pwin) in
        let handler : Detail → Tx (Store Num) (Attempt Num) = λ detail. pure (refused detail) in
        IsOther-catch ((m >>= k) s) handler λ detail t. tt

    turn_off_row-IsOther :
        (o : Option (Assessment Num)) (s : Store Num)
        → IsOther (turn_off_row fl cache engine i user_id o s).0
    unfolding turn_off_row
    turn_off_row-IsOther none s = tt
    turn_off_row-IsOther (some a) s =
        let k : Attempt Num → Tx (Store Num) (PwinEffects Num) =
          λ tried. pure (off_effects fl a.pwin tried) in
        IsOther-bind (attempt fl cache engine i user_id base s) k (attempt-IsOther base s) λ _ t. tt

    sole_source_effects-IsOther :
        (changed sole : Bool) (s : Store Num)
        → IsOther (sole_source_effects fl cache engine i user_id changed sole s).0
    unfolding sole_source_effects turn_off
    sole_source_effects-IsOther false sole s = tt
    sole_source_effects-IsOther true true s = tt
    sole_source_effects-IsOther true false s = turn_off_row-IsOther (stale_row fl i s) s

    recalc_dependent-IsOther :
        (e : PwinEffects Num) (s : Store Num)
        → IsOther (recalc_dependent fl cache engine i user_id e s).0
    unfolding recalc_dependent
    recalc_dependent-IsOther e s =
        let k : Attempt Num → Tx (Store Num) (PwinEffects Num) =
          λ tried. pure (dependent_effects fl e tried) in
        chosen (has_dependent_won fl i s) _ (
          IsOther-bind (attempt fl cache engine i user_id dependent_won s) k
            (attempt-IsOther dependent_won s) λ _ t. tt)
      where
        chosen :
            (c : Bool) (r : Result (PwinEffects Num) × Store Num)
            → IsOther r.0
            → IsOther (if c then r else (ok e, s)).0
        chosen true r h = h
        chosen false r h = tt

    revert_effects-IsOther :
        (reverted : Bool) (e : PwinEffects Num) (s : Store Num)
        → IsOther (revert_effects fl cache engine i user_id reverted e s).0
    unfolding revert_effects
    revert_effects-IsOther false e s = tt
    revert_effects-IsOther true e s =
        IsOther-bind (attempt fl cache engine i user_id base s)
          (λ tried. recalc_dependent fl cache engine i user_id (base_effects fl e tried))
          (attempt-IsOther base s) λ tried t. recalc_dependent-IsOther (base_effects fl e tried) t

    pub apply_patch-IsOther :
        (body : PursuitPatch Num) (x : Pursuit Num × Resolved) (s : Store Num)
        → IsOther (apply_patch fl cache engine i user_id body x s).0
    unfolding apply_patch set_fields
    apply_patch-IsOther body (existing, r) s =
        let row = set_fields body r user_id s.now existing in
        let u = write_fields i user_id body r s in
        let changed = is_some body.is_sole_source in
        let back = λ (e : PwinEffects Num). reverts body existing && not e.base_recalc_done in
        let m2 = λ (e : PwinEffects Num). revert_effects fl cache engine i user_id (back e) e in
        let k2 : PwinEffects Num → Tx (Store Num) (Patched Num) = λ effects. pure (record {
          row = row;
          dependency_cleared = clears_dependency body existing;
          effects = effects;
        }) in
        IsOther-bind (sole_source_effects fl cache engine i user_id changed row.is_sole_source u)
          (λ e. m2 e >>= k2) (sole_source_effects-IsOther changed row.is_sole_source u)
          λ e t. IsOther-bind (m2 e t) k2 (revert_effects-IsOther (back e) e t) λ _ w. tt
