-- ===== src/Patch/Handler.antt =====
-- The endpoint `patch_pursuit` of api/app/routers/write.py.
use cpde_web.Prelude.{ℕ, Bool, ◌&&◌, not, is_some, update_where}
use cpde_web.Prelude.Num.{Float}
use cpde_web.Prelude.Monad.{Tx, text, pure, raise_if, modify, transaction, read, ◌>>=◌, ◌>>◌}
use cpde_web.Store.{Pursuit, Store}
use cpde_web.Scope.{IdText, parse_uuid}
use cpde_web.Scoring.{Cache}
use cpde_web.Recalc.{Payload, EngineAnswer}
use cpde_web.Lifecycle.{names}
use cpde_web.Patch.Body.{PursuitPatch, is_accepted_patch}
use cpde_web.Patch.Plan.{References, Resolved, clears_dependency, set_fields, plan}
use cpde_web.Patch.Effects.{PwinEffects, reverts, sole_source_effects, revert_effects}

-- The row of the response.
pub record Patched (N : Type 0) : Type 0 where
  pub row : Pursuit N
  pub dependency_cleared : Bool
  pub effects : PwinEffects N

module _ {N : Type 0} where
  -- `UPDATE pursuit p SET {sets} ... WHERE p.id = %s AND {SCOPED}`
  unfoldable pub write_fields :
      (pursuit_id user_id : ℕ) → PursuitPatch N → Resolved → Store N → Store N
  unfolding set_fields
  write_fields pursuit_id user_id body r s = record s {
    pursuits =
        update_where (names pursuit_id user_id s) (set_fields body r user_id s.now) s.pursuits;
  }

module _ (fl : Float) where
  open fl use {Num}

  module _ {Q : Type 0} (cache : Cache fl Q)
      (engine : Pursuit Num → Payload fl → EngineAnswer fl) where
    -- From the UPDATE on.
    unfoldable pub apply_patch :
        (pursuit_id user_id : ℕ)
        → PursuitPatch Num
        → Pursuit Num × Resolved
        → Tx (Store Num) (Patched Num)
    unfolding write_fields sole_source_effects revert_effects
    apply_patch pursuit_id user_id body (existing, r) s =
        let row = set_fields body r user_id s.now existing in
        (do
          modify (write_fields pursuit_id user_id body r)
          e ←
              sole_source_effects fl cache engine pursuit_id user_id (is_some body.is_sole_source)
                row.is_sole_source
          effects ←
              revert_effects fl cache engine pursuit_id user_id
                (reverts body existing && not e.base_recalc_done) e
          pure (record {
            row = row;
            dependency_cleared = clears_dependency body existing;
            effects = effects;
          }))
          s

    unfoldable pub patch_pursuit :
        References
        → IdText
        → PursuitPatch Num
        → (user_id : ℕ) → (is_admin : Bool) → Tx (Store Num) (Patched Num)
    unfolding apply_patch plan is_accepted_patch
    patch_pursuit refs pursuit_text body user_id is_admin = transaction (do
      raise_if (not (is_accepted_patch fl body)) 422 (text "the body is not valid")
      i ← parse_uuid pursuit_text
      planned ← read (plan refs i user_id is_admin body)
      apply_patch i user_id body planned)
