-- ===== src/Patch/Kept.antt =====
-- The effects of `patch_pursuit` (api/app/routers/write.py) on the Pwin: none refuses the edit, none touches
-- a pursuit, and the constraints on the assessments hold after each.
use mathlib.Core.Path.{subst}
use mathlib.Core.Option
use cpde_web.Prelude.{
  ℕ, ◌≡◌, refl, sym, ap, ◌∙◌, Bool, true, false, Option, none, some, any, update_where,
  if◌then◌else◌, Bool-cases, inl, inr,
}
use cpde_web.Prelude.Num.{Float}
use cpde_web.Prelude.Monad.{Tx, Result, Detail, pure, ◌>>=◌}
use cpde_web.Prelude.Ensures.{Ensures, Ensures-bind, Ensures-catch, weaken}
use cpde_web.Store.{
  Scenario, base, dependent_won, Pursuit, Assessment, Store, is_current_of, current_of,
}
use cpde_web.Store.Valid.{IsValid}
use cpde_web.Store.Rows.{any-find?}
use cpde_web.Scoring.{Cache}
use cpde_web.Assess.{insert_assessment}
use cpde_web.Assess.Insert.{insert-IsValid, insert-append, update-IsValid, current_of-update}
use cpde_web.Assess.Laws.{current_of-append}
use cpde_web.Recalc.{Payload, EngineAnswer, Recalculated, recalculate_pwin}
use cpde_web.Recalc.Kept.{IsRecalculated, recalculate_pwin-IsRecalculated}
use cpde_web.Patch.Effects.{
  Attempt, recalculated, refused, PwinEffects, sole_source_pwin, set_sole, sole_row, turn_on,
  stale_row, off_effects, base_effects, dependent_effects, has_dependent_won, attempt, turn_off_row,
  turn_off, sole_source_effects, recalc_dependent, revert_effects,
}

module _ (fl : Float) where
  open fl use {Num}

  -- What every effect keeps.
  pub record IsKept (s t : Store Num) : Type 0 where
    pub same_pursuits : t.pursuits ≡ s.pursuits
    pub valid : IsValid t

  pub IsKept-refl : (s : Store Num) → IsValid s → IsKept s s
  IsKept-refl s v = record { same_pursuits = refl; valid = v }

  pub IsKept-trans : {s t u : Store Num} → IsKept s t → IsKept t u → IsKept s u
  IsKept-trans a b = record { same_pursuits = b.same_pursuits ∙ a.same_pursuits; valid = b.valid }

  -- What an exception leaves is undone with the request.
  abbrev pub AnyState : Store Num → Type 0
  AnyState t = Unit {0}

  -- What holds unless an exception passes that is no HTTPException.
  abbrev pub Answers : {A : Type 0} → (A → Store Num → Type 0) → Result A × Store Num → Type 0
  Answers Q r = Ensures Q AnyState r

  pub turn_on-IsKept :
      (i user_id : ℕ) (s : Store Num) → IsValid s → IsKept s (turn_on fl i user_id s)
  unfolding turn_on insert_assessment
  turn_on-IsKept i user_id s v = of_test (any (is_current_of i base) s.assessments) refl
    where
      of_test :
          (b : Bool)
          → any (is_current_of i base) s.assessments ≡ b
          → IsKept s (
              if b
              then record s {
                assessments =
                    update_where (is_current_of i base) (set_sole fl user_id s.now) s.assessments;
              }
              else insert_assessment (sole_row fl i user_id s) s)
      of_test true e = record {
        same_pursuits = refl;
        valid =
            update-IsValid (is_current_of i base) (set_sole fl user_id s.now) (λ a. refl)
              (λ j sc a. refl) s v;
      }
      of_test false e = record {
        same_pursuits = refl;
        valid = insert-IsValid (sole_row fl i user_id s) s refl (λ _. e) v;
      }

  -- The current BASE row is that of the sole source rule.
  pub record IsSole (i : ℕ) (t : Store Num) : Type 0 where
    pub row : Assessment Num
    pub is_latest : current_of i base t ≡ some row
    pub has_pwin : row.pwin ≡ some (sole_source_pwin fl)
    pub has_blend : row.blended_pwin ≡ some (sole_source_pwin fl)
    pub flagged : row.is_sole_source_pwin ≡ true

  pub turn_on-IsSole : (i user_id : ℕ) (s : Store Num) → IsSole i (turn_on fl i user_id s)
  unfolding turn_on
  turn_on-IsSole i user_id s = elim (Bool-cases (any (is_current_of i base) s.assessments)) [
    | inl some_row ↦
        let (a, found, hit) = any-find? (is_current_of i base) s.assessments some_row in
        record {
          row = set_sole fl user_id s.now a;
          is_latest = rw some_row (
              current_of-update i base (set_sole fl user_id s.now) (λ x. refl) s
              ∙ ap (Option.map (set_sole fl user_id s.now)) found);
          has_pwin = refl;
          has_blend = refl;
          flagged = refl;
        }
    | inr no_row ↦
        let row = sole_row fl i user_id s in
        record {
          row = row;
          is_latest =
              rw no_row (
                ap (current_of i base) (insert-append row s no_row) ∙ current_of-append row s refl);
          has_pwin = refl;
          has_blend = refl;
          flagged = refl;
        }
  ]

  abbrev pub IsAttempt : (i : ℕ) → Scenario → Store Num → Attempt Num → Store Num → Type 0
  IsAttempt i scenario s (recalculated pwin) t = IsRecalculated fl i scenario s pwin t
  IsAttempt i scenario s (refused detail) t = t ≡ s

  pub IsAttempt-IsKept :
      (i : ℕ) (scenario : Scenario) (s t : Store Num) (a : Attempt Num)
      → IsValid s
      → IsAttempt i scenario s a t
      → IsKept s t
  IsAttempt-IsKept i scenario s t (recalculated pwin) v h = record {
    same_pursuits = h.same_pursuits;
    valid = h.recorded.valid;
  }
  IsAttempt-IsKept i scenario s t (refused detail) v h = subst (IsKept s) (sym h) (IsKept-refl s v)

  -- The sole source rule is what the first effect leaves, if it is turned on.
  pub record IsSoleKept (i : ℕ) (sole_changed is_sole_source : Bool) (s t : Store Num)
      : Type 0 where
    pub kept : IsKept s t
    pub sole : sole_changed ≡ true → is_sole_source ≡ true → IsSole i t

  -- A revert that does not happen changes nothing.
  pub record IsRevertKept (reverted : Bool) (s t : Store Num) : Type 0 where
    pub kept : IsKept s t
    pub idle : reverted ≡ false → t ≡ s

  module _ {Q : Type 0} (cache : Cache fl Q) (engine : Pursuit Num → Payload fl → EngineAnswer fl)
      (i user_id : ℕ) where
    pub attempt-IsAttempt :
        (scenario : Scenario) (s : Store Num)
        → IsValid s
        → Answers (IsAttempt i scenario s) (attempt fl cache engine i user_id scenario s)
    unfolding attempt
    attempt-IsAttempt scenario s v =
        let m = recalculate_pwin fl cache engine none true scenario i user_id in
        let k : Recalculated fl → Tx (Store Num) (Attempt Num) = λ r. pure (recalculated r.pwin) in
        let handler : Detail → Tx (Store Num) (Attempt Num) = λ detail. pure (refused detail) in
        Ensures-catch (IsAttempt i scenario s) (λ t. t ≡ s) AnyState (m >>= k) handler s
          (Ensures-bind (IsAttempt i scenario s) (λ t. t ≡ s) m k s
            (recalculate_pwin-IsRecalculated fl cache engine scenario i user_id s v))
          (λ t e. tt) λ detail t e. e

    -- The result is `e` and what was kept.
    keeps_answer :
        (scenario : Scenario) (s : Store Num) (k : Attempt Num → PwinEffects Num)
        → IsValid s
        → Answers
            (λ _ t. IsKept s t)
            ((attempt fl cache engine i user_id scenario >>= λ tried. pure (k tried)) s)
    keeps_answer scenario s k v =
        let f : Attempt Num → Tx (Store Num) (PwinEffects Num) = λ tried. pure (k tried) in
        Ensures-bind (λ _ t. IsKept s t) AnyState (attempt fl cache engine i user_id scenario) f s
          (weaken (IsAttempt i scenario s) (λ _ t. IsKept s t) AnyState
            (λ a t h. IsAttempt-IsKept i scenario s t a v h)
            (attempt fl cache engine i user_id scenario s) (attempt-IsAttempt scenario s v))

    turn_off_row-IsKept :
        (o : Option (Assessment Num)) (s : Store Num)
        → IsValid s
        → Answers (λ _ t. IsKept s t) (turn_off_row fl cache engine i user_id o s)
    unfolding turn_off_row
    turn_off_row-IsKept none s v = IsKept-refl s v
    turn_off_row-IsKept (some a) s v = keeps_answer base s (off_effects fl a.pwin) v

    turn_off-IsKept :
        (s : Store Num)
        → IsValid s
        → Answers (λ _ t. IsKept s t) (turn_off fl cache engine i user_id s)
    unfolding turn_off
    turn_off-IsKept s v = turn_off_row-IsKept (stale_row fl i s) s v

    pub sole_source_effects-IsSoleKept :
        (changed sole : Bool) (s : Store Num)
        → IsValid s
        → Answers
            (λ _ t. IsSoleKept i changed sole s t)
            (sole_source_effects fl cache engine i user_id changed sole s)
    unfolding sole_source_effects
    sole_source_effects-IsSoleKept false sole s v = record {
      kept = IsKept-refl s v;
      sole = λ e f. cc;
    }
    sole_source_effects-IsSoleKept true true s v = record {
      kept = turn_on-IsKept i user_id s v;
      sole = λ _ _. turn_on-IsSole i user_id s;
    }
    sole_source_effects-IsSoleKept true false s v =
        weaken (λ _ t. IsKept s t) (λ _ t. IsSoleKept i true false s t) AnyState
          (λ _ t h. record { kept = h; sole = λ e f. cc }) (turn_off fl cache engine i user_id s)
          (turn_off-IsKept s v)

    recalc_dependent-IsKept :
        (e : PwinEffects Num) (s : Store Num)
        → IsValid s
        → Answers (λ _ t. IsKept s t) (recalc_dependent fl cache engine i user_id e s)
    unfolding recalc_dependent
    recalc_dependent-IsKept e s v = elim (Bool-cases (has_dependent_won fl i s)) [
      | inl yes_row ↦ rw yes_row (keeps_answer dependent_won s (dependent_effects fl e) v)
      | inr no_row ↦ rw no_row (IsKept-refl s v)
    ]

    pub revert_effects-IsRevertKept :
        (reverted : Bool) (e : PwinEffects Num) (s : Store Num)
        → IsValid s
        → Answers
            (λ _ t. IsRevertKept reverted s t)
            (revert_effects fl cache engine i user_id reverted e s)
    unfolding revert_effects
    revert_effects-IsRevertKept false e s v = record { kept = IsKept-refl s v; idle = λ _. refl }
    revert_effects-IsRevertKept true e s v =
        let R = λ (_ : PwinEffects Num) (t : Store Num). IsRevertKept true s t in
        let m = attempt fl cache engine i user_id base in
        let k : Attempt Num → Tx (Store Num) (PwinEffects Num) =
          λ tried. recalc_dependent fl cache engine i user_id (base_effects fl e tried) in
        Ensures-bind R AnyState m k s (
          weaken (IsAttempt i base s) (λ a t. Ensures R AnyState (k a t)) AnyState
            (λ a t h.
              let kept = IsAttempt-IsKept i base s t a v h in
              weaken (λ _ u. IsKept t u) R AnyState
                (λ _ u g. record { kept = IsKept-trans kept g; idle = λ f. cc }) (k a t)
                (recalc_dependent-IsKept (base_effects fl e a) t kept.valid))
            (m s) (attempt-IsAttempt base s v))
