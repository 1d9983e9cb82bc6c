-- ===== src/Recalc/Kept.antt =====
-- `recalculate_pwin` of api/app/recalc.py as the other handlers call it: what it leaves behind,
-- answered or refused.
use cpde_web.Prelude.{ℕ, ◌≡◌, refl, true, none, some}
use cpde_web.Prelude.Num.{Float}
use cpde_web.Prelude.Ensures.{Ensures}
use cpde_web.Store.{Scenario, questionnaire, Pursuit, Store, pursuit_of}
use cpde_web.Store.Valid.{IsValid}
use cpde_web.Scoring.{Cache}
use cpde_web.Bhptw.Recorded.{IsRecorded}
use cpde_web.Recalc.{Payload, EngineAnswer, Recalculated, fresh_row, recalculate_pwin}
use cpde_web.Recalc.Rows.{pursuits-record_row}
use cpde_web.Recalc.Recorded.{continued, run-Ensures, record_row-IsRecorded}

module _ (fl : Float) where
  open fl use {Num}

  -- A recalculation that was answered: the pursuit that was scored, and the recorded row.
  pub record IsRecalculated (i : ℕ) (scenario : Scenario) (s : Store Num) (pwin : Num)
      (t : Store Num) : Type 0 where
    pub scored : Pursuit Num
    pub is_scored : pursuit_of i s ≡ some scored
    pub recorded : IsRecorded fl questionnaire i scenario pwin scored.depends_on_pursuit_id s t
    pub same_pursuits : t.pursuits ≡ s.pursuits

  module _ {Q : Type 0} (cache : Cache fl Q)
      (engine : Pursuit Num → Payload fl → EngineAnswer fl) where
    pub recalculate_pwin-IsRecalculated :
        (scenario : Scenario) (i user_id : ℕ) (s : Store Num)
        → IsValid s
        → Ensures
            (λ a t. IsRecalculated i scenario s a.pwin t)
            (λ t. t ≡ s)
            (recalculate_pwin fl cache engine none true scenario i user_id s)
    unfolding recalculate_pwin continued
    recalculate_pwin-IsRecalculated scenario i user_id s v =
        let R = λ (a : Recalculated fl) (t : Store Num). IsRecalculated i scenario s a.pwin t in
        let E = λ (t : Store Num). t ≡ s in
        run-Ensures fl cache engine R E none true scenario i s
          (continued fl cache engine true scenario i user_id) refl
          λ x is_run.
            let row = fresh_row fl scenario i user_id x.3 s in
            record {
              scored = x.0;
              is_scored = is_run.0.0;
              recorded =
                  record_row-IsRecorded fl x.0.depends_on_pursuit_id x.1 row x.3 s v refl refl refl
                    refl refl;
              same_pursuits = pursuits-record_row fl x.0.depends_on_pursuit_id x.1 row s;
            }
