-- ===== src/Recalc/Rows.antt =====
-- The tables that the record of a recalculation (`recalculate_pwin` of api/app/recalc.py) leaves.
use cpde_web.Prelude.{ℕ, ◌≡◌, refl, Option, none, some, List}
use cpde_web.Prelude.Num.{Float}
use cpde_web.Store.{Assessment, Store}
use cpde_web.Pwin.Answers.{pursuits-blend}
use cpde_web.Assess.{append_current, demote_current, insert_assessment}
use cpde_web.Questionnaire.{Given, copy_answers}
use cpde_web.Recalc.{record_row}

module _ (fl : Float) where
  open fl use {Num}

  pub pursuits-record_row :
      (dep : Option ℕ) (entries : List (Given Num)) (row : Assessment Num) (s : Store Num)
      → (record_row fl dep entries row s).pursuits ≡ s.pursuits
  unfolding record_row copy_answers append_current demote_current insert_assessment
  pursuits-record_row none entries row s = refl
  pursuits-record_row (some p) entries row s =
      pursuits-blend fl row.pursuit_id p (copy_answers row.id entries (append_current row s))
