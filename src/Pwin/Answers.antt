-- ===== src/Pwin/Answers.antt =====
-- The blend of api/app/recalc.py beside the stored answers.
use cpde_web.Prelude.{ℕ, ◌≡◌, refl, Option, none, some, List}
use cpde_web.Prelude.Num.{Float}
use cpde_web.Store.{base, Assessment, Answer, Store, current_of}
use cpde_web.Pwin.{dep_factor, dep_win, apply_dependency_blend, blend_row}

module _ (fl : Float) (pursuit_id predecessor_id : ℕ) (s : Store fl.Num)
    (ws : List (Answer fl.Num)) where
  base_pwin_row :
      (row : Assessment fl.Num) (b : Option fl.Num)
      → row.base_pwin ≡ b
      → blend_row fl (some row) pursuit_id predecessor_id (record s { answers = ws })
        ≡ record (blend_row fl (some row) pursuit_id predecessor_id s) { answers = ws }
  unfolding blend_row dep_factor dep_win
  base_pwin_row row none e = rw e refl
  base_pwin_row row (some b) e = rw e refl

  found_row :
      (o : Option (Assessment fl.Num))
      → blend_row fl o pursuit_id predecessor_id (record s { answers = ws })
        ≡ record (blend_row fl o pursuit_id predecessor_id s) { answers = ws }
  unfolding blend_row
  found_row none = refl
  found_row (some row) = base_pwin_row row row.base_pwin refl

  pub blend-answers :
      apply_dependency_blend fl pursuit_id predecessor_id (record s { answers = ws })
      ≡ record (apply_dependency_blend fl pursuit_id predecessor_id s) { answers = ws }
  unfolding apply_dependency_blend
  blend-answers = found_row (current_of pursuit_id base s)

module _ (fl : Float) (pursuit_id predecessor_id : ℕ) (s : Store fl.Num) where
  pursuits_base :
      (row : Assessment fl.Num) (b : Option fl.Num)
      → row.base_pwin ≡ b
      → (blend_row fl (some row) pursuit_id predecessor_id s).pursuits ≡ s.pursuits
  unfolding blend_row
  pursuits_base row none e = rw e refl
  pursuits_base row (some b) e = rw e refl

  pursuits_row :
      (o : Option (Assessment fl.Num))
      → (blend_row fl o pursuit_id predecessor_id s).pursuits ≡ s.pursuits
  unfolding blend_row
  pursuits_row none = refl
  pursuits_row (some row) = pursuits_base row row.base_pwin refl

  pub pursuits-blend : (apply_dependency_blend fl pursuit_id predecessor_id s).pursuits ≡ s.pursuits
  unfolding apply_dependency_blend
  pursuits-blend = pursuits_row (current_of pursuit_id base s)
