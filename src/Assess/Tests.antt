-- ===== src/Assess/Tests.antt =====
-- The append-only write on the sample.
use cpde_web.Prelude.{ℕ, refl}
use cpde_web.Store.{base, ptw, Assessment}
use cpde_web.Store.Valid.{IsValid}
use cpde_web.Sample.{sample, sample-IsValid}
use cpde_web.Assess.{new_row, append_current}
use cpde_web.Assess.Laws.{append_current-IsValid}

abbrev fresh : Assessment ℕ
fresh = new_row base ptw "analyst-entered" 2 7 sample

append_current-IsValid_example : IsValid (append_current fresh sample)
append_current-IsValid_example = append_current-IsValid fresh sample refl sample-IsValid
