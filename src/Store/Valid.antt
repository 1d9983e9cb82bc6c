-- ===== src/Store/Valid.antt =====
-- The constraints of the schema that the handlers must keep.
use cpde_web.Prelude.{ℕ, ◌≤◌, ◌<◌, List, All, count, ◌==◌}
use cpde_web.Store.{Scenario, Assessment, Store, is_current_of}

-- `uq_pwin_current`: no pursuit has two current rows of one scenario.
abbrev pub HasOneCurrent : {N : Type 0} → List (Assessment N) → Type 0
HasOneCurrent rows = (pursuit_id : ℕ) (sc : Scenario) → count (is_current_of pursuit_id sc) rows ≤ 1

-- `id` is the primary key.
abbrev pub HasOneId : {N : Type 0} → List (Assessment N) → Type 0
HasOneId rows = (i : ℕ) → count (λ a. a.id == i) rows ≤ 1

-- Ids in use are below the next one.
abbrev pub HasOldIds : {N : Type 0} → ℕ → List (Assessment N) → Type 0
HasOldIds next rows = All (λ a. a.id < next) rows

pub record IsValid {N : Type 0} (s : Store N) : Type 0 where
  pub one_current : HasOneCurrent s.assessments
  pub one_id : HasOneId s.assessments
  pub old_ids : HasOldIds s.next_id s.assessments
