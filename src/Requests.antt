-- ===== src/Requests.antt =====
-- The requests that write a client's tables, one after the other, as the routers that api/app/main.py
-- includes serve them. The role check (Auth.require_role) has passed; what a request finds outside the
-- tables is its `Service`.
pub mod Sound
mod Tests
use cpde_web.Prelude.{ℕ, String, Bool, List, [], ◌∷◌}
use cpde_web.Prelude.Num.{Float}
use cpde_web.Prelude.Text.{Text}
use cpde_web.Store.{Scenario, Pursuit, ScopeAssignment, Store}
use cpde_web.Scope.{IdText}
use cpde_web.Scoring.{Cache}
use cpde_web.Bhptw.{BlackHatIn, PtwIn, submit_black_hat, submit_ptw}
use cpde_web.Recalc.{Payload, EngineAnswer, recalculate}
use cpde_web.Lifecycle.{OutcomeIn, set_bid, set_outcome}
use cpde_web.Patch.Body.{PursuitPatch}
use cpde_web.Patch.Plan.{References}
use cpde_web.Patch.Handler.{patch_pursuit}
use cpde_web.Answers.Spec.{Spec}
use cpde_web.Answers.Check.{QuestionnaireAnswersIn}
use cpde_web.Answers.Handler.{set_questionnaire_answers}
use cpde_web.Users.Body.{UserIn, UserPatch}
use cpde_web.Users.Handler.{create_user, update_user}

module _ (fl : Float) where
  open fl use {Num}

  -- The scoring cache, the engine, and the tables that no request writes.
  pub record Service : Type 0 where
    pub cache : Cache fl Spec
    pub engine : Pursuit Num → Payload fl → EngineAnswer fl
    pub references : References
    pub questions : List Text
    pub roles : List String
    pub order : List ScopeAssignment → List ScopeAssignment

  pub data Request : Type 0 where
    sets_bid : (pursuit_text : IdText) → (body : Bool) → Request
    sets_outcome : (pursuit_text : IdText) → OutcomeIn → Request
    submits_black_hat : (pursuit_text : IdText) → BlackHatIn fl → Request
    submits_ptw : (pursuit_text : IdText) → PtwIn fl → Request
    recalculates : (pursuit_text : IdText) → Scenario → Request
    patches_pursuit : (pursuit_text : IdText) → PursuitPatch Num → (is_admin : Bool) → Request
    sets_answers : (pursuit_text : IdText) → QuestionnaireAnswersIn → Request
    creates_user : UserIn → Request
    updates_user : (user_text : IdText) → UserPatch → Request

  -- What a request leaves of the tables.
  unfoldable pub serve : Service → Request → (user_id : ℕ) → Store Num → Store Num
  serve v (sets_bid pursuit_text body) user_id s = (set_bid pursuit_text body user_id s).1
  serve v (sets_outcome pursuit_text body) user_id s = (set_outcome pursuit_text body user_id s).1
  serve v (submits_black_hat pursuit_text body) user_id s =
      (submit_black_hat fl v.cache pursuit_text body user_id s).1
  serve v (submits_ptw pursuit_text body) user_id s = (submit_ptw fl pursuit_text body user_id s).1
  serve v (recalculates pursuit_text scenario) user_id s =
      (recalculate fl v.cache v.engine pursuit_text scenario user_id s).1
  serve v (patches_pursuit pursuit_text body is_admin) user_id s =
      (patch_pursuit fl v.cache v.engine v.references pursuit_text body user_id is_admin s).1
  serve v (sets_answers pursuit_text body) user_id s =
      (set_questionnaire_answers fl v.cache v.questions pursuit_text body user_id s).1
  serve v (creates_user body) user_id s = (create_user v.roles v.order body user_id s).1
  serve v (updates_user user_text body) user_id s =
      (update_user v.roles v.order user_text body user_id s).1

  -- A request with its caller, and the time and the service that it finds.
  pub record Call : Type 0 where
    pub service : Service
    pub request : Request
    pub user_id : ℕ
    pub at : ℕ

  unfoldable pub serve_all : List Call → Store Num → Store Num
  unfolding serve
  serve_all [] s = s
  serve_all (c ∷ calls) s =
      serve_all calls (serve c.service c.request c.user_id (record s { now = c.at }))
