-- ===== src/Recalc/Recorded.antt =====
-- What a recalculation (api/app/recalc.py, api/app/routers/recalc.py) leaves behind, answered or not.
use mathlib.Core.Path.{subst}
use cpde_web.Prelude.{
  is_some-none, ℕ, String, ◌≡◌, refl, sym, Bool, true, false, not, ◌&&◌, Option, none, some, List,
  ◌++◌, is_some, if◌then◌else◌,
}
use cpde_web.Prelude.Num.{Float}
use cpde_web.Prelude.Monad.{
  Tx, Result, ok, http_exception, text, pure, raise_if, gets, or_raise, modify, ◌>>=◌, ◌>>◌,
  ◌and_then◌, read, require, found,
}
use cpde_web.Prelude.Ensures.{
  holds, require-true, found-some, same_state, Holds, Ensures, Ensures-raise_if, Ensures-or_raise,
  Ensures-transaction,
}
use cpde_web.Store.{Scenario, base, questionnaire, Pursuit, Assessment, Answer, Store, pursuit_of}
use cpde_web.Store.Valid.{IsValid}
use cpde_web.Scope.Parse.{parse-Ensures}
use cpde_web.Scope.{IdText, uuid, parse_uuid, scoped_pursuit}
use cpde_web.Scoring.{Cache}
use cpde_web.Pwin.{apply_dependency_blend}
use cpde_web.Pwin.Answers.{blend-answers}
use cpde_web.Assess.{append_current}
use cpde_web.Bhptw.{submit_row, is_dependent_won, reread}
use cpde_web.Bhptw.Recorded.{IsRecorded, kept_row-IsRecorded, IsRecorded-other}
use cpde_web.Questionnaire.{Given, by_code, copies, copy_answers}
use cpde_web.Recalc.Rows.{pursuits-record_row}
use cpde_web.Recalc.{
  inputs, lacks_scenario, Payload, EngineAnswer, Recalculated, solved, unsolved, credential_error,
  unreachable, is_past_pre_bh, run_result, prepare, run, fresh_row, record_row, recalculate_pwin,
  recalculate, recalculate_preview, labels_ok, scored_question_codes,
}

module _ (fl : Float) where
  open fl use {Num}

  pub record_row-IsRecorded :
      (dep : Option ℕ) (entries : List (Given Num)) (row : Assessment Num) (b : Num) (s : Store Num)
      → IsValid s
      → row.id ≡ s.next_id
      → row.is_current ≡ true
      → row.assessment_type ≡ questionnaire
      → row.base_pwin ≡ some b
      → row.pwin ≡ some b
      → IsRecorded fl questionnaire row.pursuit_id row.scenario b dep s
          (record_row fl dep entries row s)
  unfolding record_row copy_answers submit_row append_current
  record_row-IsRecorded dep entries row b s v fresh current typed has kept =
      shape dep (kept_row-IsRecorded fl questionnaire row b s v fresh current typed has dep kept)
    where
      ws : List (Answer Num)
      ws = s.answers ++ copies row.id entries

      shape :
          (d : Option ℕ)
          → IsRecorded fl questionnaire row.pursuit_id row.scenario b d s (submit_row fl d row s)
          → IsRecorded fl questionnaire row.pursuit_id row.scenario b d s
              (record_row fl d entries row s)
      shape none r = IsRecorded-other fl s.pursuits ws r
      shape (some p) r =
          subst (IsRecorded fl questionnaire row.pursuit_id row.scenario b (some p) s)
            (sym (blend-answers fl row.pursuit_id p (append_current row s) ws))
            (IsRecorded-other fl
              (apply_dependency_blend fl row.pursuit_id p (append_current row s)).pursuits ws r)

  module _ {Q : Type 0} (cache : Cache fl Q) where
    abbrev pub IsPreBh : Bool → ℕ → Store Num → Pursuit Num × List (Given Num) × Payload fl → Type 0
    IsPreBh persist i s x =
        (pursuit_of i s ≡ some x.0) × ((persist && is_past_pre_bh x.0.stage_code) ≡ false)

    prepare-IsPreBh :
        (labels : Option (List (String × String))) (persist : Bool) (scenario : Scenario) (i : ℕ)
        (s : Store Num)
        → Holds (IsPreBh persist i s) (prepare fl cache labels persist scenario i s)
    unfolding prepare
    prepare-IsPreBh labels persist scenario i s =
        let P = IsPreBh persist i s in
        let entries = by_code labels i scenario s in
        let k2 : Pursuit Num → Payload fl → Result (Pursuit Num × List (Given Num) × Payload fl) =
          λ p payload. ok (p, entries, payload) in
        let k1 = λ (p : Pursuit Num) (_ : Unit {0}). inputs fl cache p entries s and_then k2 p in
        let early = text "This pursuit is past Pre-BH" in
        let k0 = λ (p : Pursuit Num) (_ : Unit {0}).
          require (not (persist && is_past_pre_bh p.stage_code)) 400 early and_then k1 p in
        let lacking = text "this pursuit has no dependency" in
        let k = λ (p : Pursuit Num).
          require (not (lacks_scenario fl cache scenario p)) 400 lacking and_then k0 p in
        let missing = text "pursuit not found" in
        holds P (found (pursuit_of i s) 404 missing) k λ p e0.
          holds P (require (not (lacks_scenario fl cache scenario p)) 400 lacking) (k0 p) λ _ _.
            holds P (require (not (persist && is_past_pre_bh p.stage_code)) 400 early) (k1 p)
              λ u e2. holds P (inputs fl cache p entries s) (k2 p) λ payload _. (
                found-some (pursuit_of i s) 404 missing p e0,
                require-true (persist && is_past_pre_bh p.stage_code) 400 early u e2,
              )

    run_result-solved :
        (answer : EngineAnswer fl) (pwin : Num) (message : String)
        → run_result fl answer ≡ ok (pwin, message)
        → answer ≡ solved pwin message
    unfolding run_result
    run_result-solved (solved p m) pwin message h = cc
    run_result-solved (unsolved m) pwin message h = cc
    run_result-solved credential_error pwin message h = cc
    run_result-solved unreachable pwin message h = cc

    module _ (engine : Pursuit Num → Payload fl → EngineAnswer fl) where
      -- What a recalculation that was answered has done.
      pub record IsRecalculation (pursuit_text : IdText) (scenario : Scenario) (user_id : ℕ)
          (s : Store Num) (a : Recalculated fl) (t : Store Num) : Type 0 where
        pub pursuit_id : ℕ
        pub is_pursuit : pursuit_text ≡ uuid pursuit_id
        pub visible : Pursuit Num
        pub in_scope : scoped_pursuit pursuit_id user_id s ≡ some visible
        pub is_open : visible.outcome ≡ none
        pub competed : visible.is_sole_source ≡ false
        pub scored : Pursuit Num
        pub is_scored : pursuit_of pursuit_id s ≡ some scored
        pub pre_bh : is_past_pre_bh scored.stage_code ≡ false
        pub payload : Payload fl
        pub is_answer : engine scored payload ≡ solved a.pwin a.solver_message
        pub recorded :
            IsRecorded fl questionnaire pursuit_id scenario a.pwin scored.depends_on_pursuit_id s t
        pub same_pursuits : t.pursuits ≡ s.pursuits

      abbrev pub IsRun :
          Bool → ℕ → Store Num → Pursuit Num × List (Given Num) × Payload fl × Num × String → Type 0
      IsRun persist i s (pu, entries, payload, pwin, message) =
          IsPreBh persist i s (pu, entries, payload) × (engine pu payload ≡ solved pwin message)

      run-IsRun :
          (labels : Option (List (String × String))) (persist : Bool) (scenario : Scenario) (i : ℕ)
          (s : Store Num)
          → Holds (IsRun persist i s) (run fl cache engine labels persist scenario i s)
      unfolding run
      run-IsRun labels persist scenario i s =
          let P = IsRun persist i s in
          let k1 : Pursuit Num × List (Given Num) × Payload fl
              → Num × String
              → Result (Pursuit Num × List (Given Num) × Payload fl × Num × String) =
            λ x answer. ok (x.0, x.1, x.2, answer.0, answer.1) in
          let k0 = λ (x : Pursuit Num × List (Given Num) × Payload fl).
            run_result fl (engine x.0 x.2) and_then k1 x in
          holds P (prepare fl cache labels persist scenario i s) k0 λ prepared e0.
            holds P (run_result fl (engine prepared.0 prepared.2)) (k1 prepared) λ answer e1. (
              subst (Holds (IsPreBh persist i s)) e0 (prepare-IsPreBh labels persist scenario i s),
              run_result-solved (engine prepared.0 prepared.2) answer.0 answer.1 e1,
            )

      -- How `recalculate_pwin` goes on from the engine's answer.
      unfoldable pub continued :
          (persist : Bool)
          → Scenario
          → (i user_id : ℕ) → Pursuit Num × List (Given Num) × Payload fl × Num × String
          → Tx (Store Num) (Recalculated fl)
      continued persist scenario i user_id (pu, entries, payload, pwin, message) = do
        row ← gets (fresh_row fl scenario i user_id pwin)
        modify (λ t. if persist then record_row fl pu.depends_on_pursuit_id entries row t else t)
        answer ← gets (λ t.
            if is_some pu.depends_on_pursuit_id && not (is_dependent_won scenario)
            then reread fl row.id row t
            else row)
        pure (record {
          row = if persist then some answer else none;
          pwin = pwin;
          fee = payload.fee;
          solver_message = message;
        })

      -- The step that reads leaves the store alone.
      pub run-Ensures :
          {B : Type 0} (R : B → Store Num → Type 0) (E : Store Num → Type 0)
          (labels : Option (List (String × String))) (persist : Bool) (scenario : Scenario) (i : ℕ)
          (s : Store Num)
          (k : Pursuit Num × List (Given Num) × Payload fl × Num × String → Tx (Store Num) B)
          → E s
          → ((x : Pursuit Num × List (Given Num) × Payload fl × Num × String)
              → IsRun persist i s x
              → Ensures R E (k x s))
          → Ensures R E ((read (run fl cache engine labels persist scenario i) >>= k) s)
      run-Ensures R E labels persist scenario i s k e h =
          of_result (run fl cache engine labels persist scenario i s)
            (run-IsRun labels persist scenario i s)
        where
          of_result :
              (r : Result (Pursuit Num × List (Given Num) × Payload fl × Num × String))
              → Holds (IsRun persist i s) r
              → Ensures R E ((read (λ _. r) >>= k) s)
          of_result (ok x) is_run = h x is_run
          of_result (http_exception code detail) is_run = e

      module _ (pursuit_text : IdText) (user_id : ℕ) (s : Store Num) where
        -- In a store whose ids and current rows are unique, a recalculation that is answered is on
        -- a visible, open and competed pursuit that is not past Pre-BH, and the engine has solved
        -- it; the Pwin of the engine is then recorded in the one current row of the pursuit and
        -- scenario, blended where a dependency asks for it, no other current row moved but the
        -- blended BASE row, and no pursuit is changed; a recalculation that is refused leaves the
        -- store as it was.
        pub recalculate-IsRecalculation :
            (scenario : Scenario)
            → IsValid s
            → Ensures
                (IsRecalculation pursuit_text scenario user_id s)
                (λ t. t ≡ s)
                (recalculate fl cache engine pursuit_text scenario user_id s)
        unfolding recalculate recalculate_pwin continued
        recalculate-IsRecalculation scenario v =
            let R = IsRecalculation pursuit_text scenario user_id s in
            let E = λ (t : Store Num). Unit {0} in
            let closed = text "pursuit is closed and cannot be edited" in
            let sole = text "sole source pursuits use the 95% business rule, not the engine" in
            let missing = text "pursuit not found" in
            let k2 = λ (i : ℕ). recalculate_pwin fl cache engine none true scenario i user_id in
            let k1 = λ (i : ℕ) (pu : Pursuit Num). raise_if pu.is_sole_source 400 sole >> k2 i in
            let k0 =
              λ (i : ℕ) (pu : Pursuit Num). raise_if (is_some pu.outcome) 409 closed >> k1 i pu in
            let k = λ (i : ℕ).
              λ (u : Store Num). (or_raise (scoped_pursuit i user_id u) 404 missing >>= k0 i) u in
            let k3 : ℕ
                → Pursuit Num × List (Given Num) × Payload fl × Num × String
                → Tx (Store Num) (Recalculated fl) =
              λ i x. continued true scenario i user_id x in
            Ensures-transaction R E (parse_uuid pursuit_text >>= k) s (
              parse-Ensures R E pursuit_text k s tt λ i is_i.
                Ensures-or_raise R E (scoped_pursuit i user_id s) 404 missing (k0 i) s tt
                  λ pu in_scope.
                    Ensures-raise_if R E (is_some pu.outcome) 409 closed (k1 i pu) s tt
                      λ open_outcome.
                        Ensures-raise_if R E pu.is_sole_source 400 sole (k2 i) s tt λ competed.
                          run-Ensures R E none true scenario i s (k3 i) tt λ x is_run. record {
                            pursuit_id = i;
                            is_pursuit = is_i;
                            visible = pu;
                            in_scope = in_scope;
                            is_open = is_some-none pu.outcome open_outcome;
                            competed = competed;
                            scored = x.0;
                            is_scored = is_run.0.0;
                            pre_bh = is_run.0.1;
                            payload = x.2;
                            is_answer = is_run.1;
                            recorded =
                                record_row-IsRecorded x.0.depends_on_pursuit_id x.1
                                  (fresh_row fl scenario i user_id x.3 s) x.3 s v refl refl refl
                                  refl refl;
                            same_pursuits =
                                pursuits-record_row fl x.0.depends_on_pursuit_id x.1
                                  (fresh_row fl scenario i user_id x.3 s) s;
                          })

        -- A preview leaves the store as it was, whatever it answers.
        pub recalculate_preview_reads :
            (labels : List (String × String))
            → (recalculate_preview fl cache engine pursuit_text labels user_id s).1 ≡ s
        unfolding recalculate_preview recalculate_pwin continued
        recalculate_preview_reads labels =
            let R = λ (_ : Recalculated fl) (t : Store Num). t ≡ s in
            let E = λ (t : Store Num). Unit {0} in
            let unscored = text "unscored question code(s)" in
            let missing = text "pursuit not found" in
            let k2 : ℕ → Pursuit Num → Tx (Store Num) (Recalculated fl) =
              λ i pu. recalculate_pwin fl cache engine (some labels) false base i user_id in
            let k1 : ℕ → Tx (Store Num) (Recalculated fl) =
              λ i u. (or_raise (scoped_pursuit i user_id u) 404 missing >>= k2 i) u in
            let c = not (labels_ok (scored_question_codes fl cache) labels) in
            same_state (recalculate_preview fl cache engine pursuit_text labels user_id s) (
              Ensures-transaction R E (raise_if c 422 unscored >> (parse_uuid pursuit_text >>= k1))
                s
                (Ensures-raise_if R E c 422 unscored (parse_uuid pursuit_text >>= k1) s tt λ _.
                  parse-Ensures R E pursuit_text k1 s tt λ i _.
                    Ensures-or_raise R E (scoped_pursuit i user_id s) 404 missing (k2 i) s tt
                      λ pu _.
                        run-Ensures R E (some labels) false base i s
                          (continued false base i user_id) tt λ x _. refl))
