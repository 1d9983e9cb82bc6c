-- ===== src/Bhptw/Submit.antt =====
-- What the submissions of api/app/routers/bhptw.py leave behind, accepted or refused.
use cpde_web.Prelude.{
  ℕ, ◌≡◌, refl, ◌≢◌, true, not, ◌&&◌, Option, none, some, is_some, if◌then◌else◌, ◌==◌,
}
use mathlib.Core.Path.{subst}
use cpde_web.Prelude.Num.{Float}
use cpde_web.Prelude.Monad.{Tx, Result, ok, http_exception, text, raise_if, or_raise, ◌>>=◌, ◌>>◌}
use cpde_web.Prelude.Ensures.{
  Ensures, Ensures-raise_if, Ensures-or_raise, Ensures-bind, Ensures-transaction,
}
use cpde_web.Store.{
  Scenario, dependent_won, AssessmentType, black_hat, ptw, Pursuit, Assessment, Store,
  QuestionOption,
}
use cpde_web.Store.Valid.{IsValid}
use cpde_web.Scope.Parse.{parse-Ensures}
use cpde_web.Scope.{IdText, uuid, parse_uuid, scoped_pursuit}
use cpde_web.Scoring.{Cache, resolve_fee}
use cpde_web.Assess.{new_row}
use cpde_web.Bhptw.Recorded.{IsRecorded, submit_row-IsRecorded, IsRecorded-other}
use cpde_web.Bhptw.Loads.{load-Ensures}
use cpde_web.Pwin.Answers.{pursuits-blend}
use cpde_web.Lifecycle.Closing.{IsHistory, IsHistory-update_where}
use cpde_web.Lifecycle.Closing.{IsHistory-pursuits}
use cpde_web.Assess.{append_current, demote_current, insert_assessment}
use cpde_web.Bhptw.{
  submit_row, recompute_complete, write_plan, set_plan, set_complete, Submitted, PtwIn, is_prob,
  p1_option, ptw_row, black_hat_row, BlackHatIn, is_dependent_won, precedes, load_pursuit, finish,
  submit_ptw, submit_black_hat, ptw_body_ok, black_hat_body_ok,
}

module _ (fl : Float) where
  open fl use {Num}

  -- A submission that was accepted: by whom it could be made, and what it recorded.
  pub record IsSubmission (type : AssessmentType) (pursuit_text : IdText) (scenario : Scenario)
      (b : Num) (user_id : ℕ) (s t : Store Num) : Type 0 where
    pub pursuit_id : ℕ
    pub is_pursuit : pursuit_text ≡ uuid pursuit_id
    pub pursuit : Pursuit Num
    pub in_scope : scoped_pursuit pursuit_id user_id s ≡ some pursuit
    pub is_open : pursuit.outcome ≡ none
    pub has_scenario : scenario ≡ dependent_won → pursuit.depends_on_pursuit_id ≢ none
    pub recorded : IsRecorded fl type pursuit_id scenario b pursuit.depends_on_pursuit_id s t
    pub history : IsHistory s → IsHistory t

  pursuits-submit_row :
      (dep : Option ℕ) (row : Assessment Num) (s : Store Num)
      → (submit_row fl dep row s).pursuits ≡ s.pursuits
  unfolding submit_row append_current demote_current insert_assessment
  pursuits-submit_row none row s = refl
  pursuits-submit_row (some p) row s = pursuits-blend fl row.pursuit_id p (append_current row s)

  finish-IsHistory :
      (pu : Pursuit Num) (user_id : ℕ) (fee : Num) (investment : Option Num) (row : Assessment Num)
      (s : Store Num)
      → IsHistory s
      → IsHistory (finish fl pu user_id fee investment row s).1
  unfolding finish recompute_complete
  finish-IsHistory pu user_id fee investment row s h =
      let u = submit_row fl pu.depends_on_pursuit_id row s in
      let w = write_plan fl row.pursuit_id fee investment user_id u in
      let q = λ (p : Pursuit Num). p.id == row.pursuit_id in
      IsHistory-pursuits refl (
        IsHistory-update_where q (set_complete _) w (λ p. refl) (λ p b. b)
          (IsHistory-update_where q (set_plan fl fee investment user_id u.now) u (λ p. refl)
            (λ p b. b) (IsHistory-pursuits (pursuits-submit_row pu.depends_on_pursuit_id row s) h)))

  finish-Ensures :
      (type : AssessmentType) (pu : Pursuit Num) (user_id : ℕ) (fee : Num) (investment : Option Num)
      (row : Assessment Num) (b : Num) (s : Store Num)
      → IsValid s
      → row.id ≡ s.next_id
      → row.is_current ≡ true
      → row.assessment_type ≡ type
      → row.base_pwin ≡ some b
      → row.pwin ≡ (
          if is_some pu.depends_on_pursuit_id && not (is_dependent_won row.scenario)
          then none
          else some b)
      → Ensures
          (λ a t. IsRecorded fl type row.pursuit_id row.scenario b pu.depends_on_pursuit_id s t)
          (λ t. Unit)
          (finish fl pu user_id fee investment row s)
  unfolding finish
  finish-Ensures type pu user_id fee investment row b s v fresh current typed has entered_pwin =
      IsRecorded-other fl _ _ (
        submit_row-IsRecorded fl type row b s v fresh current typed has pu.depends_on_pursuit_id
          entered_pwin)

  module _ (type : AssessmentType) (pursuit_text : IdText) (scenario : Scenario) (b : Num)
      (user_id : ℕ) (s : Store Num) (v : IsValid s) where
    abbrev Accepts : Submitted fl → Store Num → Type 0
    Accepts _ t = IsSubmission type pursuit_text scenario b user_id s t

    finish-Accepts :
        (i : ℕ) (pu : Pursuit Num) (fee : Num) (investment : Option Num) (row : Assessment Num)
        → pursuit_text ≡ uuid i
        → scoped_pursuit i user_id s ≡ some pu
        → pu.outcome ≡ none
        → (scenario ≡ dependent_won → pu.depends_on_pursuit_id ≢ none)
        → row.pursuit_id ≡ i
        → row.scenario ≡ scenario
        → row.id ≡ s.next_id
        → row.is_current ≡ true
        → row.assessment_type ≡ type
        → row.base_pwin ≡ some b
        → row.pwin ≡ (
            if is_some pu.depends_on_pursuit_id && not (is_dependent_won row.scenario)
            then none
            else some b)
        → Ensures Accepts (λ t. Unit) (finish fl pu user_id fee investment row s)
    unfolding finish
    finish-Accepts i pu fee investment row is_i found is_open has_dep of_i of_sc fresh current typed
          has entered_pwin =
        let r =
          finish-Ensures type pu user_id fee investment row b s v fresh current typed has
            entered_pwin in
        record {
          pursuit_id = i;
          is_pursuit = is_i;
          pursuit = pu;
          in_scope = found;
          is_open = is_open;
          has_scenario = has_dep;
          recorded =
              subst
                (λ j.
                  IsRecorded fl type j scenario b pu.depends_on_pursuit_id s
                    (finish fl pu user_id fee investment row s).1)
                of_i
                (subst
                  (λ sc.
                    IsRecorded fl type row.pursuit_id sc b pu.depends_on_pursuit_id s
                      (finish fl pu user_id fee investment row s).1)
                  of_sc r);
          history = finish-IsHistory pu user_id fee investment row s;
        }

  module _ (pursuit_text : IdText) (user_id : ℕ) (s : Store Num) (v : IsValid s) where
    -- In a store whose ids and current rows are unique, a PTW submission that is accepted is on a
    -- visible and open pursuit that has the scenario; its row is then the one current row of the
    -- pursuit and scenario, with the Pwin of the blend formula where a dependency asks for it, and
    -- no other current row moved but the blended BASE row; where pursuit ids are unique and every
    -- WON or LOST pursuit is BID, this holds again. A submission that is refused leaves the store
    -- as it was.
    pub submit_ptw-IsSubmission :
        (body : PtwIn fl)
        → Ensures
            (λ _ t. IsSubmission ptw pursuit_text body.scenario body.base_pwin user_id s t)
            (λ t. t ≡ s)
            (submit_ptw fl pursuit_text body user_id s)
    unfolding submit_ptw
    submit_ptw-IsSubmission body =
        let Q = Accepts ptw pursuit_text body.scenario body.base_pwin user_id s v in
        let E = λ (t : Store Num). Unit {0} in
        let early = text "completed date cannot be before B&P start" in
        let k3 = λ (i : ℕ) (pu : Pursuit Num). λ (u : Store Num).
          finish fl pu user_id body.margin_rate body.investment
            (ptw_row fl (is_some pu.depends_on_pursuit_id) body
              (new_row body.scenario ptw "analyst-entered" i user_id u))
            u in
        let k2 = λ (i : ℕ) (pu : Pursuit Num).
          raise_if (precedes body.completed_date pu.bp_start_date) 400 early >> k3 i pu in
        let k1 = λ (i : ℕ). load_pursuit i user_id body.scenario >>= k2 i in
        let k0 = parse_uuid pursuit_text >>= k1 in
        Ensures-transaction Q E
          (raise_if (not (ptw_body_ok fl body)) 422 (text "invalid body") >> k0) s
          (Ensures-raise_if Q E (not (ptw_body_ok fl body)) 422 (text "invalid body") k0 s tt λ _.
            parse-Ensures Q E pursuit_text k1 s tt λ i is_i.
              load-Ensures fl Q E i user_id body.scenario (k2 i) s tt λ pu found is_open has_dep.
                Ensures-raise_if Q E (precedes body.completed_date pu.bp_start_date) 400 early
                  (k3 i pu) s tt
                  λ _.
                    finish-Accepts ptw pursuit_text body.scenario body.base_pwin user_id s v i pu
                      body.margin_rate body.investment
                      (ptw_row fl (is_some pu.depends_on_pursuit_id) body
                        (new_row body.scenario ptw "analyst-entered" i user_id s))
                      is_i found is_open has_dep refl refl refl refl refl refl refl)

    resolve_fee-Ensures :
        {R B : Type 0} (Q : B → Store Num → Type 0) (E : Store Num → Type 0) (cache : Cache fl R)
        (contract_type_id : Option ℕ) (option_id : ℕ) (k : Num → Tx (Store Num) B)
        → E s
        → ((fee : Num) → Ensures Q E (k fee s))
        → Ensures Q E ((resolve_fee fl cache contract_type_id option_id >>= k) s)
    unfolding resolve_fee
    resolve_fee-Ensures Q E cache contract_type_id option_id k e h =
        Ensures-bind Q E (resolve_fee fl cache contract_type_id option_id) k s
          (of_result (resolve_fee fl cache contract_type_id option_id s).0)
      where
        of_result : (r : Result Num) → Ensures (λ fee t. Ensures Q E (k fee t)) E (r, s)
        of_result (ok fee) = h fee
        of_result (http_exception code detail) = e

    -- In a store whose ids and current rows are unique, a Black Hat submission that is accepted is
    -- on a visible and open pursuit that has the scenario; its row is then the one current row of
    -- the pursuit and scenario, with the Pwin of the blend formula where a dependency asks for it,
    -- and no other current row moved but the blended BASE row; where pursuit ids are unique and
    -- every WON or LOST pursuit is BID, this holds again. A submission that is refused leaves the
    -- store as it was.
    pub submit_black_hat-IsSubmission :
        {R : Type 0} (cache : Cache fl R) (body : BlackHatIn fl)
        → Ensures
            (λ _ t. IsSubmission black_hat pursuit_text body.scenario body.base_pwin user_id s t)
            (λ t. t ≡ s)
            (submit_black_hat fl cache pursuit_text body user_id s)
    unfolding submit_black_hat
    submit_black_hat-IsSubmission cache body =
        let Q = Accepts black_hat pursuit_text body.scenario body.base_pwin user_id s v in
        let E = λ (t : Store Num). Unit {0} in
        let early = text "completed date cannot be before B&P start" in
        let range = text "computed fee is out of range" in
        let unknown = text "unknown price aggressiveness option" in
        let row = λ (i : ℕ) (pu : Pursuit Num) (o : QuestionOption) (u : Store Num).
          black_hat_row fl (is_some pu.depends_on_pursuit_id) body o.id
            (new_row body.scenario black_hat "analyst-entered" i user_id u) in
        let k5 = λ (i : ℕ) (pu : Pursuit Num) (o : QuestionOption) (fee : Num).
          λ (u : Store Num). finish fl pu user_id fee body.investment (row i pu o u) u in
        let k4 = λ (i : ℕ) (pu : Pursuit Num) (o : QuestionOption) (fee : Num).
          raise_if (not (is_prob fl fee)) 400 range >> k5 i pu o fee in
        let k3 = λ (i : ℕ) (pu : Pursuit Num) (o : QuestionOption).
          resolve_fee fl cache pu.contract_type_id o.id >>= k4 i pu o in
        let k2 = λ (i : ℕ) (pu : Pursuit Num). λ (u : Store Num).
          (or_raise (p1_option fl cache body.aggressiveness_option_code u) 400 unknown >>= k3 i pu)
            u in
        let k1 = λ (i : ℕ) (pu : Pursuit Num).
          raise_if (precedes body.completed_date pu.bp_start_date) 400 early >> k2 i pu in
        let k0 = λ (i : ℕ). load_pursuit i user_id body.scenario >>= k1 i in
        Ensures-transaction Q E
          (raise_if (not (black_hat_body_ok fl body)) 422 (text "invalid body")
            >> (parse_uuid pursuit_text >>= k0))
          s
          (Ensures-raise_if Q E (not (black_hat_body_ok fl body)) 422 (text "invalid body")
            (parse_uuid pursuit_text >>= k0) s tt
            λ _. parse-Ensures Q E pursuit_text k0 s tt λ i is_i.
              load-Ensures fl Q E i user_id body.scenario (k1 i) s tt λ pu found is_open has_dep.
                Ensures-raise_if Q E (precedes body.completed_date pu.bp_start_date) 400 early
                  (k2 i pu) s tt
                  λ _.
                    Ensures-or_raise Q E (p1_option fl cache body.aggressiveness_option_code s) 400
                      unknown (k3 i pu) s tt
                      λ o is_o.
                        resolve_fee-Ensures Q E cache pu.contract_type_id o.id (k4 i pu o) tt λ fee.
                          Ensures-raise_if Q E (not (is_prob fl fee)) 400 range (k5 i pu o fee) s tt
                            λ _.
                              finish-Accepts black_hat pursuit_text body.scenario body.base_pwin
                                user_id s v i pu fee body.investment (row i pu o s) is_i found
                                is_open has_dep refl refl refl refl refl refl refl)
