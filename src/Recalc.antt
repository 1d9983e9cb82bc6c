-- ===== src/Recalc.antt =====
-- The recalculation of a Pwin from the questionnaire: recalculate_pwin of api/app/recalc.py, and
-- the two routes of api/app/routers/recalc.py. The engine is a parameter: what `call_run`
-- answers for a pursuit and a payload.
mod Tests
pub mod Rows
pub mod Recorded
pub mod Kept
use cpde_web.Prelude.{
  ℕ, String, Bool, true, false, Option, none, some, List, [], ◌∷◌, ◌++◌, ◌==◌, ◌&&◌, ◌||◌, not,
  str_eq, if◌then◌else◌, find?, any, all, is_some, keep, map, max,
}
use cpde_web.Prelude.Num.{Float}
use cpde_web.Prelude.Text.{Text, codes, text_beq}
use cpde_web.Prelude.Monad.{
  Tx, Result, ok, http_exception, text, pure, raise_if, gets, or_raise, modify, transaction, ◌>>=◌,
  ◌>>◌, ◌and_then◌, read, require, found,
}
use cpde_web.Store.{
  Scenario, base, dependent_won, questionnaire, Stage, pre_bh, post_bh, post_ptw, Pursuit,
  Assessment, Answer, AnswerValue, option, numeric, boolean, Store, QuestionOption, pursuit_of,
}
use cpde_web.Scope.{IdText, parse_uuid, scoped_pursuit}
use cpde_web.Scoring.{
  Cache, Scored, scored, table_error, Row, lookup, accumulate, scored_question_codes, resolve_fee,
  contract_type_of,
}
use cpde_web.Pwin.{apply_dependency_blend}
use cpde_web.Assess.{new_row, append_current}
use cpde_web.Bhptw.{is_dependent_won, reread}
use cpde_web.Questionnaire.{
  Given, by_code, given, label_of, text_or_empty, label, p1_option_id, copy_answers,
}

abbrev pub is_past_pre_bh : Option Stage → Bool
is_past_pre_bh none = false
is_past_pre_bh (some pre_bh) = false
is_past_pre_bh (some post_bh) = true
is_past_pre_bh (some post_ptw) = true

-- `max(int(pu["bidders"] or 1), 1)`
abbrev bidder_count : Option ℕ → ℕ
bidder_count none = 1
bidder_count (some n) = max n 1

abbrev contract_code : {N : Type 0} → Option N → (N → String) → Option String
contract_code none f = none
contract_code (some ct) f = some (f ct)

-- The validator of the preview refuses an unscored code.
labels_ok : Scored (List Text) → List (String × String) → Bool
labels_ok table_error labels = false
labels_ok (scored question_codes) labels =
    all (λ e. any (text_beq (codes e.0)) question_codes) labels

module _ (fl : Float) where
  open fl use {Num, add, mul, one, of_nat}

  -- What `/v1/run` gets.
  pub record Payload : Type 0 where
    pub uid : ℕ
    pub tech : Num
    pub mgmt : Num
    pub pp : Num
    pub client_bid_price : Num
    pub price_delta : Num
    pub cprice_delta : Num
    pub fee : Num
    pub contract_type : Option String
    pub p1_answer : Option String
    pub eval_type : String
    pub market : Option String
    pub bidders : ℕ

  pub data EngineAnswer : Type 0 where
    solved : (pwin : Num) → (solver_message : String) → EngineAnswer
    unsolved : (solver_message : String) → EngineAnswer
    credential_error : EngineAnswer
    unreachable : EngineAnswer

  pub record Recalculated : Type 0 where
    pub row : Option (Assessment Num)
    pub pwin : Num
    pub fee : Num
    pub solver_message : String

  -- `call_run`, with the errors as the handler words them.
  unfoldable pub run_result : EngineAnswer → Result (Num × String)
  run_result (solved pwin solver_message) = ok (pwin, solver_message)
  run_result (unsolved solver_message) = http_exception 502 (
      text (
        if str_eq solver_message ""
        then "the engine could not solve this pursuit"
        else solver_message))
  run_result credential_error =
      http_exception 502 (text "Could not authenticate to the Pwin engine")
  run_result unreachable = http_exception 502 (text "Could not reach the Pwin engine")

  abbrev pub fresh_row :
      Scenario → (pursuit_id user_id : ℕ) → (pwin : Num) → Store Num → Assessment Num
  fresh_row scenario pursuit_id user_id pwin s =
      record (new_row scenario questionnaire "engine:/v1/run" pursuit_id user_id s) {
        pwin = some pwin;
        base_pwin = some pwin;
      }

  abbrev pub blend_dependent : Option ℕ → ℕ → Store Num → Store Num
  blend_dependent none pursuit_id s = s
  blend_dependent (some predecessor_id) pursuit_id s =
      apply_dependency_blend fl pursuit_id predecessor_id s

  -- The writes: the demotion and the INSERT, the copies of the answers, and the blend.
  unfoldable pub record_row : Option ℕ → List (Given Num) → Assessment Num → Store Num → Store Num
  unfolding copy_answers
  record_row dep entries row s =
      blend_dependent dep row.pursuit_id (copy_answers row.id entries (append_current row s))

  module _ {Q : Type 0} (cache : Cache fl Q) where
    -- One scored question's row: TM5 is scored by the pursuit's type.
    abbrev delta_of : Pursuit Num → List (Given Num) → Text → Scored (Row fl)
    delta_of pu entries code =
        if text_beq code (codes "TM5")
        then lookup fl (codes "tm5") (label (codes "TM5") entries) (text_or_empty pu.type_group)
            cache
        else lookup fl code (label code entries) [] cache

    deltas : Pursuit Num → List (Given Num) → List Text → Scored (List (Row fl))
    deltas pu entries [] = scored []
    deltas pu entries (code ∷ rest) =
        let more = deltas pu entries rest in
        elim (delta_of pu entries code) [
          | table_error ↦ table_error
          | scored row ↦ elim more [ table_error ↦ table_error | scored rows ↦ scored (row ∷ rows) ]
        ]

    total_of : Scored (List Text) → Pursuit Num → List (Given Num) → Result (Row fl)
    unfolding deltas
    total_of table_error pu entries = http_exception 502 (text "Cannot recalculate right now")
    total_of (scored question_codes) pu entries = elim (deltas pu entries question_codes) [
      | table_error ↦ http_exception 502 (text "Cannot recalculate right now")
      | scored rows ↦ ok (accumulate fl rows)
    ]

    abbrev payload_of :
        Pursuit Num → List (Given Num) → (base_score : Num) → Row fl → Num → Store Num → Payload
    payload_of pu entries base_score total fee s = record {
      uid = pu.id;
      tech = add base_score total.tech;
      mgmt = add base_score total.mgmt;
      pp = add base_score total.pp;
      client_bid_price = mul (of_nat 100) (add one total.client_price);
      price_delta = total.client_price;
      cprice_delta = total.comp_price;
      fee = fee;
      contract_type = contract_code (contract_type_of fl pu.contract_type_id s) (λ ct. ct.code);
      p1_answer = label_of (given (codes "P1") entries);
      eval_type =
          if text_beq (label (codes "P2") entries) (codes "LPTA") then "LPTA" else "Best Value";
      market = pu.market_code;
      bidders = bidder_count pu.bidders;
    }

    -- What the engine gets, from the answers.
    unfoldable pub inputs : Pursuit Num → List (Given Num) → Store Num → Result Payload
    unfolding p1_option_id total_of
    inputs pu entries s =
        require (any (λ _. true) entries) 400
          (text "No questionnaire answers found for this pursuit")
        and_then λ _.
            found (p1_option_id entries s) 400
              (text "This pursuit has no P1 (price aggressiveness) answer")
            and_then λ option_id.
                total_of (scored_question_codes fl cache) pu entries and_then λ total.
                found cache.base_score 500 (text "Internal Server Error") and_then λ base_score.
                (resolve_fee fl cache pu.contract_type_id option_id s).0 and_then λ fee.
                ok (payload_of pu entries base_score total fee s)

    abbrev pub lacks_scenario : Scenario → Pursuit Num → Bool
    lacks_scenario scenario pu = is_dependent_won scenario && not (is_some pu.depends_on_pursuit_id)

    -- Everything before the call of the engine: it only reads.
    unfoldable pub prepare :
        Option (List (String × String))
        → (persist : Bool) → Scenario
        → (pursuit_id : ℕ) → Store Num
        → Result (Pursuit Num × List (Given Num) × Payload)
    unfolding by_code inputs
    prepare answers_override persist scenario pursuit_id s =
        let entries = by_code answers_override pursuit_id scenario s in
        found (pursuit_of pursuit_id s) 404 (text "pursuit not found") and_then λ pu.
        require (not (lacks_scenario scenario pu)) 400 (text "this pursuit has no dependency")
        and_then λ _.
            require (not (persist && is_past_pre_bh pu.stage_code)) 400
              (text "This pursuit is past Pre-BH")
            and_then λ _. inputs pu entries s and_then λ payload. ok (pu, entries, payload)

    module _ (engine : Pursuit Num → Payload → EngineAnswer) where
      -- The payload with the engine's answer to it.
      unfoldable pub run :
          Option (List (String × String))
          → (persist : Bool) → Scenario
          → (pursuit_id : ℕ) → Store Num
          → Result (Pursuit Num × List (Given Num) × Payload × Num × String)
      unfolding prepare run_result
      run answers_override persist scenario pursuit_id s =
          prepare answers_override persist scenario pursuit_id s and_then λ prepared.
          run_result (engine prepared.0 prepared.2) and_then λ answer.
          ok (prepared.0, prepared.1, prepared.2, answer.0, answer.1)

      unfoldable pub recalculate_pwin :
          Option (List (String × String))
          → (persist : Bool) → Scenario
          → (pursuit_id user_id : ℕ) → Tx (Store Num) Recalculated
      unfolding run record_row
      recalculate_pwin answers_override persist scenario pursuit_id user_id = do
        (pu, entries, payload, pwin, message) ←
            read (run answers_override persist scenario pursuit_id)
        row ← gets (fresh_row scenario pursuit_id user_id pwin)
        modify (λ t. if persist then record_row pu.depends_on_pursuit_id entries row t else t)
        answer ← gets (λ t.
            if is_some pu.depends_on_pursuit_id && not (is_dependent_won scenario)
            then reread fl row.id row t
            else row)
        pure (record {
          row = if persist then some answer else none;
          pwin = pwin;
          fee = payload.fee;
          solver_message = message;
        })

      -- `POST /pursuits/{pursuit_id}/recalculate`
      unfoldable pub recalculate : IdText → Scenario → (user_id : ℕ) → Tx (Store Num) Recalculated
      unfolding recalculate_pwin
      recalculate pursuit_text scenario user_id = transaction (do
        pursuit_id ← parse_uuid pursuit_text
        pu ← λ s. or_raise (scoped_pursuit pursuit_id user_id s) 404 (text "pursuit not found") s
        raise_if (is_some pu.outcome) 409 (text "pursuit is closed and cannot be edited")
        raise_if pu.is_sole_source 400
            (text "sole source pursuits use the 95% business rule, not the engine")
        recalculate_pwin none true scenario pursuit_id user_id)

      -- `POST /pursuits/{pursuit_id}/recalculate/preview`
      unfoldable pub recalculate_preview :
          IdText → List (String × String) → (user_id : ℕ) → Tx (Store Num) Recalculated
      unfolding recalculate_pwin labels_ok
      recalculate_preview pursuit_text labels user_id = transaction (do
        raise_if (not (labels_ok (scored_question_codes fl cache) labels)) 422
            (text "unscored question code(s)")
        pursuit_id ← parse_uuid pursuit_text
        pu ← λ s. or_raise (scoped_pursuit pursuit_id user_id s) 404 (text "pursuit not found") s
        recalculate_pwin (some labels) false base pursuit_id user_id)
