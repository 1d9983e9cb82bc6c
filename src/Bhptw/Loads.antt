-- ===== src/Bhptw/Loads.antt =====
-- What `_load_pursuit` has checked of the pursuit that it returns.
use cpde_web.Prelude.{
  is_some-none, ℕ, ◌≡◌, refl, sym, ◌≢◌, false, not, ◌&&◌, Option, none, some, ◌==◌, any, is_some,
}
use mathlib.Core.Path.{subst}
use cpde_web.Prelude.Num.{Float}
use cpde_web.Prelude.Monad.{Tx, Result, ok, http_exception, text, pure, raise_if, ◌>>=◌, ◌>>◌}
use cpde_web.Prelude.Ensures.{Ensures, Ensures-raise_if, Ensures-or_raise, Ensures-bind}
use cpde_web.Store.{Scenario, base, dependent_won, Pursuit, Store, is_questionnaire}
use cpde_web.Scope.{scoped_pursuit}
use cpde_web.Bhptw.{is_dependent_won, load_pursuit}

module _ (fl : Float) where
  open fl use {Num}

  abbrev IsLoaded : ℕ → ℕ → Scenario → Store Num → Pursuit Num → Store Num → Type 0
  IsLoaded pursuit_id user_id sc s pu t =
      (t ≡ s)
      × (scoped_pursuit pursuit_id user_id s ≡ some pu)
      × (pu.outcome ≡ none)
      × (sc ≡ dependent_won → pu.depends_on_pursuit_id ≢ none)

  needs_dep :
      (sc : Scenario) (dep : Option ℕ)
      → (is_dependent_won sc && not (is_some dep)) ≡ false
      → sc ≡ dependent_won
      → dep ≢ none
  needs_dep base dep e is_dw n = cc
  needs_dep dependent_won none e is_dw n = cc
  needs_dep dependent_won (some p) e is_dw n = cc

  load_lem :
      (pursuit_id user_id : ℕ) (sc : Scenario) (s : Store Num)
      → Ensures
          (IsLoaded pursuit_id user_id sc s)
          (λ t. t ≡ s)
          (load_pursuit pursuit_id user_id sc s)
  unfolding load_pursuit
  load_lem pursuit_id user_id sc s =
      let Q = IsLoaded pursuit_id user_id sc s in
      let E = λ (t : Store Num). t ≡ s in
      let answered =
        any (λ a. a.pursuit_id == pursuit_id && is_questionnaire a.assessment_type) s.assessments in
      let unanswered =
        text "Complete the Pwin questionnaire before entering Black Hat or PTW data" in
      let no_scenario =
        text "this pursuit has no dependency; there is no dependent-won scenario to record" in
      let closed = text "pursuit is closed and cannot be edited" in
      let k3 = λ (pu : Pursuit Num). raise_if (not answered) 400 unanswered >> pure pu in
      let k2 = λ (pu : Pursuit Num).
        raise_if (is_dependent_won sc && not (is_some pu.depends_on_pursuit_id)) 400 no_scenario
        >> k3 pu in
      let k1 = λ (pu : Pursuit Num). raise_if (is_some pu.outcome) 409 closed >> k2 pu in
      Ensures-or_raise Q E (scoped_pursuit pursuit_id user_id s) 404 (text "pursuit not found") k1 s
        refl
        λ pu found. Ensures-raise_if Q E (is_some pu.outcome) 409 closed (k2 pu) s refl λ is_open.
          Ensures-raise_if Q E (is_dependent_won sc && not (is_some pu.depends_on_pursuit_id)) 400
            no_scenario (k3 pu) s refl
            λ has_dep. Ensures-raise_if Q E (not answered) 400 unanswered (pure pu) s refl λ _. (
              refl,
              found,
              is_some-none pu.outcome is_open,
              λ e n. needs_dep sc pu.depends_on_pursuit_id has_dep e n,
            )

  pub load-Ensures :
      {B : Type 0} (Q : B → Store Num → Type 0) (E : Store Num → Type 0) (pursuit_id user_id : ℕ)
      (sc : Scenario) (k : Pursuit Num → Tx (Store Num) B) (s : Store Num)
      → E s
      → ((pu : Pursuit Num)
          → scoped_pursuit pursuit_id user_id s ≡ some pu
          → pu.outcome ≡ none
          → (sc ≡ dependent_won → pu.depends_on_pursuit_id ≢ none)
          → Ensures Q E (k pu s))
      → Ensures Q E ((load_pursuit pursuit_id user_id sc >>= k) s)
  unfolding load_pursuit
  load-Ensures Q E pursuit_id user_id sc k s e h =
      Ensures-bind Q E (load_pursuit pursuit_id user_id sc) k s
        (weaken (load_pursuit pursuit_id user_id sc s) (load_lem pursuit_id user_id sc s))
    where
      weaken :
          (r : Result (Pursuit Num) × Store Num)
          → Ensures (IsLoaded pursuit_id user_id sc s) (λ t. t ≡ s) r
          → Ensures (λ pu t. Ensures Q E (k pu t)) E r
      weaken (ok pu, t) l = subst (λ x. Ensures Q E (k pu x)) (sym l.0) (h pu l.1 l.2 l.3)
      weaken (http_exception code detail, t) l = subst E (sym l) e
