-- ===== src/Requests/Sound.antt =====
-- What holds of a client's tables after any requests.
use mathlib.Core.Path.{subst}
use cpde_web.Prelude.{ℕ, ◌≡◌, ◌≤◌, ◌<◌, refl, sym, Bool, List, [], ◌∷◌, arith, inl, inr, find?}
use cpde_web.Prelude.Num.{Float}
use cpde_web.Prelude.Monad.{Result, ok, http_exception}
use cpde_web.Prelude.Ensures.{Ensures, weaken}
use cpde_web.Store.{black_hat, ptw, Assessment, Store}
use cpde_web.Store.Valid.{HasOneCurrent, HasOneId, HasOldIds, IsValid}
use cpde_web.Scope.{IdText, blank, malformed, uuid, parse_uuid}
use cpde_web.Bhptw.{Submitted, submit_black_hat, submit_ptw}
use cpde_web.Bhptw.Submit.{IsSubmission, submit_ptw-IsSubmission, submit_black_hat-IsSubmission}
use cpde_web.Recalc.{recalculate}
use cpde_web.Recalc.Recorded.{IsRecalculation, recalculate-IsRecalculation}
use cpde_web.Lifecycle.{Closed, decision_of, takes_bid, set_bid, set_outcome}
use cpde_web.Lifecycle.Bid.{after-cases}
use cpde_web.Lifecycle.Closing.{IsHistory, IsHistory-pursuits, set_bid-IsHistory}
use cpde_web.Lifecycle.Recorded.{IsClosing, set_outcome-IsClosing}
use cpde_web.Patch.Handler.{Patched, patch_pursuit}
use cpde_web.Patch.Recorded.{IsPatch, patch_pursuit-IsPatch}
use cpde_web.Answers.Handler.{set_questionnaire_answers}
use cpde_web.Answers.Sound.{set_questionnaire_answers-IsSound}
use cpde_web.Users.Granted.{All-weaken}
use cpde_web.Users.Handler.{Viewed, create_user, update_user}
use cpde_web.Users.Recorded.{IsCreated, create_user-IsCreated}
use cpde_web.Users.Updated.{IsUpdated, update_user-IsUpdated}
use cpde_web.Requests.{
  Service, Request, sets_bid, sets_outcome, submits_black_hat, submits_ptw, recalculates,
  patches_pursuit, sets_answers, creates_user, updates_user, serve, Call, serve_all,
}

-- The constraints of the schema, and every WON or LOST pursuit is BID.
abbrev pub IsSound : {N : Type 0} → Store N → Type 0
IsSound s = IsValid s × IsHistory s

after :
    {A S : Type 0} (P : S → Type 0) (s : S) (r : Result A × S)
    → P s
    → Ensures (λ _ t. P t) (λ t. t ≡ s) r
    → P r.1
after P s (ok a, t) h e = e
after P s (http_exception code detail, t) h e = subst P (sym e) h

module _ {N : Type 0} where
  -- Other tables, and ids that have gone up.
  IsSound-kept :
      (s t : Store N)
      → t.pursuits ≡ s.pursuits
      → t.assessments ≡ s.assessments
      → s.next_id ≤ t.next_id
      → IsSound s
      → IsSound t
  IsSound-kept s t ps rows le (v, h) = (
    record {
      one_current = subst HasOneCurrent (sym rows) v.one_current;
      one_id = subst HasOneId (sym rows) v.one_id;
      old_ids = subst (HasOldIds t.next_id) (sym rows) (
          All-weaken (λ (a : Assessment N). a.id < s.next_id) (λ a. a.id < t.next_id)
            (λ a lt. omega arith) s.assessments v.old_ids);
    },
    IsHistory-pursuits ps h,
  )

  set_bid-IsValid :
      (pursuit_text : IdText) (body : Bool) (user_id : ℕ) (s : Store N)
      → IsValid s
      → IsValid (set_bid pursuit_text body user_id s).1
  unfolding set_bid parse_uuid
  set_bid-IsValid blank body user_id s v = v
  set_bid-IsValid malformed body user_id s v = v
  set_bid-IsValid (uuid i) body user_id s v =
      let d = decision_of body in
      elim (after-cases i user_id d s (find? (takes_bid i user_id d s) s.pursuits)) [
        | inl same ↦ subst IsValid (sym same) v
        | inr updated ↦
            subst IsValid (sym updated)
              (record { one_current = v.one_current; one_id = v.one_id; old_ids = v.old_ids })
      ]

module _ (fl : Float) where
  open fl use {Num}

  -- Each request keeps it.
  serve-IsSound :
      (v : Service fl) (r : Request fl) (user_id : ℕ) (s : Store Num)
      → IsSound s
      → IsSound (serve fl v r user_id s)
  unfolding serve
  serve-IsSound v (sets_bid pursuit_text body) user_id s (valid, hist) = (
    set_bid-IsValid pursuit_text body user_id s valid,
    set_bid-IsHistory pursuit_text body user_id s hist,
  )
  serve-IsSound v (sets_outcome pursuit_text body) user_id s (valid, hist) =
      let r = set_outcome pursuit_text body user_id s in
      after IsSound s r (valid, hist)
        (weaken (λ (_ : Closed Num) t. IsClosing pursuit_text body user_id s t) (λ _ t. IsSound t)
          (λ t. t ≡ s) (λ _ t h. (h.valid valid, h.history)) r
          (set_outcome-IsClosing pursuit_text body user_id s hist))
  serve-IsSound v (submits_black_hat pursuit_text body) user_id s (valid, hist) =
      let r = submit_black_hat fl v.cache pursuit_text body user_id s in
      after IsSound s r (valid, hist)
        (weaken
          (λ (_ : Submitted fl) t.
            IsSubmission fl black_hat pursuit_text body.scenario body.base_pwin user_id s t)
          (λ _ t. IsSound t) (λ t. t ≡ s) (λ _ t h. (h.recorded.valid, h.history hist)) r
          (submit_black_hat-IsSubmission fl pursuit_text user_id s valid v.cache body))
  serve-IsSound v (submits_ptw pursuit_text body) user_id s (valid, hist) =
      let r = submit_ptw fl pursuit_text body user_id s in
      after IsSound s r (valid, hist)
        (weaken
          (λ (_ : Submitted fl) t.
            IsSubmission fl ptw pursuit_text body.scenario body.base_pwin user_id s t)
          (λ _ t. IsSound t) (λ t. t ≡ s) (λ _ t h. (h.recorded.valid, h.history hist)) r
          (submit_ptw-IsSubmission fl pursuit_text user_id s valid body))
  serve-IsSound v (recalculates pursuit_text scenario) user_id s (valid, hist) =
      let r = recalculate fl v.cache v.engine pursuit_text scenario user_id s in
      after IsSound s r (valid, hist)
        (weaken (IsRecalculation fl v.cache v.engine pursuit_text scenario user_id s)
          (λ _ t. IsSound t) (λ t. t ≡ s)
          (λ _ t h. (h.recorded.valid, IsHistory-pursuits h.same_pursuits hist)) r
          (recalculate-IsRecalculation fl v.cache v.engine pursuit_text user_id s scenario valid))
  serve-IsSound v (patches_pursuit pursuit_text body is_admin) user_id s (valid, hist) =
      let r = patch_pursuit fl v.cache v.engine v.references pursuit_text body user_id is_admin s in
      after IsSound s r (valid, hist)
        (weaken (λ (_ : Patched Num) t. IsPatch fl pursuit_text body user_id is_admin s t)
          (λ _ t. IsSound t) (λ t. t ≡ s) (λ _ t h. (h.valid, h.history)) r
          (patch_pursuit-IsPatch fl v.cache v.engine v.references pursuit_text body user_id is_admin
            s valid hist))
  serve-IsSound v (sets_answers pursuit_text body) user_id s (valid, hist) =
      after IsSound s (set_questionnaire_answers fl v.cache v.questions pursuit_text body user_id s)
        (valid, hist)
        (set_questionnaire_answers-IsSound fl v.cache v.questions pursuit_text body user_id s valid
          hist)
  serve-IsSound v (creates_user body) user_id s sound =
      let r = create_user v.roles v.order body user_id s in
      after IsSound s r sound (
        weaken (λ (_ : Viewed) t. IsCreated v.roles body user_id s t) (λ _ t. IsSound t)
          (λ t. t ≡ s) (λ _ t h. IsSound-kept s t h.same_pursuits h.same_assessments h.next sound) r
          (create_user-IsCreated v.roles v.order body user_id s))
  serve-IsSound v (updates_user user_text body) user_id s sound =
      let r = update_user v.roles v.order user_text body user_id s in
      after IsSound s r sound (
        weaken (λ (_ : Viewed) t. IsUpdated v.roles v.order user_text body user_id s t)
          (λ _ t. IsSound t) (λ t. t ≡ s)
          (λ _ t h.
            IsSound-kept s t h.same_pursuits h.same_assessments
              (let e = h.same_next in omega (arith, e)) sound)
          r (update_user-IsUpdated v.roles v.order user_text body user_id s))

  -- Where ids and current rows are unique and every WON or LOST pursuit is BID, this holds again
  -- after any sequence of bids, outcomes, submissions, recalculations, edits, saved answers and
  -- changes of users, accepted or refused, whoever sends them.
  pub serve_all-IsSound :
      (calls : List (Call fl)) (s : Store Num) → IsSound s → IsSound (serve_all fl calls s)
  unfolding serve_all
  serve_all-IsSound [] s h = h
  serve_all-IsSound (c ∷ calls) s h =
      let u = record s { now = c.at } in
      serve_all-IsSound calls (serve fl c.service c.request c.user_id u)
        (serve-IsSound c.service c.request c.user_id u (IsSound-kept s u refl refl (omega arith) h))
