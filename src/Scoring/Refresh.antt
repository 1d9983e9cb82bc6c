-- ===== src/Scoring/Refresh.antt =====
-- The cache of api/app/scoring.py under sequences of refreshes.
use mathlib.Core.Option
use cpde_web.Prelude.{
  ℕ, ◌≡◌, refl, sym, ap, ◌∙◌, Bool, true, false, Option, none, some, List, [], ◌∷◌, Option-cases,
  inl, inr,
}
use cpde_web.Prelude.Dict.{Dict}
use cpde_web.Prelude.Num.{Float}
use cpde_web.Prelude.Text.{Text}
use cpde_web.Scoring.{
  Table, Response, Cache, Round, no_client, fetched, Refreshed, refreshed, unfetched, missing_key,
  rates_of, normalize_tables, fill, fill_rest, refresh, run_round, refresh_loop,
}

module _ (fl : Float) {Q : Type 0} where
  open fl use {Num}

  -- A response that lacks a key which is read by subscript.
  abbrev lacking :
      Option (Dict Text (Table fl)) → Option Num → Response fl Q → Option (Response fl Q)
  lacking none base_score r = some r
  lacking (some tables) none r = some r
  lacking (some tables) (some base_score) r = none

  abbrev broken : Round fl Q → Option (Response fl Q)
  broken no_client = none
  broken (fetched now none) = none
  broken (fetched now (some r)) = lacking r.tables r.base_score r

  -- The response of the first round that lacks such a key.
  unfoldable pub first_broken : List (Round fl Q) → Option (Response fl Q)
  first_broken [] = none
  first_broken (r ∷ rounds) =
      let rest = first_broken rounds in elim (broken r) [ none ↦ rest | some answer ↦ some answer ]

  -- The rounds before that one.
  unfoldable pub before : List (Round fl Q) → List (Round fl Q)
  before [] = []
  before (r ∷ rounds) =
      let rest = before rounds in elim (broken r) [ none ↦ r ∷ rest | some answer ↦ [] ]

  abbrev later : Round fl Q → Option (ℕ × Response fl Q) → Option (ℕ × Response fl Q)
  later r (some g) = some g
  later no_client none = none
  later (fetched now none) none = none
  later (fetched now (some answer)) none = some (now, answer)

  -- The last round that fetched a response.
  unfoldable pub last_good : List (Round fl Q) → Option (ℕ × Response fl Q)
  last_good [] = none
  last_good (r ∷ rounds) = later r (last_good rounds)

  -- What a response fills the whole cache with.
  abbrev pub filled_or : Cache fl Q → Option (ℕ × Response fl Q) → Cache fl Q
  filled_or cache none = cache
  filled_or cache (some g) =
      let r = g.1 in
      record {
        tables = Option.map (normalize_tables fl) r.tables;
        base_score = r.base_score;
        fee_rates = some (rates_of fl r);
        questionnaire = r.questionnaire;
        last_fetched = g.0;
      }

  abbrev with_tables : Option (Dict Text (Table fl)) → Cache fl Q → Cache fl Q
  with_tables none cache = cache
  with_tables (some tables) cache = record cache { tables = some (normalize_tables fl tables) }

  -- Whether the loop still runs, and the cache: a response that lacks a key ends the loop and leaves
  -- at most its tables.
  abbrev pub ended : Option (Response fl Q) → Cache fl Q → Bool × Cache fl Q
  ended none cache = (true, cache)
  ended (some r) cache = (false, with_tables r.tables cache)

  step_good :
      (now : ℕ) (r : Response fl Q) (g : Option (ℕ × Response fl Q)) (cache : Cache fl Q)
      → filled_or (filled_or cache (some (now, r))) g
        ≡ filled_or cache (later (fetched now (some r)) g)
  step_good now r (some g) cache = refl
  step_good now r none cache = refl

  step_idle :
      (g : Option (ℕ × Response fl Q)) (cache : Cache fl Q)
      → (filled_or cache g ≡ filled_or cache (later no_client g))
        × ((now : ℕ) → filled_or cache g ≡ filled_or cache (later (fetched now none) g))
  step_idle (some g) cache = (refl, λ now. refl)
  step_idle none cache = (refl, λ now. refl)

  abbrev filled_by : ℕ → Response fl Q → Cache fl Q → Cache fl Q
  filled_by now r cache = filled_or cache (some (now, r))

  -- How a fetch of a response with these fields ends.
  abbrev fill_of :
      ℕ
      → Response fl Q
      → Cache fl Q
      → Option (Dict Text (Table fl))
      → Option Num
      → Refreshed × Cache fl Q
  fill_of now r cache none base_score = (missing_key, cache)
  fill_of now r cache (some tables) none = (missing_key, with_tables (some tables) cache)
  fill_of now r cache (some tables) (some base) = (refreshed, filled_by now r cache)

  fill_end :
      (now : ℕ) (r : Response fl Q) (cache : Cache fl Q) (tables : Option (Dict Text (Table fl)))
      (base_score : Option Num)
      → r.tables ≡ tables
      → r.base_score ≡ base_score
      → fill fl now r r.tables cache ≡ fill_of now r cache tables base_score
  unfolding fill fill_rest
  fill_end now r cache none base_score e b = ap (λ t. fill fl now r t cache) e
  fill_end now r cache (some tables) none e b =
      ap (λ t. fill fl now r t cache) e
      ∙ ap (λ t. fill_rest fl now r t (with_tables (some tables) cache)) b
  fill_end now r cache (some tables) (some base) e b =
      ap (λ t. fill fl now r t cache) e
      ∙ ap (λ t. fill_rest fl now r t (with_tables (some tables) cache)) b
      ∙ rw (e, b) refl

  lacking_at :
      (r : Response fl Q) (tables : Option (Dict Text (Table fl))) (base_score : Option Num)
      → r.tables ≡ tables
      → r.base_score ≡ base_score
      → lacking r.tables r.base_score r ≡ lacking tables base_score r
  lacking_at r tables base_score e b =
      ap (λ t. lacking t r.base_score r) e ∙ ap (λ t. lacking tables t r) b

  -- The loop still runs exactly if no round fetched a response without its tables or its base
  -- score, and it ends at the first one that did. The cache is then what the last response before
  -- that one fills it with, and what it was if there is none; of the response that ended the loop
  -- it has the tables, if they were sent, and nothing else.
  pub refresh_loop-last_good :
      (rounds : List (Round fl Q)) (cache : Cache fl Q)
      → refresh_loop fl rounds cache
        ≡ ended (first_broken rounds) (filled_or cache (last_good (before rounds)))
  unfolding refresh_loop run_round refresh fill fill_rest first_broken before last_good
  refresh_loop-last_good [] cache = refl
  refresh_loop-last_good (no_client ∷ rounds) cache =
      refresh_loop-last_good rounds cache
      ∙ ap (ended (first_broken rounds)) (step_idle (last_good (before rounds)) cache).0
  refresh_loop-last_good (fetched now none ∷ rounds) cache =
      refresh_loop-last_good rounds cache
      ∙ ap (ended (first_broken rounds)) ((step_idle (last_good (before rounds)) cache).1 now)
  refresh_loop-last_good (fetched now (some r) ∷ rounds) cache =
      let loop_on : Refreshed × Cache fl Q → Bool × Cache fl Q = λ o. elim o.0 [
        | refreshed ↦ refresh_loop fl rounds o.1
        | unfetched ↦ refresh_loop fl rounds o.1
        | missing_key ↦ (false, o.1)
      ] in
      let spec : Option (Response fl Q) → Bool × Cache fl Q = λ o.
        ended (elim o [ none ↦ first_broken rounds | some answer ↦ some answer ])
          (filled_or cache (
            last_good
              (elim o [ none ↦ fetched now (some r) ∷ before rounds | some answer ↦ [] ]))) in
      elim (Option-cases r.tables) [
        | inl gone ↦
            ap loop_on (fill_end now r cache none r.base_score gone refl)
            ∙ rw gone refl
            ∙ ap spec (sym (ap (λ t. lacking t r.base_score r) gone))
        | inr (tables, sent) ↦ elim (Option-cases r.base_score) [
          | inl gone ↦
              ap loop_on (fill_end now r cache (some tables) none sent gone)
              ∙ rw sent refl
              ∙ ap spec (sym (lacking_at r (some tables) none sent gone))
          | inr (base, has) ↦
              ap loop_on (fill_end now r cache (some tables) (some base) sent has)
              ∙ refresh_loop-last_good rounds (filled_by now r cache)
              ∙ ap (ended (first_broken rounds)) (step_good now r (last_good (before rounds)) cache)
              ∙ ap spec (sym (lacking_at r (some tables) (some base) sent has))
        ]
      ]
