-- ===== src/Patch/Columns.antt =====
-- The columns that an edit by `patch_pursuit` (api/app/routers/write.py) writes, by what was resolved.
use cpde_web.Prelude.{
  ℕ, String, ◌≡◌, refl, sym, ap, ◌∙◌, ◌⊎◌, inl, inr, Bool, true, false, not, ◌&&◌, Option, none,
  some, is_some, arith,
}
use cpde_web.Prelude.Monad.{ok}
use cpde_web.Prelude.Ensures.{and_then_ok, ok_inj}
use cpde_web.Store.{Pursuit, Store}
use cpde_web.Dependency.{resolve_pursuit_dependency}
use cpde_web.Patch.Body.{Sent, PursuitPatch, is_value, merge, merged_flag}
use cpde_web.Patch.Plan.{clears_dependency, resolve_dependency}

-- A caller who is no administrator leaves the opportunity id, or clears it.
pub kept_or_cleared :
    (sent : Sent String) (is_admin : Bool) (old : Option String)
    → (is_value sent && not is_admin) ≡ false
    → is_admin ≡ false
    → (merge sent old ≡ old) ⊎ (merge sent old ≡ none)
kept_or_cleared none is_admin old h e = inl refl
kept_or_cleared (some none) is_admin old h e = inr refl
kept_or_cleared (some (some v)) true old h e = cc
kept_or_cleared (some (some v)) false old h e = cc

module _ {N : Type 0} (i user_id : ℕ) (s : Store N) where
  -- What the dependency column becomes.
  resolved_as :
      (clears : Bool) (sent : Sent String) (r : Sent ℕ)
      → resolve_dependency i user_id clears sent s ≡ ok r
      → is_value sent ≡ false
      → (r ≡ some none) ⊎ ((r ≡ none) × (sent ≡ none) × (clears ≡ false))
  unfolding resolve_dependency
  resolved_as true none r h e = inl (sym (ok_inj h))
  resolved_as false none r h e = inr (sym (ok_inj h), refl, refl)
  resolved_as clears (some none) r h e = inl (sym (ok_inj h))
  resolved_as clears (some (some uid)) r h e = cc

  -- Where no target is named, the dependency stays or goes.
  pub kept_or_dropped :
      (clears : Bool) (sent : Sent String) (r : Sent ℕ) (old : Option ℕ)
      → resolve_dependency i user_id clears sent s ≡ ok r
      → is_value sent ≡ false
      → (merge r old ≡ old) ⊎ (merge r old ≡ none)
  kept_or_dropped clears sent r old h e = elim (resolved_as clears sent r h e) [
    | inl dropped ↦ inr (ap (λ x. merge x old) dropped)
    | inr (same, _, _) ↦ inl (ap (λ x. merge x old) same)
  ]

  -- A named target is accepted, and is what is written.
  pub named_target :
      (clears : Bool) (uid : String) (r : Sent ℕ)
      → resolve_dependency i user_id clears (some (some uid)) s ≡ ok r
      → (t : ℕ) × (r ≡ some (some t)) × (resolve_pursuit_dependency i user_id uid s).0 ≡ ok t
  unfolding resolve_dependency
  named_target clears uid r h =
      let (t, e, f) = and_then_ok (resolve_pursuit_dependency i user_id uid s).0 _ h in
      (t, sym (ok_inj f), e)

kept_clear :
    (old : Bool) (dep : Option ℕ) (sent : Sent Bool)
    → merged_flag sent old ≡ true
    → (old ≡ true → dep ≡ none)
    → (merged_flag sent false && not old && is_some dep) ≡ false
    → dep ≡ none
kept_clear true dep sent m h c = h refl
kept_clear false dep none m h c = cc
kept_clear false dep (some none) m h c = cc
kept_clear false none (some (some b)) m h c = refl
kept_clear false (some p) (some (some true)) m h c = cc
kept_clear false (some p) (some (some false)) m h c = cc

-- A sole source has no dependency after the edit, if a sole source had none before.
pub sole_source_alone :
    {N : Type 0} (i user_id : ℕ) (s : Store N) (body : PursuitPatch N) (existing : Pursuit N)
    (r : Sent ℕ)
    → resolve_dependency i user_id (clears_dependency body existing) body.depends_on_opp_id s ≡ ok r
    → (is_value body.depends_on_opp_id && merged_flag body.is_sole_source existing.is_sole_source)
      ≡ false
    → (existing.is_sole_source ≡ true → existing.depends_on_pursuit_id ≡ none)
    → merged_flag body.is_sole_source existing.is_sole_source ≡ true
    → merge r existing.depends_on_pursuit_id ≡ none
sole_source_alone i user_id s body existing r h guard before sole =
    elim (resolved_as i user_id s (clears_dependency body existing) body.depends_on_opp_id r h
      (ground arith)) [
        | inl cleared ↦ ap (λ x. merge x existing.depends_on_pursuit_id) cleared
        | inr (same, unsent, kept) ↦
            ap (λ x. merge x existing.depends_on_pursuit_id) same
            ∙ kept_clear existing.is_sole_source existing.depends_on_pursuit_id body.is_sole_source
                sole before (ground (arith, kept, unsent))
      ]
