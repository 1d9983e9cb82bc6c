-- ===== src/Auth/Sessions.antt =====
-- The sessions and the role check of api/app/auth.py over time.
use cpde_web.Prelude.{
  ℕ, ◌+◌, String, ◌≡◌, ◌≢◌, ◌↔◌, true, Option, none, some, List, arith, ltb, eq_iff, Option-cases,
  if◌then◌else◌, string_eq, inl, inr,
}
use cpde_web.Prelude.Dict.{pop, get-put, get-pop, beq_self}
use cpde_web.Prelude.Monad.{ok}
use cpde_web.Auth.{
  Principal, Sessions, has_role, session_ttl, create_session, resolve_session, current_principal,
  require_role, logout,
}

-- A created session with a token that is not empty resolves to its principal for eight hours, the
-- last second included, and to nothing after that, when its entry is dropped.
pub resolve-create :
    (now later : ℕ) (token : String) (p : Principal) (sessions : Sessions)
    → token ≢ ""
    → let s = create_session now token p sessions in
      resolve_session later (some token) s
      ≡ (if ltb (now + session_ttl) later then (none, pop token s) else (some p, s))
unfolding create_session resolve_session
resolve-create now later token p sessions h =
    ground
      (arith, eq_iff token "", get-put token token (p, now + session_ttl) sessions, beq_self token)

-- After a successful logout its token resolves to nothing, and every other token to what it
-- resolved to before.
pub resolve-logout :
    (now later : ℕ) (token other : String) (sessions : Sessions)
    → (logout now (some token) sessions).0 ≡ ok tt
    → other ≢ token
    → let s = (logout now (some token) sessions).1 in
      ((resolve_session later (some token) s).0 ≡ none)
      × ((resolve_session later (some other) s).0 ≡ (resolve_session later (some other) sessions).0)
unfolding logout resolve_session
resolve-logout now later token other sessions h ne = ground (
  arith,
  eq_iff token "",
  eq_iff other "",
  eq_iff other token,
  get-pop token token sessions,
  get-pop token other sessions,
  beq_self token,
)

-- A role check passes with a principal exactly if the cookie resolves to that principal and it has
-- one of the roles.
pub require_role_iff :
    (codes : List String) (now : ℕ) (cookie : Option String) (sessions : Sessions) (p : Principal)
    → ((require_role codes now cookie sessions).0 ≡ ok p)
      ↔ (((resolve_session now cookie sessions).0 ≡ some p) × (has_role codes p ≡ true))
unfolding require_role current_principal
require_role_iff codes now cookie sessions p =
    elim (Option-cases (resolve_session now cookie sessions).0) [
      | inl e ↦ ground (arith)
      | inr (q, e) ↦ ground (arith)
    ]
