-- ===== src/Auth/Tests.antt =====
-- Sessions and role checks on concrete tokens.
use cpde_web.Prelude.{
  String, ◌≡◌, ◌≢◌, ◌↔◌, refl, true, false, none, some, [], ◌∷◌, ◌+◌, if◌then◌else◌, ltb, str_eq,
  eq_iff, string_eq, arith,
}
use cpde_web.Prelude.Dict.{pop}
use cpde_web.Prelude.Monad.{ok}
use cpde_web.Prelude.Text.{codes}
use cpde_web.Auth.{
  Principal, Sessions, has_role, session_ttl, create_session, destroy_session, resolve_session,
  current_principal, require_role, logout, check_expiry,
}
use cpde_web.Auth.Sessions.{resolve-create, resolve-logout, require_role_iff}

abbrev admin : Principal
admin = record {
  user_id = 1;
  client_id = 1;
  client_code = "DEMO";
  email = codes "a@b.c";
  display_name = "A";
  roles = "admin" ∷ [];
}

abbrev live : Sessions
live = ("t", (admin, 100)) ∷ ("u", (admin, 90)) ∷ []

differs : (a b : String) → str_eq a b ≡ false → a ≢ b
differs a b h e = ground (arith, eq_iff a b)

resolve-create_example : resolve_session 5 (some "v") (create_session 3 "v" admin live) ≡ (
    if ltb (3 + session_ttl) 5
    then (none, pop "v" (create_session 3 "v" admin live))
    else (some admin, create_session 3 "v" admin live))
resolve-create_example = resolve-create 3 5 "v" admin live (differs "v" "" refl)

logged_out : (logout 5 (some "t") live).0 ≡ ok tt
unfolding logout current_principal resolve_session check_expiry destroy_session
logged_out = refl

resolve-logout_example :
    ((resolve_session 6 (some "t") (logout 5 (some "t") live).1).0 ≡ none)
    × ((resolve_session 6 (some "u") (logout 5 (some "t") live).1).0
        ≡ (resolve_session 6 (some "u") live).0)
resolve-logout_example = resolve-logout 5 6 "t" "u" live logged_out (differs "u" "t" refl)

require_role_iff_example : ((require_role ("admin" ∷ []) 5 (some "t") live).0 ≡ ok admin) ↔ (
    ((resolve_session 5 (some "t") live).0 ≡ some admin) × (has_role ("admin" ∷ []) admin ≡ true))
require_role_iff_example = require_role_iff ("admin" ∷ []) 5 (some "t") live admin
