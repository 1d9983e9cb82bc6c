-- ===== src/Auth.antt =====
-- Sessions and roles: api/app/auth.py, and the login and logout routes of api/app/main.py.
pub mod Sessions
mod Tests
use cpde_web.Prelude.{
  ℕ, ◌+◌, ◌*◌, String, Bool, false, ◌||◌, Option, none, some, List, [], ◌∷◌, ltb, any, str_eq, not,
  if◌then◌else◌, string_eq,
}
use cpde_web.Prelude.Dict.{Dict, get, put, pop}
use cpde_web.Prelude.Monad.{Tx, text, pure, raise, raise_if, ◌>>=◌, ◌>>◌, modify, or_raise}
use cpde_web.Prelude.Text.{Text, lower}

pub record Principal : Type 0 where
  pub user_id : ℕ
  pub client_id : ℕ
  pub client_code : String
  pub email : Text
  pub display_name : String
  pub roles : List String

-- `any(c in self.roles for c in codes)`
unfoldable pub has_role : List String → Principal → Bool
has_role codes p = any (λ c. any (str_eq c) p.roles) codes

-- The session store: token to principal and expiry, in seconds.
abbrev pub Sessions : Type 0
Sessions = Dict String (Principal × ℕ)

abbrev pub session_ttl : ℕ
session_ttl = 8 * 3600

-- The token is the one that `secrets.token_urlsafe` has drawn.
unfoldable pub create_session : (now : ℕ) → (token : String) → Principal → Sessions → Sessions
create_session now token p sessions = put token (p, now + session_ttl) sessions

abbrev is_blank : String → Bool
is_blank token = str_eq token ""

unfoldable pub destroy_session : Option String → Sessions → Sessions
destroy_session none sessions = sessions
destroy_session (some token) sessions = if is_blank token then sessions else pop token sessions

check_expiry : ℕ → String → Option (Principal × ℕ) → Sessions → Option Principal × Sessions
check_expiry now token none sessions = (none, sessions)
check_expiry now token (some (principal, expires)) sessions =
    if ltb expires now then (none, pop token sessions) else (some principal, sessions)

unfoldable pub resolve_session : (now : ℕ) → Option String → Sessions → Option Principal × Sessions
unfolding check_expiry
resolve_session now none sessions = (none, sessions)
resolve_session now (some token) sessions =
    if is_blank token
    then (none, sessions)
    else check_expiry now token (get token sessions) sessions

unfoldable pub current_principal : (now : ℕ) → Option String → Tx Sessions Principal
unfolding resolve_session
current_principal now cookie sessions =
    let (found, sessions') = resolve_session now cookie sessions in
    or_raise found 401 (text "not authenticated") sessions'

unfoldable pub require_role : List String → (now : ℕ) → Option String → Tx Sessions Principal
unfolding current_principal has_role
require_role codes now cookie = do
  p ← current_principal now cookie
  raise_if (not (has_role codes p)) 403 (text "requires one of")
  pure p

-- `lookup_user`: the database function answers for an exact address, which is sent lowered.
unfoldable pub lookup_user : (Text → Option Principal) → Text → Option Principal
lookup_user fn_lookup_login email = fn_lookup_login (lower email)

-- `POST /api/login`; the answer carries the cookie's token.
unfoldable pub login :
    (dev_login_enabled : Bool)
    → (Text → Option Principal)
    → (now : ℕ) → (token : String) → (email : Text) → Tx Sessions String
unfolding lookup_user create_session
login enabled fn_lookup_login now token email = do
  raise_if (not enabled) 404 (text "Not Found")
  principal ← or_raise (lookup_user fn_lookup_login email) 401 (text "invalid login")
  modify (create_session now token principal)
  pure token

-- `POST /api/logout`
unfoldable pub logout : (now : ℕ) → Option String → Tx Sessions (Unit {0})
unfolding current_principal destroy_session
logout now cookie = do current_principal now cookie; modify (destroy_session cookie)
