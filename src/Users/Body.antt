-- ===== src/Users/Body.antt =====
-- The bodies of create_user and update_user, as sent: `UserIn` and `UserPatch` of
-- api/app/routers/users.py with their validators.
use cpde_web.Prelude.{
  ℕ, String, Bool, true, false, not, ◌&&◌, Option, none, some, List, [], ◌∷◌, ◌==◌, leb, any,
  length, reverse,
}
use cpde_web.Prelude.Text.{Text, codes, lower, strip}

pub record UserIn : Type 0 where
  pub email : Text
  pub display_name : Text
  pub role_code : String
  pub org_unit_codes : List String

pub record UserPatch : Type 0 where
  pub display_name : Option Text
  pub role_code : Option String
  pub org_unit_codes : Option (List String)
  pub is_active : Option Bool

-- `v.strip().lower()`
abbrev pub clean_email : Text → Text
clean_email email = lower (strip email)

abbrev starts_with_at : Text → Bool
starts_with_at [] = false
starts_with_at (c ∷ _) = c == b'@'

unfoldable pub is_email : Text → Bool
is_email v = any (λ c. c == b'@') v && not (starts_with_at v) && not (starts_with_at (reverse v))

abbrev pub is_empty : {A : Type 0} → List A → Bool
is_empty [] = true
is_empty (_ ∷ _) = false

abbrev is_within : (low high : ℕ) → Text → Bool
is_within low high t = leb low (length t) && leb (length t) high

unfoldable pub is_accepted_user : UserIn → Bool
unfolding is_email
is_accepted_user body =
    is_within 3 320 body.email
    && is_within 1 200 body.display_name
    && is_within 1 50 (codes body.role_code)
    && not (is_empty body.org_unit_codes)
    && is_email (clean_email body.email)
    && not (is_empty (strip body.display_name))

abbrev is_accepted_name : Option Text → Bool
is_accepted_name none = true
is_accepted_name (some v) = leb (length v) 200 && not (is_empty (strip v))

unfoldable pub is_accepted_user_patch : UserPatch → Bool
is_accepted_user_patch body = is_accepted_name body.display_name
