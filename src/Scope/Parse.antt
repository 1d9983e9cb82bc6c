-- ===== src/Scope/Parse.antt =====
-- Handlers that go on with a parsed id (`_uuid` of api/app/routers_common.py).
use cpde_web.Prelude.{ℕ, ◌≡◌, refl}
use cpde_web.Prelude.Monad.{Tx, ◌>>=◌}
use cpde_web.Prelude.Ensures.{Ensures}
use cpde_web.Scope.{IdText, blank, malformed, uuid, parse_uuid}

pub parse-Ensures :
    {S B : Type 0} (Q : B → S → Type 0) (E : S → Type 0) (pursuit_text : IdText) (k : ℕ → Tx S B)
    (s : S)
    → E s
    → ((i : ℕ) → pursuit_text ≡ uuid i → Ensures Q E (k i s))
    → Ensures Q E ((parse_uuid pursuit_text >>= k) s)
unfolding parse_uuid
parse-Ensures Q E blank k s e h = e
parse-Ensures Q E malformed k s e h = e
parse-Ensures Q E (uuid i) k s e h = h i refl
