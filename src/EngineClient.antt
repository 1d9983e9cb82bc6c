-- ===== src/EngineClient.antt =====
-- The client of the Pwin engine: api/app/engine_client.py. The parameter store (`ssm`) and the HTTP
-- exchange are parameters; the cache of keys is the state.
pub mod Keys
mod Tests
use cpde_web.Prelude.{
  ℕ, ◌-◌, String, Bool, true, false, Option, none, some, List, [], ◌∷◌, ◌==◌, ◌&&◌, ◌||◌, ltb, leb,
  str_eq, if◌then◌else◌, string_eq,
}
use cpde_web.Prelude.Dict.{Dict, get, put, pop}

pub data EngineError : Type 0 where
  credential_error transport_error markets_unresolved : EngineError
  status_error : ℕ → EngineError

pub data Called (A : Type 0) : Type 0 where
  answered : A → Called A
  raised : EngineError → Called A

pub record ClientRow : Type 0 where
  pub code : String
  pub engine_client_code : Option String
  pub engine_secret_ref : Option String

-- A secret's name to the key and the second at which it was read.
abbrev pub KeyCache : Type 0
KeyCache = Dict String (String × ℕ)

abbrev pub cache_ttl_seconds : ℕ
cache_ttl_seconds = 300

-- `client_row.get("engine_secret_ref")`, where the empty text counts as none.
abbrev pub secret_of : ClientRow → Option String
secret_of client = elim client.engine_secret_ref [
  | none ↦ none
  | some name ↦ if str_eq name "" then none else some name
]

from_ssm : String → ℕ → Option String → KeyCache → Called String × KeyCache
from_ssm name now none cache = (raised credential_error, cache)
from_ssm name now (some key) cache = (answered key, put name (key, now) cache)

cached_or :
    (ssm : String → Option String)
    → String
    → ℕ
    → Option (String × ℕ)
    → KeyCache
    → Called String × KeyCache
unfolding from_ssm
cached_or ssm name now none cache = from_ssm name now (ssm name) cache
cached_or ssm name now (some (key, cached_at)) cache =
    if ltb (now - cached_at) cache_ttl_seconds
    then (answered key, cache)
    else from_ssm name now (ssm name) cache

resolve_secret :
    (ssm : String → Option String) → ℕ → Option String → KeyCache → Called String × KeyCache
unfolding cached_or
resolve_secret ssm now none cache = (raised credential_error, cache)
resolve_secret ssm now (some name) cache = cached_or ssm name now (get name cache) cache

unfoldable pub resolve_engine_api_key_for_client :
    (ssm : String → Option String) → (now : ℕ) → ClientRow → KeyCache → Called String × KeyCache
unfolding resolve_secret
resolve_engine_api_key_for_client ssm now client cache =
    resolve_secret ssm now (secret_of client) cache

drop_secret : Option String → KeyCache → KeyCache
drop_secret none cache = cache
drop_secret (some name) cache = pop name cache

unfoldable pub invalidate_engine_api_key_cache : ClientRow → KeyCache → KeyCache
unfolding drop_secret
invalidate_engine_api_key_cache client cache = drop_secret (secret_of client) cache

pub record Headers : Type 0 where
  pub x_api_key : String
  pub x_cda_client_id : Option String

-- `if client_row.get("engine_client_code")`: the empty text sends no header.
abbrev pub client_header : Option String → Option String
client_header none = none
client_header (some code) = if str_eq code "" then none else some code

-- What comes of sending a request.
pub data Exchange (B : Type 0) : Type 0 where
  failed : Exchange B
  response : (status : ℕ) → B → Exchange B

abbrev pub is_rejection : ℕ → Bool
is_rejection status = (status == 401) || (status == 403)

-- `raise_for_status` lets the statuses from 200 to 299 pass.
abbrev pub is_success : ℕ → Bool
is_success status = leb 200 status && ltb status 300

module _ {B : Type 0} where
  received : ClientRow → Exchange B → KeyCache → Called B × KeyCache
  unfolding invalidate_engine_api_key_cache
  received client failed cache = (raised transport_error, cache)
  received client (response status body) cache = (
    (if is_success status then answered body else raised (status_error status)),
    (if is_rejection status then invalidate_engine_api_key_cache client cache else cache),
  )

  sent : ClientRow → (Headers → Exchange B) → Called String × KeyCache → Called B × KeyCache
  unfolding received
  sent client http (raised error, cache) = (raised error, cache)
  sent client http (answered key, cache) =
      received client
        (http
          (record { x_api_key = key; x_cda_client_id = client_header client.engine_client_code }))
        cache

  -- `call_run` and `call_get_scoring_tables`, by what they send.
  unfoldable pub call :
      (ssm : String → Option String)
      → (http : Headers → Exchange B) → (now : ℕ) → ClientRow
      → KeyCache
      → Called B × KeyCache
  unfolding sent
  call ssm http now client cache =
      sent client http (resolve_engine_api_key_for_client ssm now client cache)

abbrev pub is_placeholder : List String → Bool
is_placeholder (name ∷ []) = str_eq name "Market 1"
is_placeholder _ = false

abbrev pub reject_placeholder : Called (List String) → Called (List String)
reject_placeholder (raised error) = raised error
reject_placeholder (answered markets) =
    if is_placeholder markets then raised markets_unresolved else answered markets

unfoldable pub call_get_markets :
    (ssm : String → Option String)
    → (http : Headers → Exchange (List String)) → (now : ℕ) → ClientRow
    → KeyCache
    → Called (List String) × KeyCache
unfolding call
call_get_markets ssm http now client cache =
    let (result, cache') = call ssm http now client cache in (reject_placeholder result, cache')
