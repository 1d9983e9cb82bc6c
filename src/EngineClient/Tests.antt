-- ===== src/EngineClient/Tests.antt =====
-- Keys on one client, and an engine that refuses each of them.
use cpde_web.Prelude.{String, ◌≡◌, refl, inr, Option, some, none, List, [], ◌∷◌}
use cpde_web.EngineClient.{
  ClientRow, Headers, Exchange, response, answered, raised, credential_error,
  resolve_engine_api_key_for_client, resolve_secret, cached_or, from_ssm, call, call_get_markets,
  sent, received,
}
use cpde_web.EngineClient.Keys.{key_or_error, resolve-rejected}

abbrev client : ClientRow
client = record {
  code = "DEMO";
  engine_client_code = some "demo";
  engine_secret_ref = some "/demo/key";
}

abbrev old_keys : String → Option String
old_keys name = some "old"

abbrev new_keys : String → Option String
new_keys name = some "new"

abbrev no_keys : String → Option String
no_keys name = none

abbrev refusing : Headers → Exchange (List String)
refusing headers = response 403 []

abbrev serving : Headers → Exchange (List String)
serving headers = response 200 ("Space" ∷ [])

first_key : (resolve_engine_api_key_for_client old_keys 10 client []).0 ≡ answered "old"
unfolding resolve_engine_api_key_for_client resolve_secret cached_or from_ssm
first_key = refl

resolve-rejected_example :
    (resolve_engine_api_key_for_client new_keys 11 client (call old_keys refusing 10 client []).1).0
    ≡ key_or_error (some "new")
resolve-rejected_example =
    resolve-rejected old_keys new_keys refusing 10 11 client [] "/demo/key" "old" 403 [] refl
      first_key refl (inr refl)

no_key : (resolve_engine_api_key_for_client no_keys 10 client []).0 ≡ raised credential_error
unfolding resolve_engine_api_key_for_client resolve_secret cached_or from_ssm
no_key = refl

served : (call_get_markets old_keys serving 10 client []).0 ≡ answered ("Space" ∷ [])
unfolding call_get_markets call sent received resolve_engine_api_key_for_client resolve_secret
    cached_or from_ssm
served = refl

abbrev placeholder : Headers → Exchange (List String)
placeholder headers = response 200 ("Market 1" ∷ [])
