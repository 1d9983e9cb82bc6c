-- ===== src/EngineClient/Keys.antt =====
-- The keys that the calls of api/app/engine_client.py use, and the answers that they let through.
use cpde_web.Prelude.{
  ℕ, String, ◌⊎◌, ◌≡◌, ◌≢◌, refl, ap, ◌∙◌, true, Option, none, some, List, [], ◌∷◌, eq_iff,
  if◌then◌else◌, string_eq, arith,
}
use cpde_web.Prelude.Dict.{get, pop, get-pop, beq_self}
use cpde_web.EngineClient.{
  Called, answered, raised, EngineError, credential_error, ClientRow, KeyCache, secret_of, from_ssm,
  cached_or, resolve_secret, resolve_engine_api_key_for_client, invalidate_engine_api_key_cache,
  drop_secret, client_header, Headers, Exchange, response, is_rejection, received, sent, call,
  reject_placeholder, call_get_markets,
}

-- What the parameter store says of a key.
abbrev pub key_or_error : Option String → Called String
key_or_error none = raised credential_error
key_or_error (some key) = answered key

asked :
    (name : String) (now : ℕ) (cache : KeyCache) (o : Option String)
    → (from_ssm name now o cache).0 ≡ key_or_error o
unfolding from_ssm
asked name now cache none = refl
asked name now cache (some key) = refl

sent-rejected :
    {B : Type 0} (http : Headers → Exchange B) (client : ClientRow) (key : String) (status : ℕ)
    (body : B) (r : Called String × KeyCache)
    → r.0 ≡ answered key
    → http (record { x_api_key = key; x_cda_client_id = client_header client.engine_client_code })
      ≡ response status body
    → is_rejection status ≡ true
    → (sent client http r).1 ≡ drop_secret (secret_of client) r.1
unfolding sent received invalidate_engine_api_key_cache
sent-rejected http client key status body (raised error, cache) e sent_it rejected = cc
sent-rejected http client key status body (answered k, cache) e sent_it rejected =
    let same : k ≡ key = cc in
    ap
      (λ x.
        (received client
          (http
            (record { x_api_key = x; x_cda_client_id = client_header client.engine_client_code }))
          cache).1)
      same
    ∙ ap (λ x. (received client x cache).1) sent_it
    ∙ ap (λ b. if b then drop_secret (secret_of client) cache else cache) rejected

sent-raised :
    {B : Type 0} (http : Headers → Exchange B) (client : ClientRow) (error : EngineError)
    (r : Called String × KeyCache)
    → r.0 ≡ raised error
    → (sent client http r).0 ≡ raised error
unfolding sent
sent-raised http client error (raised x, cache) h = cc
sent-raised http client error (answered key, cache) h = cc

fresh-drop :
    (ssm : String → Option String) (now : ℕ) (name : String) (cache : KeyCache)
    → (resolve_secret ssm now (some name) (drop_secret (some name) cache)).0
      ≡ key_or_error (ssm name)
unfolding resolve_secret drop_secret cached_or
fresh-drop ssm now name cache =
    let gone : get name (pop name cache) ≡ none =
      get-pop name name cache ∙ ap (λ b. if b then none else get name cache) (beq_self name) in
    ap (λ o. (cached_or ssm name now o (pop name cache)).0) gone
    ∙ asked name now (pop name cache) (ssm name)

-- Where a key resolves for a secret of a client and the engine answers the call with 401 or 403,
-- the next resolution, at any time, reads the parameter store anew.
pub resolve-rejected :
    {B : Type 0} (ssm later_ssm : String → Option String) (http : Headers → Exchange B)
    (now later : ℕ) (client : ClientRow) (cache : KeyCache) (name key : String) (status : ℕ)
    (body : B)
    → secret_of client ≡ some name
    → (resolve_engine_api_key_for_client ssm now client cache).0 ≡ answered key
    → http (record { x_api_key = key; x_cda_client_id = client_header client.engine_client_code })
      ≡ response status body
    → (status ≡ 401) ⊎ (status ≡ 403)
    → (resolve_engine_api_key_for_client later_ssm later client
        (call ssm http now client cache).1).0
      ≡ key_or_error (later_ssm name)
unfolding resolve_engine_api_key_for_client call invalidate_engine_api_key_cache
resolve-rejected ssm later_ssm http now later client cache name key status body secret resolved
      sent_it rejected =
    let first = resolve_engine_api_key_for_client ssm now client cache in
    ap (λ c. (resolve_secret later_ssm later (secret_of client) c).0)
      (sent-rejected http client key status body first resolved sent_it (ground arith))
    ∙ ap (λ n. (resolve_secret later_ssm later n (drop_secret n first.1)).0) secret
    ∙ fresh-drop later_ssm later name first.1

-- Where the key does not resolve the call fails with the same error, whatever the engine would
-- have answered.
pub call-credential :
    {B : Type 0} (ssm : String → Option String) (http : Headers → Exchange B) (now : ℕ)
    (client : ClientRow) (cache : KeyCache) (error : EngineError)
    → (resolve_engine_api_key_for_client ssm now client cache).0 ≡ raised error
    → (call ssm http now client cache).0 ≡ raised error
unfolding call
call-credential ssm http now client cache error e =
    sent-raised http client error (resolve_engine_api_key_for_client ssm now client cache) e

real : (c : Called (List String)) → reject_placeholder c ≢ answered ("Market 1" ∷ [])
real (raised x) h = cc
real (answered []) h = cc
real (answered (name ∷ [])) h = ground (arith, eq_iff name "Market 1")
real (answered (a ∷ b ∷ rest)) h = cc

-- The placeholder list of the engine is never answered as the markets of a client.
pub call_get_markets_real :
    (ssm : String → Option String) (http : Headers → Exchange (List String)) (now : ℕ)
    (client : ClientRow) (cache : KeyCache)
    → (call_get_markets ssm http now client cache).0 ≢ answered ("Market 1" ∷ [])
unfolding call_get_markets
call_get_markets_real ssm http now client cache = real (call ssm http now client cache).0
