-- ===== src/Configuration/Validate/Providers.antt =====
-- internal/config/validate.go: the OAuth providers, the identity provider and the resource server.
use Prim.Native.String.{◌++◌}
use awesome_lambda_auth.Common.{
  ℕ, ◌+◌, String, Bool, true, false, not, ◌&&◌, ◌||◌, Option, none, some, List, [], ◌∷◌, str_eq,
  if◌then◌else◌, lookup,
}
use awesome_lambda_auth.Configuration.Blocks.{OAuthProvider, Secret}
use awesome_lambda_auth.Configuration.Surfaces.{Config}
use awesome_lambda_auth.Configuration.Sorting.{sorted_keys}
use awesome_lambda_auth.Configuration.Text.{Std, contains_any, contains}
use awesome_lambda_auth.Configuration.Checks.{
  Diagnostic, errf, report, ◌and◌, is_production, active, enum, positive, ttl, absolute_path,
  absolute_url, is_loopback_url,
}
use awesome_lambda_auth.Configuration.Validate.Credentials.{absolute_urls, is_set}
use awesome_lambda_auth.Configuration.Validate.Clients.{
  validate_id_provider_clients, validate_id_provider_kms,
}

abbrev pub no_secret : Secret
no_secret = record {
  secrets_manager = "";
  ssm_parameter = "";
  env_var = "";
  literal = "";
  err = none;
}

-- The zero value of a provider, and the map's entry.
abbrev pub no_provider : OAuthProvider
no_provider = record {
  client_id = "";
  client_secret = no_secret;
  callback_url = "";
  project_id = "";
  authorization_url = "";
  token_url = "";
  user_info_url = "";
  scope = "";
  additional_auth_params = [];
  profile_map = [];
}

abbrev provider_or_zero : Option OAuthProvider → OAuthProvider
provider_or_zero none = no_provider
provider_or_zero (some p) = p

unfoldable pub provider_of : Config → String → OAuthProvider
provider_of c name = provider_or_zero (lookup name c.oauth.providers)

unfoldable pub is_builtin_oauth_provider : String → Bool
is_builtin_oauth_provider name = str_eq name "google" || str_eq name "github"

module _ (x : Std) (c : Config) where
  -- The endpoint of a provider that is not built in: https, or a loopback host in development.
  unfoldable pub generic_endpoint : String → String → List Diagnostic
  unfolding errf absolute_url is_loopback_url is_production
  generic_endpoint path value =
      if str_eq value ""
      then errf c "" path ∷ []
      else absolute_url c x path value (not (is_loopback_url c x value && not (is_production c)))

  unfoldable pub fixed_endpoint : String → String → List Diagnostic
  unfolding errf
  fixed_endpoint path value = report (not (str_eq value "")) (errf c "" path)

  unfoldable pub validate_provider : String → OAuthProvider → List Diagnostic
  unfolding absolute_url is_builtin_oauth_provider fixed_endpoint generic_endpoint
  validate_provider name p =
      let base = "oauth.providers." ++ name in
      let endpoint = λ (check : String → String → List Diagnostic).
        check (base ++ ".authorizationUrl") p.authorization_url
        and check (base ++ ".tokenUrl") p.token_url
        and check (base ++ ".userInfoUrl") p.user_info_url in
      (if str_eq p.callback_url ""
        then []
        else absolute_url c x (base ++ ".callbackUrl") p.callback_url false)
      and (if is_builtin_oauth_provider name
          then endpoint fixed_endpoint
          else endpoint generic_endpoint)

  unfoldable pub validate_providers : List String → List Diagnostic
  unfolding validate_provider provider_of
  validate_providers [] = []
  validate_providers (name ∷ rest) =
      validate_provider name (provider_of c name) and validate_providers rest

  unfoldable pub email_domains : ℕ → List String → List Diagnostic
  unfolding errf
  email_domains i [] = []
  email_domains i (dom ∷ rest) =
      report (contains_any (b'@' ∷ b'/' ∷ b':' ∷ b' ' ∷ []) dom || not (contains dom "."))
        (errf c "" ("oauth.provisioning.allowedEmailDomains[" ++ (x.itoa i ++ "]")))
      and email_domains (i + 1) rest

  unfoldable pub validate_oauth : List Diagnostic
  unfolding validate_providers enum email_domains
  validate_oauth =
      validate_providers (sorted_keys c.oauth.providers)
      and enum c "oauth.provisioning.onEmailMatch" c.oauth.provisioning.on_email_match
          ("link" ∷ "conflict" ∷ "reject" ∷ [])
      and email_domains 0 c.oauth.provisioning.allowed_email_domains

  abbrev is_star : String → Bool
  is_star origin = str_eq origin "*"

  unfoldable pub validate_id_provider : List Diagnostic
  unfolding ttl absolute_path absolute_url errf absolute_urls validate_id_provider_kms
      validate_id_provider_clients
  validate_id_provider =
      let i = c.id_provider in
      ttl c "idProvider.accessTokenTtl" i.access_token_ttl (active i)
      and ttl c "idProvider.refreshTokenTtl" i.refresh_token_ttl (active i)
      and absolute_path c "idProvider.jwksPath" i.jwks_path
      and (if str_eq i.issuer "" then [] else absolute_url c x "idProvider.issuer" i.issuer true)
      and report (is_set i.jwks_cors_origins.err) (errf c "" "idProvider.jwksCorsOrigins")
      and absolute_urls x c "idProvider.jwksCorsOrigins" is_star 0 i.jwks_cors_origins.values
      and report (not (str_eq i.public_key "") && not (contains i.public_key "-----BEGIN"))
          (errf c "" "idProvider.publicKey")
      and validate_id_provider_kms x c
      and validate_id_provider_clients x c

  unfoldable pub validate_resource_server : List Diagnostic
  unfolding positive
  validate_resource_server =
      positive c "resourceServer.jwksCacheTtlMs" c.resource_server.jwks_cache_ttl_ms
      and positive c "resourceServer.jwksFetchTimeoutMs" c.resource_server.jwks_fetch_timeout_ms
