-- ===== src/Configuration/Secrets.antt =====
-- internal/config/secret.go: the slots of the secret knobs, and how each is resolved.
pub mod Failed
use Prim.Native.String.{◌++◌}
use mathlib.Core.List.{◌++◌ as append}
use awesome_lambda_auth.Common.{
  String, Bool, true, false, not, Option, none, some, List, [], ◌∷◌, str_eq, if◌then◌else◌, insert,
}
use awesome_lambda_auth.Configuration.Blocks.{Secret, ResolvedSecret}
use awesome_lambda_auth.Configuration.Surfaces.{Config, IdpClient}
use awesome_lambda_auth.Configuration.Sorting.{sorted_keys}
use awesome_lambda_auth.Configuration.Text.{trim_space}
use awesome_lambda_auth.Configuration.Checks.{Diagnostic, errf, configured}
use awesome_lambda_auth.Configuration.Validate.Clients.{
  upper_snake, client_env_name, client_secret_path,
}
use awesome_lambda_auth.Configuration.Validate.Providers.{provider_of, no_secret}

pub record SecretSlot : Type 0 where
  pub path : String
  pub env : String
  pub get : Config → Secret

unfoldable pub provider_slots : List String → List SecretSlot
unfolding provider_of
provider_slots [] = []
provider_slots (name ∷ rest) =
    record {
      path = "oauth.providers." ++ (name ++ ".clientSecret");
      env = "AWESOME_AUTH_OAUTH_" ++ (upper_snake name ++ "_CLIENT_SECRET");
      get = λ c. (provider_of c name).client_secret;
    }
    ∷ provider_slots rest

-- The first client that has the id.
unfoldable pub client_secret_of : String → List IdpClient → Secret
client_secret_of id [] = no_secret
client_secret_of id (candidate ∷ rest) =
    if str_eq (trim_space candidate.client_id) id
    then candidate.client_secret
    else client_secret_of id rest

unfoldable pub client_slots : List IdpClient → List SecretSlot
unfolding client_secret_of
client_slots [] = []
client_slots (client ∷ rest) =
    let id = trim_space client.client_id in
    let later = client_slots rest in
    if str_eq id ""
    then later
    else record {
      path = client_secret_path id;
      env = client_env_name id;
      get = λ c. client_secret_of id c.id_provider.clients;
    }
      ∷ later

abbrev fixed : String → String → (Config → Secret) → SecretSlot
fixed path env get = record { path = path; env = env; get = get }

abbrev fixed_slots : List SecretSlot
fixed_slots =
    fixed "security.jwt.accessTokenSecret" "AWESOME_AUTH_JWT_ACCESS_SECRET"
      (λ c. c.security.jwt.access_token_secret)
    ∷ fixed "security.jwt.refreshTokenSecret" "AWESOME_AUTH_JWT_REFRESH_SECRET"
        (λ c. c.security.jwt.refresh_token_secret)
    ∷ fixed "security.jwt.claimsWebhook.secret" "AWESOME_AUTH_JWT_CLAIMS_WEBHOOK_SECRET"
        (λ c. c.security.jwt.claims_webhook.secret)
    ∷ fixed "email.mailer.apiKey" "AWESOME_AUTH_MAILER_API_KEY" (λ c. c.email.mailer.api_key)
    ∷ fixed "email.deliveryWebhook.secret" "AWESOME_AUTH_EMAIL_DELIVERY_WEBHOOK_SECRET"
        (λ c. c.email.delivery_webhook.secret)
    ∷ fixed "sms.apiKey" "AWESOME_AUTH_SMS_API_KEY" (λ c. c.sms.api_key)
    ∷ fixed "sms.username" "AWESOME_AUTH_SMS_USERNAME" (λ c. c.sms.username)
    ∷ fixed "sms.password" "AWESOME_AUTH_SMS_PASSWORD" (λ c. c.sms.password)
    ∷ fixed "idProvider.privateKey" "AWESOME_AUTH_IDP_PRIVATE_KEY" (λ c. c.id_provider.private_key)
    ∷ fixed "admin.bootstrapSecret" "AWESOME_AUTH_ADMIN_BOOTSTRAP_SECRET"
        (λ c. c.admin.bootstrap_secret)
    ∷ fixed "admin.rootUser.passwordHash" "AWESOME_AUTH_ADMIN_ROOT_PASSWORD_HASH"
        (λ c. c.admin.root_user.password_hash)
    ∷ fixed "stores.connection.password" "AWESOME_AUTH_STORES_CONNECTION_PASSWORD"
        (λ c. c.stores.connection.password)
    ∷ fixed "tools.sse.distributor.password" "AWESOME_AUTH_TOOLS_SSE_DISTRIBUTOR_PASSWORD"
        (λ c. c.tools.sse.distributor.password)
    ∷ []

unfoldable pub secret_slots : Config → List SecretSlot
unfolding provider_slots client_slots
secret_slots c =
    append fixed_slots
      (append (provider_slots (sorted_keys c.oauth.providers)) (client_slots c.id_provider.clients))

-- What a store answers for a reference: `ErrSecretNotFound` apart from any other error.
pub data Lookup : Type 0 where
  found : String → Lookup
  not_found broken : Lookup

pub record Resolvers : Type 0 where
  pub secrets_manager : Option (String → Lookup)
  pub ssm : Option (String → Lookup)
  pub env : Option (String → Lookup)

abbrev or_unavailable : Option (String → Lookup) → String → Lookup
or_unavailable none ref = broken
or_unavailable (some resolve) ref = resolve ref

-- `EnvSecretResolver.Resolve`
unfoldable pub env_resolve : (String → Option String) → String → Lookup
env_resolve getenv ref = elim (getenv ref) [
  | none ↦ not_found
  | some v ↦ if str_eq v "" then not_found else found v
]

abbrev or_env : (String → Option String) → Option (String → Lookup) → Option (String → Lookup)
or_env getenv none = some (env_resolve getenv)
or_env getenv (some resolve) = some resolve

-- A store that is not wired answers as an `UnavailableResolver`.
unfoldable pub defaulted_resolvers : Resolvers → (String → Option String) → Resolvers
unfolding env_resolve
defaulted_resolvers r getenv = record {
  secrets_manager = some (or_unavailable r.secrets_manager);
  ssm = some (or_unavailable r.ssm);
  env = or_env getenv r.env;
}

unfoldable pub reference_or : Option String → String → String
reference_or none old = old
reference_or (some v) old = if str_eq (trim_space v) "" then old else trim_space v

unfoldable pub apply_secret_ref_env : Secret → SecretSlot → (String → Option String) → Secret
unfolding reference_or
apply_secret_ref_env s slot getenv = record s {
  secrets_manager = reference_or (getenv (slot.env ++ "_SECRETSMANAGER")) s.secrets_manager;
  ssm_parameter = reference_or (getenv (slot.env ++ "_SSM_PARAMETER")) s.ssm_parameter;
}

-- The answer of the walk, and the store that gave it.
pub record Resolution : Type 0 where
  pub reply : Lookup
  pub source : String

abbrev pub resolution : String → Lookup → Resolution
resolution source answer = record { reply = answer; source = source }

-- A store is asked where it is referenced, and where it has no entry the walk goes on.
abbrev pub ask : String → String → Option (String → Lookup) → Resolution → Resolution
ask source ref resolver later =
    if str_eq ref "" then later else (elim (or_unavailable resolver ref) [
      | found v ↦ resolution source (found v)
      | not_found ↦ later
      | broken ↦ resolution source broken
    ])

unfoldable pub env_name : Secret → SecretSlot → String
env_name s slot = if str_eq s.env_var "" then slot.env else s.env_var

unfoldable pub resolve_one : Secret → SecretSlot → Resolvers → Resolution
unfolding env_name
resolve_one s slot r =
    ask "secretsmanager" s.secrets_manager r.secrets_manager
      (ask "ssm" s.ssm_parameter r.ssm (resolution "env" (or_unavailable r.env (env_name s slot))))

unfoldable pub describe_secret_origin : Secret → SecretSlot → String → String
unfolding env_name
describe_secret_origin s slot source =
    if str_eq source "secretsmanager"
    then "Secrets Manager reference " ++ s.secrets_manager
    else if str_eq source "ssm"
    then "SSM parameter " ++ s.ssm_parameter
    else env_name s slot

-- The outcome of one slot on the tree and the diagnostics.
abbrev keep_secret : Config → String → ResolvedSecret → Config
keep_secret c path resolved = record c { secrets = insert path resolved c.secrets }

unfoldable pub record_resolution :
    Config → Secret → SecretSlot → Resolution → Config × List Diagnostic
unfolding configured errf describe_secret_origin
record_resolution c s slot r = elim r.reply [
  | found v ↦ (
    record c {
      secrets =
          insert slot.path (record { value = v; source = r.source; failed = false }) c.secrets;
      sources = insert slot.path (describe_secret_origin s slot r.source) c.sources;
    },
    [],
  )
  | not_found ↦ (c, [])
  | broken ↦
      if configured s
      then (
        keep_secret c slot.path (record { value = ""; source = r.source; failed = true }),
        errf c "SECRET" slot.path ∷ [],
      )
      else (c, [])
]

abbrev is_malformed : Option String → Bool
is_malformed none = false
is_malformed (some e) = true

unfoldable pub resolve_slot :
    Resolvers → (String → Option String) → Config → SecretSlot → Config × List Diagnostic
unfolding apply_secret_ref_env errf resolve_one record_resolution
resolve_slot r getenv c slot =
    let s = apply_secret_ref_env (slot.get c) slot getenv in
    if not (str_eq s.literal "")
    then (c, errf c "SECRET" slot.path ∷ [])
    else if is_malformed s.err
    then (c, errf c "SECRET" slot.path ∷ [])
    else record_resolution c s slot (resolve_one s slot r)

unfoldable pub resolve_slots :
    Resolvers → (String → Option String) → Config → List SecretSlot → Config × List Diagnostic
unfolding resolve_slot
resolve_slots r getenv c [] = (c, [])
resolve_slots r getenv c (slot ∷ rest) =
    let (c', reported) = resolve_slot r getenv c slot in
    let (resolved, more) = resolve_slots r getenv c' rest in (resolved, append reported more)

unfoldable pub resolve_secrets :
    Resolvers → (String → Option String) → Config → Config × List Diagnostic
unfolding resolve_slots secret_slots
resolve_secrets r getenv c =
    resolve_slots r getenv (record c { secrets = [] }) (secret_slots (record c { secrets = [] }))
