-- ===== src/Tests/Settings.antt =====
-- A deployment, and the theorems on its configuration at it.

use Prim.Native.String.{◌++◌, len}
use Prim.Native.Char.{code}
use awesome_lambda_auth.Configuration.Load.Outcome.{Concludes, load-loaded, load_outcome}
use awesome_lambda_auth.Configuration.Validate.Clients.Registry.{
  ApartBy, id_of, validate_id_provider_clients-Silent, env_of, IsClient,
}
use awesome_lambda_auth.Common.{
  inl, ◌≢◌, ◌↔◌, All, ◌≤◌, ◌∙◌, ap, ℕ, ◌+◌, ◌-◌, ◌*◌, String, true, false, Option, none, some, List,
  [], ◌∷◌, ◌≡◌, refl, str_eq, if◌then◌else◌, pos, lookup, insert,
}
use awesome_lambda_auth.Configuration.Duration.Grammar.{parse_ms_lem, fraction_text}
use awesome_lambda_auth.Configuration.Blocks.{bad_number}
use awesome_lambda_auth.Configuration.Duration.{malformed, ms_units, span_of, parse_ms, spans}
use awesome_lambda_auth.Configuration.Load.{
  warnings, load, problems, reported, resolved, derive, capabilities_for, Options, Loaded, loaded,
  refused,
}
use awesome_lambda_auth.Configuration.Load.Signing.{load_signing_secrets}
use awesome_lambda_auth.Configuration.Validate.Clients.{
  is_client_id_safe, client_secret_path, client_env_name, upper_snake, validate_id_provider_clients,
}
use awesome_lambda_auth.Configuration.Rules.Safe.{refresh, IsSafe, access}
use awesome_lambda_auth.Configuration.Rules.Table.{check_rules_iff}
use awesome_lambda_auth.Configuration.Rules.{
  check_identity_mode_conflict, check_rs8_resource_server_jwks, check_rs6_admin_guard,
  check_rs5_same_site, check_rs4_id_provider_keys, check_rs3_csrf, host_of, is_shared_aws_domain,
  check_rs2_insecure_cookie_mode, check_secret, check_secret_pair, check_rs1_secrets, check_rules,
}
use awesome_lambda_auth.Configuration.StoreRules.{
  builtin_capabilities, has_migration_knobs, runtime_settings_configured, check_store_requirements,
  check_rs13_migration, check_rs12_memory_store, check_named_providers, check_rs11_oauth_providers,
  check_rs10_first_user,
}
use awesome_lambda_auth.Configuration.Validate.Ranges.{validate-IsInRange, IsInRange}
use awesome_lambda_auth.Configuration.Checks.Silence.{Silent}
use awesome_lambda_auth.Configuration.Text.{
  is_digit, has_suffix, trim_suffix_of, from_first, before, contains, contains_any, Std, trim_space,
  trim_right_of, has_prefix,
}
use awesome_lambda_auth.Configuration.Validate.Providers.{no_secret}
use awesome_lambda_auth.Configuration.Checks.{secret_failed, secret_value, active, Diagnostic}
use awesome_lambda_auth.Configuration.Phases.{tools_configured, admin_configured, check_phase_gaps}
use awesome_lambda_auth.Configuration.Validate.{validate}
use awesome_lambda_auth.Configuration.Surfaces.{Config}
use awesome_lambda_auth.Configuration.Defaults.{defaults}
use awesome_lambda_auth.Configuration.Secrets.{resolve_secrets, defaulted_resolvers}
use awesome_lambda_auth.Configuration.Sorting.{sorted_keys}

-- The number of plain digits.
read_digits : ℕ → String → ℕ
read_digits n String.[] = n
read_digits n (String.◌∷◌ letter rest) = read_digits (n * 10 + (code letter - b'0')) rest

abbrev std : Std
unfolding has_prefix read_digits
std = record {
  to_lower = λ s. s;
  parse_url = λ s.
      if has_prefix s "https://"
      then some
          (record { scheme = "https"; host = "auth.example.com"; hostname = "auth.example.com" })
      else none;
  is_loopback_ip = λ s. false;
  itoa = λ n. "0";
  is_float = λ s. true;
  float_times = λ number span. pos (read_digits 0 number * span);
}

abbrev environment : String → Option String
environment name =
    if str_eq name "AWESOME_AUTH_JWT_ACCESS_SECRET"
    then some "an access secret of 32 bytes or more"
    else if str_eq name "AWESOME_AUTH_JWT_REFRESH_SECRET"
    then some "a refresh secret of 32 bytes or more"
    else none

abbrev options : Options
options = record {
  getenv = environment;
  secrets = record { secrets_manager = none; ssm = none; env = none };
  capabilities = none;
  allow_unimplemented = false;
}

abbrev tree : Config
unfolding defaults
tree = record (defaults std) {
  deployment = record {
    environment = "production";
    stage = "";
    public_url = "https://auth.example.com";
  };
  stores = record (defaults std).stores {
    driver = "dynamodb";
    connection = record (defaults std).stores.connection { table_name = "auth" };
  };
}

abbrev warned : Loaded → List Diagnostic
warned (refused list) = []
warned (loaded c warnings) = warnings

fifteen_minutes : parse_ms std "15m" ≡ spans (pos 900_000_000_000)
unfolding parse_ms trim_space std lookup
fifteen_minutes = refl

abbrev derived : Config
unfolding tree
derived = record tree {
  cookies = record tree.cookies { refresh_token_path = "/auth/refresh" };
  docs = record tree.docs { base_path = "/auth" };
}

derives : derive std tree ≡ derived
unfolding derive trim_space std trim_right_of tree
derives = refl

abbrev ready : Config
unfolding derived
ready = record derived {
  secrets =
      (
        "security.jwt.accessTokenSecret",
        record { value = "an access secret of 32 bytes or more"; source = "env"; failed = false },
      )
      ∷ (
        "security.jwt.refreshTokenSecret",
        record { value = "a refresh secret of 32 bytes or more"; source = "env"; failed = false },
      )
      ∷ [];
  sources =
      ("security.jwt.accessTokenSecret", "AWESOME_AUTH_JWT_ACCESS_SECRET")
      ∷ ("security.jwt.refreshTokenSecret", "AWESOME_AUTH_JWT_REFRESH_SECRET")
      ∷ [];
}

resolves :
    resolve_secrets (defaulted_resolvers options.secrets options.getenv) options.getenv derived
    ≡ (ready, [])
unfolding resolve_secrets defaulted_resolvers sorted_keys trim_space lookup insert derived ready std
    tree
resolves = refl

resolved-ready : resolved std options tree ≡ (ready, [])
unfolding resolved
resolved-ready =
    ap
      (λ (c : Config).
        resolve_secrets (defaulted_resolvers options.secrets options.getenv) options.getenv c)
      derives
    ∙ resolves

ready_valid : validate std ready ≡ []
unfolding validate ready derived tree std sorted_keys trim_space lookup contains_any contains
    has_prefix before from_first active secret_value secret_failed
ready_valid = refl

ready_rules : check_rules ready std builtin_capabilities ≡ []
unfolding check_rules check_rs1_secrets check_secret_pair check_secret
    check_rs2_insecure_cookie_mode is_shared_aws_domain host_of check_rs3_csrf
    check_rs4_id_provider_keys check_rs5_same_site check_rs6_admin_guard
    check_rs8_resource_server_jwks check_identity_mode_conflict check_rs10_first_user
    check_rs11_oauth_providers check_named_providers check_rs12_memory_store check_rs13_migration
    check_store_requirements runtime_settings_configured has_migration_knobs ready derived tree std
    sorted_keys trim_space lookup trim_suffix_of has_suffix has_prefix before active secret_value
    secret_failed
ready_rules = refl

ready_phases : (check_phase_gaps std ready false).0 ≡ []
unfolding check_phase_gaps admin_configured tools_configured ready derived tree std has_prefix
    trim_space lookup
ready_phases = refl

nothing_reported : reported std options tree [] ≡ []
unfolding reported problems capabilities_for
nothing_reported = rw (resolved-ready, ready_valid, ready_rules, ready_phases) refl

issues : (resolved std options tree).0.resource_server.enabled ≡ false
unfolding ready derived tree
issues = rw resolved-ready refl

check_rules_iff_example :
    Silent (check_rules ready std builtin_capabilities) ↔ IsSafe ready std builtin_capabilities
check_rules_iff_example = check_rules_iff ready std builtin_capabilities

load_outcome_example :
    Concludes
      (reported std options tree [])
      (resolved std options tree).0
      (load std options tree [])
load_outcome_example = load_outcome std options tree []

load_signing_secrets_example :
    (32 ≤ len (secret_value (resolved std options tree).0 access))
    × (32 ≤ len (secret_value (resolved std options tree).0 refresh))
    × (secret_value (resolved std options tree).0 access
        ≢ secret_value (resolved std options tree).0 refresh)
load_signing_secrets_example =
    load_signing_secrets std options tree [] (resolved std options tree).0
      (warnings std options (resolved std options tree).0)
      (load-loaded std options tree [] nothing_reported) issues

validate-IsInRange_example : IsInRange ready
validate-IsInRange_example = validate-IsInRange std ready (rw ready_valid tt)

parse_ms_lem_example : parse_ms std " 1.5h " ≡ (
    if std.is_float ("" ++ ("1" ++ fraction_text (some "5")))
    then span_of
        (lookup (std.to_lower (trim_space "h")) ms_units)
        (std.float_times ("" ++ ("1" ++ fraction_text (some "5"))))
    else malformed bad_number)
unfolding trim_space is_digit
parse_ms_lem_example =
    parse_ms_lem std " 1.5h " "" "1" "h" (some "5") refl (inl refl) (refl, tt) (refl, tt)
      (λ e. cc e) refl

-- Two relying parties whose variables differ.
abbrev relying : Config
unfolding ready
relying = record ready {
  id_provider = record ready.id_provider {
    clients =
        record {
          client_id = "console";
          client_secret = no_secret;
          redirect_uris = "https://auth.example.com/a" ∷ [];
          name = "";
        }
        ∷ record {
          client_id = "ops-console";
          client_secret = no_secret;
          redirect_uris = "https://auth.example.com/b" ∷ [];
          name = "";
        }
        ∷ [];
  };
  secrets =
      (
        "idProvider.clients.console.clientSecret",
        record { value = "s"; source = "env"; failed = false },
      )
      ∷ (
        "idProvider.clients.ops-console.clientSecret",
        record { value = "t"; source = "env"; failed = false },
      )
      ∷ [];
}

relying_valid : Silent (validate_id_provider_clients std relying)
unfolding validate_id_provider_clients relying ready derived tree std trim_space lookup upper_snake
    client_env_name client_secret_path is_client_id_safe has_prefix
relying_valid = tt

validate_id_provider_clients-Silent_example :
    All (IsClient std relying) relying.id_provider.clients
    × ApartBy id_of relying.id_provider.clients
    × ApartBy env_of relying.id_provider.clients
validate_id_provider_clients-Silent_example =
    validate_id_provider_clients-Silent std relying relying_valid
