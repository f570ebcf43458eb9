-- ===== src/Configuration/Load.antt =====
-- internal/config/load.go: from the layered tree to the configuration or the list of its problems.
-- The layers themselves (the decoded document and the table of the environment) are an argument:
-- the tree, and what applying them reported.
pub mod Outcome
pub mod Signing
use Prim.Native.String.{◌++◌}
use mathlib.Core.List.{◌++◌ as append}
use awesome_lambda_auth.Common.{
  ℕ, String, Bool, true, false, not, ◌&&◌, ◌||◌, Option, none, some, List, [], ◌∷◌, str_eq,
  if◌then◌else◌, lookup,
}
use awesome_lambda_auth.Configuration.Blocks.{ResolvedSecret}
use awesome_lambda_auth.Configuration.Surfaces.{Config}
use awesome_lambda_auth.Configuration.Sorting.{sort_stable, le_text, sorted_keys}
use awesome_lambda_auth.Configuration.Text.{Std, trim_space, trim_right_of}
use awesome_lambda_auth.Configuration.Checks.{Diagnostic, report, ◌and◌, is_production, active}
use awesome_lambda_auth.Configuration.Validate.{validate}
use awesome_lambda_auth.Configuration.Rules.{check_rules}
use awesome_lambda_auth.Configuration.StoreRules.{StoreCapabilities, builtin_capabilities}
use awesome_lambda_auth.Configuration.Phases.{check_phase_gaps, warn}
use awesome_lambda_auth.Configuration.Secrets.{
  Lookup, Resolvers, defaulted_resolvers, resolve_secrets,
}

abbrev if_empty : String → String → String
if_empty usual s = if str_eq s "" then usual else s

-- Path first, and rule among the same paths.
unfoldable pub reported_before : Diagnostic → Diagnostic → Bool
unfolding le_text
reported_before a b = if str_eq a.path b.path then le_text a.rule b.rule else le_text a.path b.path

unfoldable pub warned_before : Diagnostic → Diagnostic → Bool
unfolding le_text
warned_before a b = le_text a.path b.path

-- `diagnostics.err`: `none` where nothing was reported.
unfoldable pub err : List Diagnostic → Option (List Diagnostic)
unfolding reported_before
err [] = none
err (d ∷ rest) = some (sort_stable reported_before (d ∷ rest))

-- `ValidationError.Rule`, the first diagnostic of a rule.
unfoldable pub rule_of : String → List Diagnostic → Option Diagnostic
rule_of rule [] = none
rule_of rule (d ∷ rest) = if str_eq d.rule rule then some d else rule_of rule rest

pub data Loaded : Type 0 where
  refused : List Diagnostic → Loaded
  loaded : Config → List Diagnostic → Loaded

pub record Options : Type 0 where
  pub getenv : String → Option String
  pub secrets : Resolvers
  pub capabilities : Option (String → StoreCapabilities)
  pub allow_unimplemented : Bool

unfoldable pub capabilities_for : Options → String → StoreCapabilities
unfolding builtin_capabilities
capabilities_for opts = elim opts.capabilities [
  | none ↦ builtin_capabilities
  | some capabilities ↦ capabilities
]

module _ (x : Std) where
  unfoldable pub normalize_enum : String → String
  normalize_enum s = x.to_lower (trim_space s)

  unfoldable pub derive : Config → Config
  unfolding normalize_enum
  derive c = record c {
    deployment = record c.deployment { environment = normalize_enum c.deployment.environment };
    cookies = record c.cookies {
      same_site = normalize_enum c.cookies.same_site;
      refresh_token_path =
          if_empty (trim_right_of b'/' c.http.api_prefix ++ "/refresh")
            c.cookies.refresh_token_path;
    };
    sessions = record { check_on = if_empty "refresh" (normalize_enum c.sessions.check_on) };
    email = record c.email {
      verification = record { mode = normalize_enum c.email.verification.mode };
      mailer = record c.email.mailer { default_lang = normalize_enum c.email.mailer.default_lang };
    };
    stores = record c.stores { driver = normalize_enum c.stores.driver };
    oauth = record c.oauth {
      provisioning = record c.oauth.provisioning {
        on_email_match = if_empty "link" (normalize_enum c.oauth.provisioning.on_email_match);
      };
    };
    tools = record c.tools {
      auth = trim_space c.tools.auth;
      sse = record c.tools.sse {
        distributor = record c.tools.sse.distributor {
          type = normalize_enum c.tools.sse.distributor.type;
        };
      };
    };
    rate_limit = record c.rate_limit { key_by = normalize_enum c.rate_limit.key_by };
    docs = record {
      swagger = normalize_enum c.docs.swagger;
      base_path = if_empty c.http.api_prefix c.docs.base_path;
    };
    admin = record c.admin { access_policy = trim_space c.admin.access_policy };
  }

  abbrev is_plain_env : Option ResolvedSecret → Bool
  is_plain_env none = false
  is_plain_env (some r) = str_eq r.source "env" && not r.failed && not (str_eq r.value "")

  unfoldable pub env_secret_warnings : Config → List String → List Diagnostic
  unfolding warn
  env_secret_warnings c [] = []
  env_secret_warnings c (path ∷ rest) =
      report (is_plain_env (lookup path c.secrets)) (warn c path) and env_secret_warnings c rest

  abbrev is_none : List String → Bool
  is_none [] = true
  is_none (first ∷ rest) = false

  unfoldable pub collect_warnings : Config → List Diagnostic
  unfolding warn normalize_enum is_production env_secret_warnings
  collect_warnings c =
      report
        (active c.id_provider
          && str_eq c.id_provider.issuer ""
          && str_eq (trim_space c.deployment.public_url) ""
          && is_none c.email.site_urls)
        (warn c "idProvider.issuer")
      and report (c.resource_server.enabled && str_eq c.resource_server.issuer "")
          (warn c "resourceServer.issuer")
      and report (str_eq (normalize_enum c.tools.auth) "none" || str_eq c.tools.auth "")
          (warn c "tools.auth")
      and (if is_production c then env_secret_warnings c (sorted_keys c.secrets) else [])
      and report (is_production c && str_eq c.docs.swagger "true") (warn c "docs.swagger")
      and report (not (str_eq c.cookies.domain "") && c.cookies.secure) (warn c "cookies.domain")

  -- Everything that is checked of the tree whose secrets are resolved, whatever was reported before.
  unfoldable pub problems : Options → Config → List Diagnostic
  problems opts c =
      validate x c
      and check_rules c x (capabilities_for opts)
      and (check_phase_gaps x c opts.allow_unimplemented).0

  -- The tree behind `derive` and the secrets, and everything that was reported of it. `layered` is
  -- what the first three steps of `Load` reported.
  unfoldable pub resolved : Options → Config → Config × List Diagnostic
  resolved opts tree =
      resolve_secrets (defaulted_resolvers opts.secrets opts.getenv) opts.getenv (derive tree)

  unfoldable pub reported : Options → Config → List Diagnostic → List Diagnostic
  reported opts tree layered =
      layered and (resolved opts tree).1 and problems opts (resolved opts tree).0

  -- What `Warnings` answers of the tree that `Load` hands out.
  unfoldable pub warnings : Options → Config → List Diagnostic
  warnings opts c =
      sort_stable warned_before
        (append (check_phase_gaps x c opts.allow_unimplemented).1 (collect_warnings c))

  -- `Load` from its fourth step on.
  unfoldable pub load : Options → Config → List Diagnostic → Loaded
  load opts tree layered = elim (err (reported opts tree layered)) [
    | some list ↦ refused list
    | none ↦ loaded (resolved opts tree).0 (warnings opts (resolved opts tree).0)
  ]
