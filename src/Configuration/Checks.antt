-- ===== src/Configuration/Checks.antt =====
-- The diagnostics of internal/config/errors.go, the accessors of `Config` in config.go, and the
-- checks of one value at the end of validate.go. A check answers the diagnostics that it appends.
-- Their prose, `Problem` and `Remedy`, is left out.
pub mod Silence
use awesome_lambda_auth.Common.{
  ◌++◌, ℕ, String, Bool, true, false, not, ◌&&◌, ◌||◌, Option, none, some, List, [], ◌∷◌, str_eq,
  if◌then◌else◌, ℤ, pos, lt_int, lookup,
}
use awesome_lambda_auth.Configuration.Blocks.{Secret, ResolvedSecret, Duration}
use awesome_lambda_auth.Configuration.Surfaces.{Config, IdProvider, Migration}
use awesome_lambda_auth.Configuration.Text.{
  Std, Url, trim_space, contains_any, has_prefix, contains, before, from_first,
}

pub data Severity : Type 0 where
  error warning : Severity

pub record Diagnostic : Type 0 where
  pub severity : Severity
  pub path : String
  pub rule : String
  pub source : String

abbrev or_source : Option String → String
or_source none = "default"
or_source (some s) = s

-- `Config.Source`
unfoldable pub source : Config → String → String
source c path = or_source (lookup path c.sources)

unfoldable pub errf : Config → String → String → Diagnostic
errf c rule path = record {
  severity = Severity.error;
  path = path;
  rule = rule;
  source = source c path;
}

-- A diagnostic where the test of it holds.
abbrev pub report : Bool → Diagnostic → List Diagnostic
report true d = d ∷ []
report false d = []

-- One check after another.
infixr 65 ◌and◌
abbrev pub ◌and◌ : List Diagnostic → List Diagnostic → List Diagnostic
a and b = a ++ b

unfoldable pub configured : Secret → Bool
configured s =
    not (str_eq s.secrets_manager "")
    || not (str_eq s.ssm_parameter "")
    || not (str_eq s.env_var "")

abbrev value_of : Option ResolvedSecret → String
value_of none = ""
value_of (some r) = r.value

abbrev failed_of : Option ResolvedSecret → Bool
failed_of none = false
failed_of (some r) = r.failed

unfoldable pub secret_value : Config → String → String
secret_value c path = value_of (lookup path c.secrets)

unfoldable pub secret_failed : Config → String → Bool
secret_failed c path = failed_of (lookup path c.secrets)

unfoldable pub is_production : Config → Bool
is_production c = str_eq c.deployment.environment "production"

unfoldable pub active : IdProvider → Bool
unfolding configured
active i = i.enabled || configured i.private_key || not (str_eq (trim_space i.kms_key_id) "")

unfoldable pub cookie_delivery_active : Config → Bool
cookie_delivery_active c = not c.resource_server.enabled || c.admin.enabled

unfoldable pub admin_guard_verifies_tokens : Config → Bool
admin_guard_verifies_tokens c = c.admin.enabled && not (str_eq c.admin.access_policy "open")

unfoldable pub migration_active : Migration → Bool
migration_active m = not (str_eq (trim_space m.source) "")

unfoldable pub dual_read : Migration → Bool
unfolding migration_active
dual_read m = migration_active m && str_eq m.mode "dual-read"

unfoldable pub verifier_configured : Migration → Bool
unfolding migration_active
verifier_configured m = migration_active m && not (str_eq (trim_space m.client_id) "")

unfoldable pub is_one_of : String → List String → Bool
is_one_of got [] = false
is_one_of got (a ∷ rest) = str_eq got a || is_one_of got rest

module _ (c : Config) where
  unfoldable pub enum : String → String → List String → List Diagnostic
  unfolding is_one_of errf
  enum path got allowed = report (not (is_one_of got allowed)) (errf c "" path)

  unfoldable pub at_least : String → ℤ → ℕ → List Diagnostic
  unfolding errf
  at_least path got floor = report (lt_int got (pos floor)) (errf c "" path)

  unfoldable pub positive : String → ℤ → List Diagnostic
  unfolding errf
  positive path got = report (lt_int got (pos 1)) (errf c "" path)

  -- The value lies outside `low` to `high`.
  unfoldable pub in_range : String → ℤ → ℕ → ℕ → List Diagnostic
  unfolding errf
  in_range path got low high =
      report (lt_int got (pos low) || lt_int (pos high) got) (errf c "" path)

  unfoldable pub ttl : String → Duration → Bool → List Diagnostic
  unfolding errf
  ttl path v required =
      if str_eq v.raw "" then report required (errf c "RS-9" path) else (elim v.err [
        | some e ↦ errf c "RS-9" path ∷ []
        | none ↦ report (lt_int v.d (pos 1)) (errf c "RS-9" path)
      ])

  unfoldable pub absolute_path : String → String → List Diagnostic
  unfolding errf
  absolute_path path got =
      if str_eq got ""
      then errf c "" path ∷ []
      else report (not (has_prefix got "/")) (errf c "" path)

  unfoldable pub email_address : String → String → List Diagnostic
  unfolding errf
  email_address path got =
      let missing = str_eq (before b'@' got) got in
      let leads = str_eq (before b'@' got) "" in
      let trails = str_eq (from_first b'@' got) "@" in
      report
        (missing
          || leads
          || trails
          || contains_any (b' ' ∷ 9 ∷ []) got
          || not (contains (from_first b'@' got) "."))
        (errf c "" path)

  module _ (x : Std) where
    -- A parsed URL has a scheme and a host.
    unfoldable pub absolute : String → Option Url
    absolute got = elim (x.parse_url got) [
      | none ↦ none
      | some u ↦ if str_eq u.scheme "" || str_eq u.host "" then none else some u
    ]

    unfoldable pub absolute_url : String → String → Bool → List Diagnostic
    unfolding absolute errf
    absolute_url path got require_https = elim (absolute got) [
      | none ↦ errf c "" path ∷ []
      | some u ↦ report (require_https && not (str_eq u.scheme "https")) (errf c "" path)
    ]

    unfoldable pub is_loopback_host : String → Bool
    is_loopback_host host = is_one_of (x.to_lower host) ("localhost" ∷ "127.0.0.1" ∷ "::1" ∷ [])

    unfoldable pub is_loopback_url : String → Bool
    is_loopback_url raw = elim (x.parse_url (trim_space raw)) [
      | none ↦ false
      | some u ↦
          if str_eq u.host ""
          then false
          else is_one_of (x.to_lower u.hostname) ("localhost" ∷ "::1" ∷ [])
            || x.is_loopback_ip (x.to_lower u.hostname)
    ]

    unfoldable pub check_redirect_uri : String → String → List Diagnostic
    unfolding absolute errf is_loopback_host
    check_redirect_uri path raw = elim (absolute raw) [
      | none ↦ errf c "" path ∷ []
      | some u ↦
          report
            (not
              (str_eq u.scheme "https" || (str_eq u.scheme "http" && is_loopback_host u.hostname)))
            (errf c "" path)
    ]
