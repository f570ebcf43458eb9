-- ===== src/Configuration/Load/Signing.antt =====
-- What a deployment that starts signs its tokens with.
use Prim.Native.String.{len}
use mathlib.Core.Path.{subst}
use awesome_lambda_auth.Common.{◌≤◌, String, false, ◌⊎◌, inl, inr, List, ◌≡◌, ◌≢◌, arith, ap, sym}
use awesome_lambda_auth.Configuration.Surfaces.{Config}
use awesome_lambda_auth.Configuration.Text.{Std}
use awesome_lambda_auth.Configuration.Checks.{Diagnostic, secret_value, secret_failed}
use awesome_lambda_auth.Configuration.Checks.Silence.{Silent, Silent-append}
use awesome_lambda_auth.Configuration.Secrets.{defaulted_resolvers}
use awesome_lambda_auth.Configuration.Secrets.Failed.{resolve_secrets-failed}
use awesome_lambda_auth.Configuration.Rules.{check_rules}
use awesome_lambda_auth.Configuration.Rules.Safe.{IsSafe, HasSecret, access, refresh}
use awesome_lambda_auth.Configuration.Rules.Table.{check_rules_iff}
use awesome_lambda_auth.Configuration.Validate.{validate}
use awesome_lambda_auth.Configuration.Load.{
  loaded, Options, capabilities_for, problems, reported, resolved, load, derive,
}
use awesome_lambda_auth.Configuration.Load.Outcome.{Concludes, load_outcome}

long_of :
    (c : Config) (path : String)
    → HasSecret c path
    → secret_failed c path ≡ false
    → 32 ≤ len (secret_value c path)
long_of c path (inl failed) read = absurd (cc)
long_of c path (inr long) read = long

apart :
    (c : Config)
    → 32 ≤ len (secret_value c access)
    → (secret_value c access ≡ "") ⊎ (secret_value c access ≢ secret_value c refresh)
    → secret_value c access ≢ secret_value c refresh
apart c long (inl unset) = absurd (omega (arith, ap len unset))
apart c long (inr distinct) = distinct

module _ (x : Std) (opts : Options) (tree : Config) (layered : List Diagnostic) where
  loaded-silent :
      (c : Config) (warnings : List Diagnostic)
      → load x opts tree layered ≡ loaded c warnings
      → Silent (reported x opts tree layered) × ((resolved x opts tree).0 ≡ c)
  loaded-silent c warnings started =
      let (none_reported, same) =
        subst (Concludes (reported x opts tree layered) (resolved x opts tree).0) started
          (load_outcome x opts tree layered) in
      (rw none_reported tt, sym same)

  stages :
      Silent (reported x opts tree layered)
      → Silent (resolved x opts tree).1 × IsSafe (resolved x opts tree).0 x (capabilities_for opts)
  unfolding reported problems
  stages silent =
      let c = (resolved x opts tree).0 in
      let later = (Silent-append layered _).0 silent in
      let (read, checked) = (Silent-append (resolved x opts tree).1 _).0 later.1 in
      let rules = (Silent-append (validate x c) _).0 checked in
      let table = (Silent-append (check_rules c x (capabilities_for opts)) _).0 rules.1 in
      (read, (check_rules_iff c x (capabilities_for opts)).0 table.0)

  -- A deployment that starts satisfies the whole table.
  pub load-IsSafe :
      (c : Config) (warnings : List Diagnostic)
      → load x opts tree layered ≡ loaded c warnings
      → IsSafe c x (capabilities_for opts)
  load-IsSafe c warnings started =
      let (silent, same) = loaded-silent c warnings started in
      subst (λ t. IsSafe t x (capabilities_for opts)) same (stages silent).1

  read_secret :
      (path : String)
      → Silent (resolved x opts tree).1
      → secret_failed (resolved x opts tree).0 path ≡ false
  unfolding resolved
  read_secret path silent =
      resolve_secrets-failed (defaulted_resolvers opts.secrets opts.getenv) opts.getenv
        (derive x tree) path silent

  load-secret_failed :
      (c : Config) (warnings : List Diagnostic) (path : String)
      → load x opts tree layered ≡ loaded c warnings
      → secret_failed c path ≡ false
  load-secret_failed c warnings path started =
      let (silent, same) = loaded-silent c warnings started in
      subst (λ t. secret_failed t path ≡ false) same (read_secret path (stages silent).0)

  -- A deployment that starts, and is no pure resource server, signs with an access secret and
  -- a refresh secret of at least 32 bytes each, and the two differ.
  pub load_signing_secrets :
      (c : Config) (warnings : List Diagnostic)
      → load x opts tree layered ≡ loaded c warnings
      → c.resource_server.enabled ≡ false
      → (32 ≤ len (secret_value c access))
        × (32 ≤ len (secret_value c refresh))
        × (secret_value c access ≢ secret_value c refresh)
  load_signing_secrets c warnings started issues =
      let safe = (load-IsSafe c warnings started).0 in
      let access_read = load-secret_failed c warnings access started in
      let refresh_read = load-secret_failed c warnings refresh started in
      elim safe [
        | inl (verifies, rest) ↦ absurd (cc)
        | inr (mints, held, kept, distinct) ↦
            let long = long_of c access held access_read in
            (long, long_of c refresh kept refresh_read, apart c long distinct)
      ]
