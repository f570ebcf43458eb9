-- ===== src/Configuration/Rules/Addresses.antt =====
-- The rules on hosts, URLs and providers: each is silent exactly where its part of the table holds.
use Prim.Native.String.{◌++◌}
use awesome_lambda_auth.Common.{
  ◌&&◌, str_eq, String, true, false, not, ◌⊎◌, inl, inr, ◌≡◌, ◌≢◌, refl, ◌↔◌, arith, eq_iff, List,
  [], ◌∷◌, none, some, Option, All,
}
use awesome_lambda_auth.Configuration.Surfaces.{Config}
use awesome_lambda_auth.Configuration.Text.{Std, Url}
use awesome_lambda_auth.Configuration.Text.Suffix.{has_suffix_iff}
use awesome_lambda_auth.Configuration.Sorting.{sorted_keys}
use awesome_lambda_auth.Configuration.Checks.{◌and◌, Diagnostic, errf, report, secret_value}
use awesome_lambda_auth.Configuration.Checks.Silence.{Silent, Silent-report, Silent-append}
use awesome_lambda_auth.Configuration.Validate.Providers.{provider_of}
use awesome_lambda_auth.Configuration.Rules.{
  is_https, is_shared_aws_domain, host_of, check_rs2_insecure_cookie_mode,
  check_rs8_resource_server_jwks,
}
use awesome_lambda_auth.Configuration.StoreRules.{
  redirect_origins, is_incomplete, check_providers, is_empty, check_named_providers,
  check_rs11_oauth_providers,
}
use awesome_lambda_auth.Configuration.Rules.Safe.{
  IsOwnHost, SetsNoCookie, KeepsCookiesAtHome, HasJwks, IsComplete, ServesProviders,
}

module _ (c : Config) (x : Std) where
  is_own_host : (host : String) → (is_shared_aws_domain x host ≡ false) ↔ IsOwnHost c x host
  unfolding is_shared_aws_domain
  is_own_host host = (
    λ h front. (
      (has_suffix_iff (x.to_lower host) ".amazonaws.com").0 (ground arith) front,
      (has_suffix_iff (x.to_lower host) ".on.aws").0 (ground arith) front,
    ),
    λ h. ground (
      arith,
      (has_suffix_iff (x.to_lower host) ".amazonaws.com").1 (λ front. (h front).0),
      (has_suffix_iff (x.to_lower host) ".on.aws").1 (λ front. (h front).1),
    ),
  )

  check_rs2_by_host : Silent (check_rs2_insecure_cookie_mode c x) ↔ (
      SetsNoCookie c
      ⊎ (c.cookies.allow_insecure_cookie_mode ≡ true)
      ⊎ ((c.deployment.public_url ≢ "")
          × (is_shared_aws_domain x (host_of x c.deployment.public_url) ≡ false)))
  unfolding check_rs2_insecure_cookie_mode
  check_rs2_by_host = (
    λ h. ground (arith, eq_iff c.deployment.public_url ""),
    λ h. ground (arith, eq_iff c.deployment.public_url ""),
  )

  pub check_rs2_insecure_cookie_mode-Silent :
      Silent (check_rs2_insecure_cookie_mode c x) ↔ KeepsCookiesAtHome c x
  check_rs2_insecure_cookie_mode-Silent =
      let own = is_own_host (host_of x c.deployment.public_url) in
      (
        λ h. elim (check_rs2_by_host.0 h) [
          | inl off ↦ inl off
          | inr (inl allowed) ↦ inr (inl allowed)
          | inr (inr (url, host)) ↦ inr (inr (url, own.0 host))
        ],
        λ h. check_rs2_by_host.1 (elim h [
          | inl off ↦ inl off
          | inr (inl allowed) ↦ inr (inl allowed)
          | inr (inr (url, host)) ↦ inr (inr (url, own.1 host))
        ]),
      )

  https_url :
      (parsed : Option Url)
      → (is_https parsed ≡ true)
        ↔ ((u : Url) × (parsed ≡ some u) × (u.scheme ≡ "https") × (u.host ≢ ""))
  https_url none = (λ h. cc, λ h. cc (h.1))
  https_url (some u) = (
    λ h. (u, refl, ground (arith, eq_iff u.scheme "https"), ground (arith, eq_iff u.host "")),
    λ h.
        let scheme : u.scheme ≡ "https" = cc (h.1, h.2) in
        let host : u.host ≢ "" = λ e. h.3 (cc (h.1, e)) in
        ground (arith, eq_iff u.scheme "https", eq_iff u.host "", scheme, host),
  )

  check_rs8_by_url : Silent (check_rs8_resource_server_jwks c x) ↔ (
      (c.resource_server.enabled ≡ false)
      ⊎ ((c.resource_server.jwks_url ≢ "")
          × (is_https (x.parse_url c.resource_server.jwks_url) ≡ true)))
  unfolding check_rs8_resource_server_jwks
  check_rs8_by_url = (
    λ h. ground (arith, eq_iff c.resource_server.jwks_url ""),
    λ h. ground (arith, eq_iff c.resource_server.jwks_url ""),
  )

  pub check_rs8_resource_server_jwks-Silent :
      Silent (check_rs8_resource_server_jwks c x) ↔ HasJwks c x
  check_rs8_resource_server_jwks-Silent =
      let https = https_url (x.parse_url c.resource_server.jwks_url) in
      (
        λ h. elim (check_rs8_by_url.0 h) [
          | inl off ↦ inl off
          | inr (url, parsed) ↦ inr (url, https.0 parsed)
        ],
        λ h.
            check_rs8_by_url.1
              (elim h [ inl off ↦ inl off | inr (url, parsed) ↦ inr (url, https.1 parsed) ]),
      )

module _ (c : Config) where
  complete :
      (name : String) → (is_incomplete c name (provider_of c name) ≡ false) ↔ IsComplete c name
  unfolding is_incomplete
  complete name = (
    λ h. ground (
      arith,
      eq_iff (provider_of c name).client_id "",
      eq_iff (secret_value c ("oauth.providers." ++ (name ++ ".clientSecret"))) "",
      eq_iff (provider_of c name).callback_url "",
    ),
    λ h. ground (
      arith,
      eq_iff (provider_of c name).client_id "",
      eq_iff (secret_value c ("oauth.providers." ++ (name ++ ".clientSecret"))) "",
      eq_iff (provider_of c name).callback_url "",
    ),
  )

  has_origin : (is_empty c (redirect_origins c) ≡ false) ↔ (redirect_origins c ≢ [])
  has_origin = by_list (redirect_origins c)
    where
      by_list : (origins : List String) → (is_empty c origins ≡ false) ↔ (origins ≢ [])
      by_list [] = (λ h. cc, λ h. absurd (h refl))
      by_list (first ∷ rest) = (λ h e. cc, λ h. refl)

  -- One round of the loop over the providers.
  round :
      (name : String) (rest : List String)
      → Silent (check_providers c (name ∷ rest))
        ↔ ((redirect_origins c ≢ []) × IsComplete c name × Silent (check_providers c rest))
  unfolding check_providers
  round name rest =
      let origin = is_empty c (redirect_origins c) in
      let missing = is_incomplete c name (provider_of c name) in
      let d = errf c "RS-11" ("oauth.providers." ++ name) in
      let later = check_providers c rest in
      (
        λ h.
            let (first, others) =
              (Silent-append (report origin d) (report missing d and later)).0 h in
            let (second, silent) = (Silent-append (report missing d) later).0 others in
            (
              has_origin.0 ((Silent-report origin d).0 first),
              (complete name).0 ((Silent-report missing d).0 second),
              silent,
            ),
        λ h. (Silent-append (report origin d) (report missing d and later)).1 (
          (Silent-report origin d).1 (has_origin.1 h.0),
          (Silent-append (report missing d) later).1
              ((Silent-report missing d).1 ((complete name).1 h.1), h.2),
        ),
      )

  check_providers-Silent :
      (names : List String) → Silent (check_providers c names) → All (IsComplete c) names
  check_providers-Silent [] h = tt
  check_providers-Silent (name ∷ rest) h =
      let (origin, here, later) = (round name rest).0 h in (here, check_providers-Silent rest later)

  All-Silent :
      (names : List String)
      → redirect_origins c ≢ []
      → All (IsComplete c) names
      → Silent (check_providers c names)
  unfolding check_providers
  All-Silent [] origin h = tt
  All-Silent (name ∷ rest) origin h = (round name rest).1 (origin, h.0, All-Silent rest origin h.1)

  abbrev linked : List Diagnostic
  linked =
      report (not c.stores.enable.linked_accounts) (errf c "RS-11" "stores.enable.linkedAccounts")

  abbrev stashed : List Diagnostic
  stashed =
      report
        (str_eq c.oauth.provisioning.on_email_match "conflict" && not c.stores.enable.pending_links)
        (errf c "RS-11" "oauth.provisioning.onEmailMatch")

  by_names :
      (names : List String) → Silent (check_named_providers c names) ↔ ServesProviders c names
  unfolding check_named_providers
  by_names [] = (λ h. tt, λ h. tt)
  by_names (name ∷ rest) = (
    λ h.
        let (first, others) = (Silent-append linked _).0 h in
        let (second, silent) = (Silent-append stashed (check_providers c (name ∷ rest))).0 others in
        (
          ground arith,
          ground (arith, eq_iff c.oauth.provisioning.on_email_match "conflict"),
          ((round name rest).0 silent).0,
          check_providers-Silent (name ∷ rest) silent,
        ),
    λ h. (Silent-append linked _).1 (
      ground arith,
      (Silent-append stashed _).1 (
        ground (arith, eq_iff c.oauth.provisioning.on_email_match "conflict"),
        All-Silent (name ∷ rest) h.2 h.3,
      ),
    ),
  )

  pub check_rs11_oauth_providers-Silent :
      Silent (check_rs11_oauth_providers c) ↔ ServesProviders c (sorted_keys c.oauth.providers)
  unfolding check_rs11_oauth_providers
  check_rs11_oauth_providers-Silent = by_names (sorted_keys c.oauth.providers)
