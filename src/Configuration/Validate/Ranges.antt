-- ===== src/Configuration/Validate/Ranges.antt =====
-- The numbers of a tree that `validate` reports nothing of.
use Prim.Native.String.{◌++◌}
use awesome_lambda_auth.Configuration.Validate.Lifetimes.{
  tools-Silent, NoSms, admin-Silent, in_range-Silent, id_provider-Silent, ttl-Lasts, Lasts,
  at_least-Silent, positive-Silent, sms-Silent,
}
use awesome_lambda_auth.Configuration.Checks.{active, absolute_url, enum}
use awesome_lambda_auth.Configuration.Validate.Deployed.{
  validate_http_and_docs, validate_stores, validate_ui, validate_two_factor, validate_scopes,
  validate_rate_limit,
}
use awesome_lambda_auth.Configuration.Validate.Providers.{validate_oauth, validate_resource_server}
use awesome_lambda_auth.Configuration.Sorting.{sorted_keys}
use awesome_lambda_auth.Configuration.Validate.Credentials.{
  validate_mailer, webhook_secret, absolute_urls, validate_claims, validate_sessions,
  validate_cookies, SignedWebhook, webhook_timeout, validate_signed_webhook, validate_tokens,
  validate_jwt, validate_email, validate_deployment,
}
use awesome_lambda_auth.Configuration.Blocks.{Webhook}
use awesome_lambda_auth.Common.{
  true, false, ◌⊎◌, inl, inr, [], ◌∷◌, ◌≡◌, refl, arith, ℤ, pos, negsuc, AtLeast, AtMost, str-cases,
}
use awesome_lambda_auth.Configuration.Surfaces.{Config}
use awesome_lambda_auth.Configuration.Text.{Std, trim_space}
use awesome_lambda_auth.Configuration.Checks.Silence.{Silent, each, skip, switch}
use awesome_lambda_auth.Configuration.Validate.{validate}

-- The timeout of a webhook that has an address.
abbrev pub HasTimeout : Webhook → Type 0
HasTimeout hook =
    (trim_space hook.url ≡ "") ⊎ (AtLeast 1 hook.timeout_ms × AtMost 10_000 hook.timeout_ms)

module _ (x : Std) (c : Config) where
  webhook_timeout-Silent :
      (w : SignedWebhook)
      → Silent (webhook_timeout x c w)
      → AtLeast 1 w.hook.timeout_ms × AtMost 10_000 w.hook.timeout_ms
  unfolding webhook_timeout
  webhook_timeout-Silent w h = by_sign w.hook.timeout_ms refl
    where
      by_sign : (t : ℤ) → w.hook.timeout_ms ≡ t → AtLeast 1 t × AtMost 10_000 t
      by_sign (pos n) e = ground arith
      by_sign (negsuc n) e = ground arith

  signed_webhook-Silent :
      (w : SignedWebhook)
      → Silent (validate_signed_webhook x c w)
      → (trim_space w.hook.url ≡ "")
        ⊎ (AtLeast 1 w.hook.timeout_ms × AtMost 10_000 w.hook.timeout_ms)
  unfolding validate_signed_webhook
  signed_webhook-Silent w h = elim (str-cases (trim_space w.hook.url) "") [
    | inl (unset, test) ↦ inl unset
    | inr (set, test) ↦
        let (address, (timeout, secret)) =
          each _ _ (skip (absolute_url c x (w.base ++ ".url") (trim_space w.hook.url) true))
            (each _ _ (webhook_timeout-Silent w) (skip (webhook_secret x c w))) (rw test at h) in
        inr timeout
  ]

  tokens-Silent :
      Silent (validate_tokens x c)
      → AtLeast 5 c.tokens.password_reset_ttl_minutes
        × AtLeast 5 c.tokens.email_verification_ttl_minutes
        × AtLeast 5 c.tokens.email_change_ttl_minutes
        × AtLeast 5 c.tokens.account_link_ttl_minutes
        × AtLeast 1 c.tokens.magic_link_ttl_minutes
  unfolding validate_tokens
  tokens-Silent h =
      let (
        password_reset_ttl_minutes,
        (
          email_verification_ttl_minutes,
          (email_change_ttl_minutes, (account_link_ttl_minutes, magic_link_ttl_minutes)),
        ),
      ) =
        each _ _
          (at_least-Silent c "tokens.passwordResetTtlMinutes" c.tokens.password_reset_ttl_minutes 5)
          (each _ _
            (at_least-Silent c "tokens.emailVerificationTtlMinutes"
              c.tokens.email_verification_ttl_minutes 5)
            (each _ _
              (at_least-Silent c "tokens.emailChangeTtlMinutes" c.tokens.email_change_ttl_minutes 5)
              (each _ _
                (at_least-Silent c "tokens.accountLinkTtlMinutes" c.tokens.account_link_ttl_minutes
                  5)
                (at_least-Silent c "tokens.magicLinkTtlMinutes" c.tokens.magic_link_ttl_minutes
                  1))))
          h in
      (
        password_reset_ttl_minutes, email_verification_ttl_minutes, email_change_ttl_minutes,
        account_link_ttl_minutes, magic_link_ttl_minutes,
      )

  abbrev claims_hook : SignedWebhook
  claims_hook = record {
    base = "security.jwt.claimsWebhook";
    hook = c.security.jwt.claims_webhook;
    no_timeout = "the claims webhook has no positive timeout";
  }

  abbrev delivery_hook : SignedWebhook
  delivery_hook = record {
    base = "email.deliveryWebhook";
    hook = c.email.delivery_webhook;
    no_timeout = "";
  }

  jwt-Silent :
      Silent (validate_jwt x c)
      → Lasts true c.security.jwt.access_token_ttl
        × Lasts true c.security.jwt.refresh_token_ttl
        × (AtLeast 10 c.security.password.bcrypt_salt_rounds
            × AtMost 15 c.security.password.bcrypt_salt_rounds)
        × HasTimeout c.security.jwt.claims_webhook
  unfolding validate_jwt
  jwt-Silent h =
      let (access, (refresh, (rounds, (claims, hook)))) =
        each _ _ (ttl-Lasts c "security.jwt.accessTokenTtl" c.security.jwt.access_token_ttl true)
          (each _ _
            (ttl-Lasts c "security.jwt.refreshTokenTtl" c.security.jwt.refresh_token_ttl true)
            (each _ _
              (in_range-Silent c "security.password.bcryptSaltRounds"
                c.security.password.bcrypt_salt_rounds 10 15)
              (each _ _ (skip (validate_claims x c (sorted_keys c.security.jwt.extra_claims)))
                (signed_webhook-Silent claims_hook))))
          h in
      (access, refresh, rounds, hook)

  email-Silent : Silent (validate_email x c) → HasTimeout c.email.delivery_webhook
  unfolding validate_email
  email-Silent h =
      let (mode, (lang, (urls, (mailer, hook)))) =
        each _ _
          (skip (
            enum c "email.verification.mode" c.email.verification.mode
              ("none" ∷ "lazy" ∷ "strict" ∷ [])))
          (each _ _
            (skip
              (enum c "email.mailer.defaultLang" c.email.mailer.default_lang ("en" ∷ "it" ∷ [])))
            (each _ _ (skip (absolute_urls x c "email.siteUrls" (λ u. false) 0 c.email.site_urls))
              (each _ _ (skip (validate_mailer x c)) (signed_webhook-Silent delivery_hook))))
          h in
      hook

  resource_server-Silent :
      Silent (validate_resource_server x c)
      → AtLeast 1 c.resource_server.jwks_cache_ttl_ms
        × AtLeast 1 c.resource_server.jwks_fetch_timeout_ms
  unfolding validate_resource_server
  resource_server-Silent =
      each _ _
        (positive-Silent c "resourceServer.jwksCacheTtlMs" c.resource_server.jwks_cache_ttl_ms)
        (positive-Silent c "resourceServer.jwksFetchTimeoutMs"
          c.resource_server.jwks_fetch_timeout_ms)

  rate_limit-Silent :
      Silent (validate_rate_limit x c)
      → (c.rate_limit.enabled ≡ false)
        ⊎ (AtLeast 1 c.rate_limit.window_seconds × AtLeast 1 c.rate_limit.max)
  unfolding validate_rate_limit
  rate_limit-Silent h = elim (switch c.rate_limit.enabled _ h) [
    | inl off ↦ inl off
    | inr silent ↦
        let (window, (max, rest)) =
          each _ _ (positive-Silent c "rateLimit.windowSeconds" c.rate_limit.window_seconds)
            (each _ _ (positive-Silent c "rateLimit.max" c.rate_limit.max) (
              each _ _ (skip (enum c "rateLimit.keyBy" c.rate_limit.key_by ("ip" ∷ "email" ∷ [])))
                (skip (validate_scopes x c 0 c.rate_limit.scope))))
            silent in
        inr (window, max)
  ]

-- The numbers and the lifetimes that the rest of the program takes from the tree.
pub record IsInRange (c : Config) : Type 0 where
  pub access_token : Lasts true c.security.jwt.access_token_ttl
  pub refresh_token : Lasts true c.security.jwt.refresh_token_ttl
  pub id_provider_access : Lasts (active c.id_provider) c.id_provider.access_token_ttl
  pub id_provider_refresh : Lasts (active c.id_provider) c.id_provider.refresh_token_ttl
  pub admin_session : Lasts c.admin.enabled c.admin.session_ttl
  pub upload : AtLeast 1 c.admin.upload.max_file_size_mb × AtMost 50 c.admin.upload.max_file_size_mb
  pub sms_code : NoSms c ⊎ AtLeast 1 c.sms.code_ttl_minutes
  pub script_timeout :
      AtLeast 100 c.tools.inbound_webhooks.script_timeout_ms
      × AtMost 30_000 c.tools.inbound_webhooks.script_timeout_ms
  pub retries :
      AtLeast 0 c.tools.outbound_webhooks.defaults.max_retries
      × AtMost 10 c.tools.outbound_webhooks.defaults.max_retries
  pub retry_delay : AtLeast 100 c.tools.outbound_webhooks.defaults.retry_delay_ms
  pub bcrypt_rounds :
      AtLeast 10 c.security.password.bcrypt_salt_rounds
      × AtMost 15 c.security.password.bcrypt_salt_rounds
  pub claims_timeout : HasTimeout c.security.jwt.claims_webhook
  pub delivery_timeout : HasTimeout c.email.delivery_webhook
  pub reset : AtLeast 5 c.tokens.password_reset_ttl_minutes
  pub verification : AtLeast 5 c.tokens.email_verification_ttl_minutes
  pub change : AtLeast 5 c.tokens.email_change_ttl_minutes
  pub link : AtLeast 5 c.tokens.account_link_ttl_minutes
  pub magic_link : AtLeast 1 c.tokens.magic_link_ttl_minutes
  pub jwks_cache : AtLeast 1 c.resource_server.jwks_cache_ttl_ms
  pub jwks_fetch : AtLeast 1 c.resource_server.jwks_fetch_timeout_ms
  pub rate_limit :
      (c.rate_limit.enabled ≡ false)
      ⊎ (AtLeast 1 c.rate_limit.window_seconds × AtLeast 1 c.rate_limit.max)

-- Where the validation has nothing to report, every number that it bounds is in its range, where
-- its block is in use, and every lifetime that it checks is a positive duration, or is left out
-- where it is not required.
pub validate-IsInRange : (x : Std) (c : Config) → Silent (validate x c) → IsInRange c
unfolding validate
validate-IsInRange x c h =
    let (
      deployment,
      (
        jwt,
        (
          tokens,
          (
            cookies,
            (
              sessions,
              (
                email,
                (
                  sms,
                  (
                    oauth,
                    (
                      two_factor,
                      (
                        idp,
                        (resource_server, (ui, (admin, (tools, (rate_limit, (stores, http)))))),
                      ),
                    ),
                  ),
                ),
              ),
            ),
          ),
        ),
      ),
    ) =
      each _ _ (skip (validate_deployment x c))
        (each _ _ (jwt-Silent x c) (
          each _ _ (tokens-Silent x c) (
            each _ _ (skip (validate_cookies x c)) (
              each _ _ (skip (validate_sessions x c)) (
                each _ _ (email-Silent x c) (
                  each _ _ (sms-Silent x c) (
                    each _ _ (skip (validate_oauth x c)) (
                      each _ _ (skip (validate_two_factor x c)) (
                        each _ _ (id_provider-Silent x c) (
                          each _ _ (resource_server-Silent x c) (
                            each _ _ (skip (validate_ui x c)) (
                              each _ _ (admin-Silent x c) (
                                each _ _ (tools-Silent x c) (
                                  each _ _ (rate_limit-Silent x c) (
                                    each _ _ (skip (validate_stores x c))
                                      (skip (validate_http_and_docs x c)))))))))))))))))
        h in
    record {
      access_token = jwt.0;
      refresh_token = jwt.1;
      id_provider_access = idp.0;
      id_provider_refresh = idp.1;
      admin_session = admin.0;
      upload = (admin.1, admin.2);
      sms_code = sms;
      script_timeout = tools.0;
      retries = tools.1;
      retry_delay = tools.2;
      bcrypt_rounds = jwt.2;
      claims_timeout = jwt.3;
      delivery_timeout = email;
      reset = tokens.0;
      verification = tokens.1;
      change = tokens.2;
      link = tokens.3;
      magic_link = tokens.4;
      jwks_cache = resource_server.0;
      jwks_fetch = resource_server.1;
      rate_limit = rate_limit;
    }
