-- ===== src/Configuration/Validate/Lifetimes.antt =====
-- The lifetimes and the limits of a tree that `validate` (internal/config/validate.go) reports nothing of.
use awesome_lambda_auth.Configuration.Checks.{
  email_address, enum, errf, at_least, in_range, positive, absolute_path, active, configured,
  report, ttl,
}
use awesome_lambda_auth.Configuration.Validate.Deployed.{
  is_access_policy, validate_distributor, validate_admin, validate_tools,
}
use awesome_lambda_auth.Configuration.Text.{has_prefix, Std}
use awesome_lambda_auth.Common.{
  if◌then◌else◌, ◌&&◌, eq_iff, lt_int, ℕ, String, Bool, false, none, ◌⊎◌, inl, inr, [], ◌∷◌, ◌≡◌,
  arith, ℤ, pos, negsuc, AtLeast, AtMost, str-cases, Bool-cases, Option-cases, ◌||◌, not, str_eq,
}
use awesome_lambda_auth.Configuration.Checks.Silence.{behind, Silent, Silent-report, each, skip}
use awesome_lambda_auth.Configuration.Blocks.{Duration}
use awesome_lambda_auth.Configuration.Surfaces.{Config}
use awesome_lambda_auth.Configuration.Validate.Credentials.{validate_sms}
use awesome_lambda_auth.Configuration.Validate.Providers.{validate_id_provider}

-- A lifetime that is written reads as a positive duration; one that is required is written.
abbrev pub Lasts : Bool → Duration → Type 0
Lasts required v = ((v.raw ≡ "") × (required ≡ false)) ⊎ ((v.err ≡ none) × AtLeast 1 v.d)

-- Nothing of the provider of text messages is set.
pub record NoSms (c : Config) : Type 0 where
  pub endpoint : c.sms.endpoint ≡ ""
  pub api_key : configured c.sms.api_key ≡ false
  pub username : configured c.sms.username ≡ false
  pub password : configured c.sms.password ≡ false

module _ (c : Config) where
  pub at_least-Silent :
      (path : String) (got : ℤ) (floor : ℕ) → Silent (at_least c path got floor) → AtLeast floor got
  unfolding at_least
  at_least-Silent path (pos n) floor h = ground arith
  at_least-Silent path (negsuc n) floor h = ground arith

  pub positive-Silent : (path : String) (got : ℤ) → Silent (positive c path got) → AtLeast 1 got
  unfolding positive
  positive-Silent path (pos n) h = ground arith
  positive-Silent path (negsuc n) h = ground arith

  pub in_range-Silent :
      (path : String) (got : ℤ) (low high : ℕ)
      → Silent (in_range c path got low high)
      → AtLeast low got × AtMost high got
  unfolding in_range
  in_range-Silent path (pos n) low high h = ground arith
  in_range-Silent path (negsuc n) low high h = ground arith

  lasts-sign :
      (path : String) (t : ℤ)
      → Silent (report (lt_int t (pos 1)) (errf c "RS-9" path))
      → AtLeast 1 t
  lasts-sign path (pos n) h = ground arith
  lasts-sign path (negsuc n) h = ground arith

  pub ttl-Lasts :
      (path : String) (v : Duration) (required : Bool)
      → Silent (ttl c path v required)
      → Lasts required v
  unfolding ttl
  ttl-Lasts path v required h = elim (str-cases v.raw "") [
    | inl (empty, test) ↦ inl (empty, (Silent-report required _).0 (rw (test, ttl) at h))
    | inr (set, test) ↦ elim (Option-cases v.err) [
      | inr (e, bad) ↦ absurd (rw (test, bad, ttl) at h)
      | inl fine ↦ inr (fine, lasts-sign path v.d (rw (test, fine, ttl) at h))
    ]
  ]

module _ (x : Std) (c : Config) where
  pub sms-Silent : Silent (validate_sms x c) → NoSms c ⊎ AtLeast 1 c.sms.code_ttl_minutes
  unfolding validate_sms
  sms-Silent h =
      elim (Bool-cases (
        not (str_eq c.sms.endpoint "")
        || configured c.sms.api_key
        || configured c.sms.username
        || configured c.sms.password)) [
          | inl set ↦ inr (
              behind _ _ (at_least-Silent c "sms.codeTtlMinutes" c.sms.code_ttl_minutes 1)
                (rw set at h))
          | inr unset ↦ inl (record {
            endpoint = ground (arith, eq_iff c.sms.endpoint "");
            api_key = ground arith;
            username = ground arith;
            password = ground arith;
          })
        ]

  pub id_provider-Silent :
      Silent (validate_id_provider x c)
      → Lasts (active c.id_provider) c.id_provider.access_token_ttl
        × Lasts (active c.id_provider) c.id_provider.refresh_token_ttl
  unfolding validate_id_provider
  id_provider-Silent h =
      let i = c.id_provider in
      let (access, (refresh, rest)) =
        each _ _ (ttl-Lasts c "idProvider.accessTokenTtl" i.access_token_ttl (active i))
          (each _ _ (ttl-Lasts c "idProvider.refreshTokenTtl" i.refresh_token_ttl (active i))
            (skip _))
          h in
      (access, refresh)

  pub admin-Silent :
      Silent (validate_admin x c)
      → Lasts c.admin.enabled c.admin.session_ttl
        × AtLeast 1 c.admin.upload.max_file_size_mb
        × AtMost 50 c.admin.upload.max_file_size_mb
  unfolding validate_admin
  admin-Silent h =
      let a = c.admin in
      let (session, upload) =
        each _ _ (ttl-Lasts c "admin.sessionTtl" c.admin.session_ttl c.admin.enabled)
          (behind (absolute_path c "admin.basePath" a.base_path) _ (
            behind
              (report
                (not (str_eq a.login_path "")
                  && not (has_prefix a.login_path "/")
                  && not (has_prefix a.login_path "http"))
                (errf c "" "admin.loginPath"))
              _
              (behind
                (report (not (str_eq a.access_policy "") && not (is_access_policy a.access_policy))
                  (errf c "" "admin.accessPolicy"))
                _
                (behind
                  (if str_eq a.root_user.email ""
                    then []
                    else email_address c "admin.rootUser.email" a.root_user.email)
                  _
                  (in_range-Silent c "admin.upload.maxFileSizeMb" c.admin.upload.max_file_size_mb 1
                    50)))))
          h in
      (session, upload.0, upload.1)

  pub tools-Silent :
      Silent (validate_tools x c)
      → let t = c.tools in
        (AtLeast 100 t.inbound_webhooks.script_timeout_ms
          × AtMost 30_000 t.inbound_webhooks.script_timeout_ms)
        × (AtLeast 0 t.outbound_webhooks.defaults.max_retries
            × AtMost 10 t.outbound_webhooks.defaults.max_retries)
        × AtLeast 100 t.outbound_webhooks.defaults.retry_delay_ms
  unfolding validate_tools
  tools-Silent h =
      let t = c.tools in
      let (timeout, (retries, delay)) =
        behind
          (if str_eq t.auth ""
            then []
            else enum c "tools.auth" t.auth ("none" ∷ "session" ∷ "apiKey" ∷ "admin" ∷ []))
          _
          (behind (absolute_path c "tools.basePath" t.base_path) _ (
            behind
              (enum c "tools.sse.distributor.type" t.sse.distributor.type
                ("none" ∷ "redis" ∷ "sns" ∷ []))
              _
              (behind (validate_distributor x c) _ (
                each _ _
                  (in_range-Silent c "tools.inboundWebhooks.scriptTimeoutMs"
                    t.inbound_webhooks.script_timeout_ms 100 30_000)
                  (each _ _
                    (in_range-Silent c "tools.outboundWebhooks.defaults.maxRetries"
                      t.outbound_webhooks.defaults.max_retries 0 10)
                    (at_least-Silent c "tools.outboundWebhooks.defaults.retryDelayMs"
                      t.outbound_webhooks.defaults.retry_delay_ms 100))))))
          h in
      (timeout, retries, delay)
