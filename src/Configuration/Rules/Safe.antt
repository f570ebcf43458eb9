-- ===== src/Configuration/Rules/Safe.antt =====
-- The refuse-to-start table as a specification: what a tree that no rule refuses satisfies.
use Prim.Native.String.{len, ◌++◌}
use awesome_lambda_auth.Common.{◌∷◌, All, [], List, some, ◌≢◌, ◌≤◌, String, true, false, ◌⊎◌, ◌≡◌}
use awesome_lambda_auth.Configuration.Rules.{host_of}
use awesome_lambda_auth.Configuration.StoreRules.{
  runtime_settings_configured, redirect_origins, StoreCapabilities,
}
use awesome_lambda_auth.Configuration.Text.{Std, Url, trim_space, has_prefix}
use awesome_lambda_auth.Configuration.Sorting.{sorted_keys}
use awesome_lambda_auth.Configuration.Validate.Providers.{provider_of}
use awesome_lambda_auth.Configuration.Surfaces.{Config}
use awesome_lambda_auth.Configuration.Checks.{secret_value, secret_failed, active}

abbrev pub access : String
access = "security.jwt.accessTokenSecret"

abbrev pub refresh : String
refresh = "security.jwt.refreshTokenSecret"

module _ (c : Config) where
  -- The knob holds 32 bytes or more, or reading it failed and was reported as that.
  abbrev pub HasSecret : String → Type 0
  HasSecret path = (secret_failed c path ≡ true) ⊎ (32 ≤ len (secret_value c path))

  -- No route sets a cookie: those of the credentials are off, and there is no admin surface.
  abbrev pub SetsNoCookie : Type 0
  SetsNoCookie = (c.resource_server.enabled ≡ true) × (c.admin.enabled ≡ false)

  -- RS-3
  abbrev pub ProtectsCookies : Type 0
  ProtectsCookies = SetsNoCookie ⊎ (c.security.csrf.enabled ≡ true)

  -- RS-5
  abbrev pub IsSecureIfNone : Type 0
  IsSecureIfNone = (c.cookies.same_site ≢ "none") ⊎ (c.cookies.secure ≡ true)

  -- RS-6
  abbrev pub GuardsAdmin : Type 0
  GuardsAdmin =
      (c.admin.enabled ≡ false)
      ⊎ (c.admin.access_policy ≢ "")
      ⊎ (secret_value c "admin.bootstrapSecret" ≢ "")

  -- One identity mode at most.
  abbrev pub HasOneIdentity : Type 0
  HasOneIdentity = (c.resource_server.enabled ≡ false) ⊎ (active c.id_provider ≡ false)

  -- RS-10
  abbrev pub CanListUsers : (String → StoreCapabilities) → Type 0
  CanListUsers capabilities =
      (c.admin.access_policy ≢ "first-user") ⊎ ((capabilities c.stores.driver).list_users ≡ true)

  -- RS-12
  abbrev pub KeepsState : Type 0
  KeepsState = (c.stores.driver ≢ "memory") ⊎ (c.deployment.environment ≢ "production")

  -- RS-1 (and RS-7): what the mode of the deployment signs or verifies with.
  abbrev pub VerifiesNoToken : Type 0
  VerifiesNoToken = (c.admin.enabled ≡ false) ⊎ (c.admin.access_policy ≡ "open")

  abbrev pub HoldsSecrets : Type 0
  HoldsSecrets =
      ((c.resource_server.enabled ≡ true) × (VerifiesNoToken ⊎ HasSecret access))
      ⊎ ((c.resource_server.enabled ≡ false)
          × HasSecret access
          × HasSecret refresh
          × ((secret_value c access ≡ "") ⊎ (secret_value c access ≢ secret_value c refresh)))

  -- RS-4: a key that signs, where the mode is on and the stage is production, and never two.
  abbrev pub HasPem : Type 0
  HasPem = secret_value c "idProvider.privateKey" ≢ ""

  abbrev pub HasKms : Type 0
  HasKms = trim_space c.id_provider.kms_key_id ≢ ""

  abbrev pub HasOneKey : Type 0
  HasOneKey =
      (active c.id_provider ≡ false)
      ⊎ (HasPem × ¬ HasKms)
      ⊎ ((¬ HasPem) × HasKms)
      ⊎ ((¬ HasPem) × (¬ HasKms) × (c.deployment.environment ≢ "production"))

  -- RS-13
  abbrev pub Migrates : (String → StoreCapabilities) → Type 0
  Migrates capabilities =
      let m = c.stores.migration in
      ((trim_space m.source ≡ "")
        × (trim_space m.user_pool_id ≡ "")
        × (trim_space m.client_id ≡ "")
        × ((m.mode ≡ "") ⊎ (m.mode ≡ "import-only")))
      ⊎ ((trim_space m.source ≢ "")
          × (trim_space m.user_pool_id ≢ "")
          × (trim_space m.region ≢ "")
          × (((capabilities c.stores.driver).migration_marker ≡ true)
              ⊎ ((m.mode ≢ "dual-read") × (trim_space m.client_id ≡ ""))))

  -- The cross-store requirements.
  abbrev pub HasStores : Type 0
  HasStores =
      let stores = c.stores.enable in
      ((c.sessions.check_on ≡ "none") ⊎ (stores.sessions ≡ true))
      × (((has_prefix c.admin.access_policy "rbac:" ≡ false)
            × (has_prefix c.admin.access_policy "permission:" ≡ false))
          ⊎ (stores.rbac ≡ true))
      × ((trim_space c.email.templates_dir ≡ "") ⊎ (stores.templates ≡ true))
      × ((c.tools.enabled ≡ false)
          ⊎ (c.tools.inbound_webhooks.enabled ≡ false)
          ⊎ (stores.webhooks ≡ true))
      × ((runtime_settings_configured c ≡ false) ⊎ (stores.settings ≡ true))
      × ((c.tools.enabled ≡ false)
          ⊎ (c.tools.telemetry.enabled ≡ false)
          ⊎ (stores.telemetry ≡ true))

module _ (c : Config) (x : Std) where
  -- A host that is not an AWS endpoint: in lower case, it ends in neither of AWS's domains.
  abbrev pub IsOwnHost : String → Type 0
  IsOwnHost host =
      (front : String)
      → (x.to_lower host ≢ front ++ ".amazonaws.com") × (x.to_lower host ≢ front ++ ".on.aws")

  -- RS-2
  abbrev pub KeepsCookiesAtHome : Type 0
  KeepsCookiesAtHome =
      SetsNoCookie c
      ⊎ (c.cookies.allow_insecure_cookie_mode ≡ true)
      ⊎ ((c.deployment.public_url ≢ "") × IsOwnHost (host_of x c.deployment.public_url))

  -- RS-8
  abbrev pub HasJwks : Type 0
  HasJwks =
      (c.resource_server.enabled ≡ false)
      ⊎ ((c.resource_server.jwks_url ≢ "")
          × ((u : Url) × (x.parse_url c.resource_server.jwks_url ≡ some u)
              × (u.scheme ≡ "https")
              × (u.host ≢ "")))

module _ (c : Config) where
  -- RS-11
  abbrev pub IsComplete : String → Type 0
  IsComplete name =
      ((provider_of c name).client_id ≢ "")
      × (secret_value c ("oauth.providers." ++ (name ++ ".clientSecret")) ≢ "")
      × ((provider_of c name).callback_url ≢ "")

  abbrev pub ServesProviders : List String → Type 0
  ServesProviders [] = Unit
  ServesProviders (name ∷ rest) =
      (c.stores.enable.linked_accounts ≡ true)
      × ((c.oauth.provisioning.on_email_match ≢ "conflict")
          ⊎ (c.stores.enable.pending_links ≡ true))
      × (redirect_origins c ≢ [])
      × All IsComplete (name ∷ rest)

-- The table: what every rule asks of the tree.
abbrev pub IsSafe : Config → Std → (String → StoreCapabilities) → Type 0
IsSafe c x capabilities =
    HoldsSecrets c
    × (KeepsCookiesAtHome c x
        × (ProtectsCookies c
            × (HasOneKey c
                × (IsSecureIfNone c
                    × (GuardsAdmin c
                        × (HasJwks c x
                            × (HasOneIdentity c
                                × (CanListUsers c capabilities
                                    × (ServesProviders c (sorted_keys c.oauth.providers)
                                        × (KeepsState c
                                            × (Migrates c capabilities × (HasStores c))))))))))))
