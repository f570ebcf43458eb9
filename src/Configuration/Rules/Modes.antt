-- ===== src/Configuration/Rules/Modes.antt =====
-- The rules on secrets, keys and the migration, and the cross-store requirements: each is silent
-- exactly where its part of the table holds.
use Prim.Native.String.{len}
use awesome_lambda_auth.Configuration.Checks.{secret_value}
use awesome_lambda_auth.Common.{ap, String, ◌⊎◌, ◌≡◌, ◌≢◌, ◌↔◌, arith, eq_iff, ◌≤◌}
use awesome_lambda_auth.Configuration.Surfaces.{Config}
use awesome_lambda_auth.Configuration.Text.{trim_space}
use awesome_lambda_auth.Configuration.Checks.Silence.{Silent, Silent-append}
use awesome_lambda_auth.Configuration.Rules.{
  check_secret, check_secret_pair, check_rs1_secrets, check_rs4_id_provider_keys,
}
use awesome_lambda_auth.Configuration.StoreRules.{
  StoreCapabilities, check_rs13_migration, check_store_requirements,
}
use awesome_lambda_auth.Configuration.Rules.Safe.{
  HasSecret, HoldsSecrets, HasOneKey, Migrates, HasStores, access, refresh,
}

empty_short : (s : String) → 32 ≤ len s → s ≢ ""
empty_short s h e = absurd (omega (arith, ap len e))

module _ (c : Config) where
  pub check_secret-Silent : (path : String) → Silent (check_secret c path) ↔ HasSecret c path
  unfolding check_secret
  check_secret-Silent path = (
    λ h. ground (arith, eq_iff (secret_value c path) ""),
    λ h. ground (arith, eq_iff (secret_value c path) "", empty_short (secret_value c path)),
  )

  pub check_secret_pair-Silent : Silent (check_secret_pair c) ↔ (
      HasSecret c access
      × HasSecret c refresh
      × ((secret_value c access ≡ "") ⊎ (secret_value c access ≢ secret_value c refresh)))
  unfolding check_secret_pair
  check_secret_pair-Silent =
      let same = eq_iff (secret_value c access) (secret_value c refresh) in
      let unset = eq_iff (secret_value c access) "" in
      (
        λ h. ground (
          arith,
          same,
          unset,
          check_secret-Silent access,
          check_secret-Silent refresh,
          Silent-append (check_secret c access),
          Silent-append (check_secret c refresh),
        ),
        λ h. (Silent-append (check_secret c access) _).1 (
          (check_secret-Silent access).1 h.0,
          (Silent-append (check_secret c refresh) _).1
              ((check_secret-Silent refresh).1 h.1, ground (arith, same, unset)),
        ),
      )

  pub check_rs1_secrets-Silent : Silent (check_rs1_secrets c) ↔ HoldsSecrets c
  unfolding check_rs1_secrets
  check_rs1_secrets-Silent = (
    λ h. ground (
      arith,
      eq_iff c.admin.access_policy "open",
      check_secret-Silent access,
      check_secret_pair-Silent,
    ),
    λ h. ground (
      arith,
      eq_iff c.admin.access_policy "open",
      check_secret-Silent access,
      check_secret_pair-Silent,
    ),
  )

  pub check_rs4_id_provider_keys-Silent : Silent (check_rs4_id_provider_keys c) ↔ HasOneKey c
  unfolding check_rs4_id_provider_keys
  check_rs4_id_provider_keys-Silent = (
    λ h. ground (
      arith,
      eq_iff (secret_value c "idProvider.privateKey") "",
      eq_iff (trim_space c.id_provider.kms_key_id) "",
      eq_iff c.deployment.environment "production",
    ),
    λ h. ground (
      arith,
      eq_iff (secret_value c "idProvider.privateKey") "",
      eq_iff (trim_space c.id_provider.kms_key_id) "",
      eq_iff c.deployment.environment "production",
    ),
  )

  pub check_rs13_migration-Silent :
      (caps : String → StoreCapabilities) → Silent (check_rs13_migration c caps) ↔ Migrates c caps
  unfolding check_rs13_migration
  check_rs13_migration-Silent caps = (
    λ h. ground (
      arith,
      eq_iff (trim_space c.stores.migration.source) "",
      eq_iff (trim_space c.stores.migration.user_pool_id) "",
      eq_iff (trim_space c.stores.migration.region) "",
      eq_iff (trim_space c.stores.migration.client_id) "",
      eq_iff c.stores.migration.mode "",
      eq_iff c.stores.migration.mode "import-only",
      eq_iff c.stores.migration.mode "dual-read",
    ),
    λ h. ground (
      arith,
      eq_iff (trim_space c.stores.migration.source) "",
      eq_iff (trim_space c.stores.migration.user_pool_id) "",
      eq_iff (trim_space c.stores.migration.region) "",
      eq_iff (trim_space c.stores.migration.client_id) "",
      eq_iff c.stores.migration.mode "",
      eq_iff c.stores.migration.mode "import-only",
      eq_iff c.stores.migration.mode "dual-read",
    ),
  )

  pub check_store_requirements-Silent : Silent (check_store_requirements c) ↔ HasStores c
  unfolding check_store_requirements
  check_store_requirements-Silent = (
    λ h.
        ground
          (arith, eq_iff c.sessions.check_on "none", eq_iff (trim_space c.email.templates_dir) ""),
    λ h.
        ground
          (arith, eq_iff c.sessions.check_on "none", eq_iff (trim_space c.email.templates_dir) ""),
  )
