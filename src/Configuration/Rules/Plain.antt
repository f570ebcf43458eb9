-- ===== src/Configuration/Rules/Plain.antt =====
-- The rules of one test: each is silent exactly where its part of the table holds.
use awesome_lambda_auth.Common.{String, ◌↔◌, arith, eq_iff}
use awesome_lambda_auth.Configuration.Surfaces.{Config}
use awesome_lambda_auth.Configuration.Checks.{secret_value}
use awesome_lambda_auth.Configuration.Checks.Silence.{Silent}
use awesome_lambda_auth.Configuration.Rules.{
  check_rs3_csrf, check_rs5_same_site, check_rs6_admin_guard, check_identity_mode_conflict,
}
use awesome_lambda_auth.Configuration.StoreRules.{
  StoreCapabilities, check_rs10_first_user, check_rs12_memory_store,
}
use awesome_lambda_auth.Configuration.Rules.Safe.{
  ProtectsCookies, IsSecureIfNone, GuardsAdmin, HasOneIdentity, CanListUsers, KeepsState,
}

module _ (c : Config) where
  pub check_rs3_csrf-Silent : Silent (check_rs3_csrf c) ↔ ProtectsCookies c
  unfolding check_rs3_csrf
  check_rs3_csrf-Silent = (λ h. ground arith, λ h. ground arith)

  pub check_rs5_same_site-Silent : Silent (check_rs5_same_site c) ↔ IsSecureIfNone c
  unfolding check_rs5_same_site
  check_rs5_same_site-Silent = (
    λ h. ground (arith, eq_iff c.cookies.same_site "none"),
    λ h. ground (arith, eq_iff c.cookies.same_site "none"),
  )

  pub check_rs6_admin_guard-Silent : Silent (check_rs6_admin_guard c) ↔ GuardsAdmin c
  unfolding check_rs6_admin_guard
  check_rs6_admin_guard-Silent = (
    λ h. ground (
      arith,
      eq_iff c.admin.access_policy "",
      eq_iff (secret_value c "admin.bootstrapSecret") "",
    ),
    λ h. ground (
      arith,
      eq_iff c.admin.access_policy "",
      eq_iff (secret_value c "admin.bootstrapSecret") "",
    ),
  )

  pub check_identity_mode_conflict-Silent :
      Silent (check_identity_mode_conflict c) ↔ HasOneIdentity c
  unfolding check_identity_mode_conflict
  check_identity_mode_conflict-Silent = (λ h. ground arith, λ h. ground arith)

  pub check_rs10_first_user-Silent :
      (caps : String → StoreCapabilities)
      → Silent (check_rs10_first_user c caps) ↔ CanListUsers c caps
  unfolding check_rs10_first_user
  check_rs10_first_user-Silent caps = (
    λ h. ground (arith, eq_iff c.admin.access_policy "first-user"),
    λ h. ground (arith, eq_iff c.admin.access_policy "first-user"),
  )

  pub check_rs12_memory_store-Silent : Silent (check_rs12_memory_store c) ↔ KeepsState c
  unfolding check_rs12_memory_store
  check_rs12_memory_store-Silent = (
    λ h.
        ground
          (arith, eq_iff c.stores.driver "memory", eq_iff c.deployment.environment "production"),
    λ h.
        ground
          (arith, eq_iff c.stores.driver "memory", eq_iff c.deployment.environment "production"),
  )
