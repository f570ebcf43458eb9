-- ===== src/Configuration/Rules/Table.antt =====
-- The whole table of internal/config/rules.go against its specification.
use awesome_lambda_auth.Configuration.Rules.Modes.{
  check_store_requirements-Silent, check_rs13_migration-Silent, check_rs4_id_provider_keys-Silent,
  check_rs1_secrets-Silent,
}
use awesome_lambda_auth.Configuration.Rules.Plain.{
  check_rs12_memory_store-Silent, check_rs10_first_user-Silent, check_identity_mode_conflict-Silent,
  check_rs6_admin_guard-Silent, check_rs5_same_site-Silent, check_rs3_csrf-Silent,
}
use awesome_lambda_auth.Configuration.Rules.Addresses.{
  check_rs11_oauth_providers-Silent, check_rs8_resource_server_jwks-Silent,
  check_rs2_insecure_cookie_mode-Silent,
}
use awesome_lambda_auth.Common.{String, ◌↔◌, List}
use awesome_lambda_auth.Configuration.Surfaces.{Config}
use awesome_lambda_auth.Configuration.Text.{Std}
use awesome_lambda_auth.Configuration.Checks.{Diagnostic, ◌and◌}
use awesome_lambda_auth.Configuration.Checks.Silence.{Silent, Silent-append}
use awesome_lambda_auth.Configuration.Rules.{check_rules}
use awesome_lambda_auth.Configuration.StoreRules.{StoreCapabilities}
use awesome_lambda_auth.Configuration.Rules.Safe.{IsSafe}

-- Two checks, one after the other, against what each of them asks.
both :
    {P Q : Type 0} (ds es : List Diagnostic)
    → Silent ds ↔ P
    → Silent es ↔ Q
    → Silent (ds and es) ↔ (P × Q)
both ds es p q = (
  λ h. let (left, right) = (Silent-append ds es).0 h in (p.0 left, q.0 right),
  λ h. (Silent-append ds es).1 (p.1 h.0, q.1 h.1),
)

module _ (c : Config) (x : Std) (capabilities : String → StoreCapabilities) where
  -- The refuse-to-start rules report nothing exactly where the configuration satisfies the table of
  -- what each rule demands.
  pub check_rules_iff : Silent (check_rules c x capabilities) ↔ IsSafe c x capabilities
  unfolding check_rules
  check_rules_iff = both _ _ (check_rs1_secrets-Silent c) (
      both _ _ (check_rs2_insecure_cookie_mode-Silent c x) (
        both _ _ (check_rs3_csrf-Silent c) (
          both _ _ (check_rs4_id_provider_keys-Silent c) (
            both _ _ (check_rs5_same_site-Silent c) (
              both _ _ (check_rs6_admin_guard-Silent c) (
                both _ _ (check_rs8_resource_server_jwks-Silent c x) (
                  both _ _ (check_identity_mode_conflict-Silent c) (
                    both _ _ (check_rs10_first_user-Silent c capabilities) (
                      both _ _ (check_rs11_oauth_providers-Silent c) (
                        both _ _ (check_rs12_memory_store-Silent c) (
                          both _ _ (check_rs13_migration-Silent c capabilities)
                            (check_store_requirements-Silent c))))))))))))
