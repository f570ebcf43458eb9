-- ===== src/Configuration/Validate.antt =====
-- internal/config/validate.go: `validate`, over the blocks of the children.
pub mod Credentials
pub mod Clients
pub mod Providers
pub mod Deployed
pub mod Lifetimes
pub mod Ranges
use Credentials.{
  validate_deployment, validate_jwt, validate_tokens, validate_cookies, validate_sessions,
  validate_email, validate_sms,
}
use Providers.{validate_oauth, validate_id_provider, validate_resource_server}
use Deployed.{
  validate_two_factor, validate_ui, validate_admin, validate_tools, validate_rate_limit,
  validate_stores, validate_http_and_docs,
}
use awesome_lambda_auth.Common.{List}
use awesome_lambda_auth.Configuration.Surfaces.{Config}
use awesome_lambda_auth.Configuration.Text.{Std}
use awesome_lambda_auth.Configuration.Checks.{Diagnostic, ◌and◌}

unfoldable pub validate : Std → Config → List Diagnostic
unfolding validate_deployment validate_jwt validate_tokens validate_cookies validate_sessions
    validate_email validate_sms validate_oauth validate_two_factor validate_id_provider
    validate_resource_server validate_ui validate_admin validate_tools validate_rate_limit
    validate_stores validate_http_and_docs
validate x c =
    validate_deployment x c
    and validate_jwt x c
    and validate_tokens x c
    and validate_cookies x c
    and validate_sessions x c
    and validate_email x c
    and validate_sms x c
    and validate_oauth x c
    and validate_two_factor x c
    and validate_id_provider x c
    and validate_resource_server x c
    and validate_ui x c
    and validate_admin x c
    and validate_tools x c
    and validate_rate_limit x c
    and validate_stores x c
    and validate_http_and_docs x c
