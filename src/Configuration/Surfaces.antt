-- ===== src/Configuration/Surfaces.antt =====
-- The blocks of internal/config/config.go for the identity provider, the resource server, the
-- hosted pages, the admin and tools surfaces, the stores and HTTP, and the whole tree, `Config`.
use awesome_lambda_auth.Common.{String, Bool, Option, List, ℤ}
use awesome_lambda_auth.Configuration.Blocks.{
  Secret, ResolvedSecret, Duration, StringList, Deployment, Security, Tokens, Cookies, Sessions,
  Email, Sms, OAuth, TwoFactor,
}

pub record IdpClient : Type 0 where
  pub client_id : String
  pub client_secret : Secret
  pub redirect_uris : List String
  pub name : String

pub record IdProvider : Type 0 where
  pub enabled : Bool
  pub private_key : Secret
  pub public_key : String
  pub jwks_path : String
  pub issuer : String
  pub access_token_ttl : Duration
  pub refresh_token_ttl : Duration
  pub jwks_cors_origins : StringList
  pub kms_key_id : String
  pub kms_previous_key_ids : List String
  pub clients : List IdpClient

pub record ResourceServer : Type 0 where
  pub enabled : Bool
  pub jwks_url : String
  pub issuer : String
  pub jwks_cache_ttl_ms : ℤ
  pub jwks_fetch_timeout_ms : ℤ

pub record Branding : Type 0 where
  pub logo_url : String
  pub primary_color : String
  pub secondary_color : String
  pub site_name : String
  pub bg_color : String
  pub bg_image : String
  pub card_bg : String

pub record Ui : Type 0 where
  pub enabled : Bool
  pub headless : Bool
  pub custom_css : String
  pub branding : Branding
  pub assets_dir : String
  pub upload_dir : String

pub record AdminRootUser : Type 0 where
  pub email : String
  pub password_hash : Secret

pub record Upload : Type 0 where
  pub max_file_size_mb : ℤ

pub record Admin : Type 0 where
  pub enabled : Bool
  pub access_policy : String
  pub bootstrap_secret : Secret
  pub root_user : AdminRootUser
  pub cookie_prefix : String
  pub login_path : String
  pub base_path : String
  pub session_ttl : Duration
  pub upload : Upload

pub record Feature : Type 0 where
  pub enabled : Bool

pub record Distributor : Type 0 where
  pub type : String
  pub endpoint : String
  pub topic_arn : String
  pub username : String
  pub password : Secret

pub record Sse : Type 0 where
  pub enabled : Bool
  pub heartbeat_interval_ms : ℤ
  pub deduplicate : Bool
  pub distributor : Distributor

pub record InboundWebhooks : Type 0 where
  pub enabled : Bool
  pub script_timeout_ms : ℤ

pub record OutboundWebhookDefaults : Type 0 where
  pub max_retries : ℤ
  pub retry_delay_ms : ℤ

pub record OutboundWebhooks : Type 0 where
  pub payload_version : String
  pub defaults : OutboundWebhookDefaults

pub record Tools : Type 0 where
  pub enabled : Bool
  pub telemetry : Feature
  pub notify : Feature
  pub stream : Feature
  pub auth : String
  pub base_path : String
  pub sse : Sse
  pub inbound_webhooks : InboundWebhooks
  pub outbound_webhooks : OutboundWebhooks

pub record RateLimit : Type 0 where
  pub enabled : Bool
  pub window_seconds : ℤ
  pub max : ℤ
  pub key_by : String
  pub scope : List String

pub record Migration : Type 0 where
  pub source : String
  pub user_pool_id : String
  pub client_id : String
  pub region : String
  pub mode : String

pub record StoreConnection : Type 0 where
  pub table_name : String
  pub dsn : String
  pub region : String
  pub endpoint : String
  pub username : String
  pub password : Secret

pub record StoreEnable : Type 0 where
  pub users : Bool
  pub sessions : Bool
  pub metadata : Bool
  pub rbac : Bool
  pub tenants : Bool
  pub linked_accounts : Bool
  pub pending_links : Bool
  pub settings : Bool
  pub api_keys : Bool
  pub webhooks : Bool
  pub templates : Bool
  pub telemetry : Bool
  pub tokens : Bool

pub record Stores : Type 0 where
  pub driver : String
  pub connection : StoreConnection
  pub enable : StoreEnable
  pub migration : Migration

pub record Cors : Type 0 where
  pub origins : List String

pub record Http : Type 0 where
  pub api_prefix : String
  pub cors : Cors

pub record Docs : Type 0 where
  pub swagger : String
  pub base_path : String

-- `enabled_webhook_actions` is `none` for the nil slice.
pub record RuntimeSettings : Type 0 where
  pub require2_fa : Bool
  pub enabled_webhook_actions : Option (List String)
  pub lazy_email_verification_grace_period_days : ℤ

pub record Config : Type 0 where
  pub schema_version : ℤ
  pub deployment : Deployment
  pub security : Security
  pub tokens : Tokens
  pub cookies : Cookies
  pub sessions : Sessions
  pub email : Email
  pub sms : Sms
  pub oauth : OAuth
  pub two_factor : TwoFactor
  pub id_provider : IdProvider
  pub resource_server : ResourceServer
  pub ui : Ui
  pub admin : Admin
  pub tools : Tools
  pub rate_limit : RateLimit
  pub stores : Stores
  pub http : Http
  pub docs : Docs
  pub runtime_settings : RuntimeSettings
  -- what each secret knob resolved to, and where each knob's value came from, by its dotted path
  pub secrets : List (String × ResolvedSecret)
  pub sources : List (String × String)
