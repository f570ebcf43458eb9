-- ===== src/Configuration/Defaults.antt =====
-- `Defaults` of internal/config/config.go.
use awesome_lambda_auth.Common.{true, false, none, [], ◌∷◌, pos}
use awesome_lambda_auth.Configuration.Blocks.{Security, Email, OAuth, Duration}
use awesome_lambda_auth.Configuration.Surfaces.{
  Config, IdProvider, Admin, Tools, Stores, RuntimeSettings,
}
use awesome_lambda_auth.Configuration.Text.{Std}
use awesome_lambda_auth.Configuration.Duration.{parse_duration}
use awesome_lambda_auth.Configuration.Validate.Providers.{no_secret}

abbrev unset : Duration
unset = record { raw = ""; d = pos 0; err = none }

abbrev pub default_runtime_settings : RuntimeSettings
default_runtime_settings = record {
  require2_fa = false;
  enabled_webhook_actions = none;
  lazy_email_verification_grace_period_days = pos 7;
}

abbrev default_email : Email
default_email = record {
  site_urls = [];
  mailer = record {
    endpoint = "";
    api_key = no_secret;
    from = "";
    from_name = "";
    provider = "";
    default_lang = "en";
  };
  verification = record { mode = "none" };
  templates_dir = "";
  delivery_webhook = record { url = ""; timeout_ms = pos 5000; secret = no_secret };
}

abbrev default_oauth : OAuth
default_oauth = record {
  providers = [];
  provisioning = record {
    auto_create = true;
    allowed_email_domains = [];
    on_email_match = "link";
    field_map = [];
    require_verified_email = false;
  };
}

abbrev default_stores : Stores
default_stores = record {
  driver = "memory";
  connection = record {
    table_name = "";
    dsn = "";
    region = "";
    endpoint = "";
    username = "";
    password = no_secret;
  };
  enable = record {
    users = true;
    sessions = true;
    metadata = false;
    rbac = false;
    tenants = false;
    linked_accounts = false;
    pending_links = false;
    settings = false;
    api_keys = false;
    webhooks = false;
    templates = false;
    telemetry = false;
    tokens = true;
  };
  migration = record {
    source = "";
    user_pool_id = "";
    client_id = "";
    region = "";
    mode = "import-only";
  };
}

abbrev pub default_tools : Tools
default_tools = record {
  enabled = false;
  telemetry = record { enabled = true };
  notify = record { enabled = true };
  stream = record { enabled = true };
  auth = "";
  base_path = "/tools";
  sse = record {
    enabled = false;
    heartbeat_interval_ms = pos 30_000;
    deduplicate = true;
    distributor = record {
      type = "none";
      endpoint = "";
      topic_arn = "";
      username = "";
      password = no_secret;
    };
  };
  inbound_webhooks = record { enabled = true; script_timeout_ms = pos 5000 };
  outbound_webhooks = record {
    payload_version = "1";
    defaults = record { max_retries = pos 3; retry_delay_ms = pos 1000 };
  };
}

module _ (x : Std) where
  -- `mustDuration` of the constants, whose parse does not fail.
  abbrev default_security : Security
  unfolding parse_duration
  default_security = record {
    jwt = record {
      access_token_secret = no_secret;
      refresh_token_secret = no_secret;
      access_token_ttl = parse_duration x "15m";
      refresh_token_ttl = parse_duration x "7d";
      extra_claims = [];
      claims_webhook = record { url = ""; timeout_ms = pos 2000; secret = no_secret };
    };
    password = record { bcrypt_salt_rounds = pos 12 };
    csrf = record { enabled = true };
  }

  abbrev default_id_provider : IdProvider
  unfolding parse_duration
  default_id_provider = record {
    enabled = false;
    private_key = no_secret;
    public_key = "";
    jwks_path = "/.well-known/jwks.json";
    issuer = "";
    access_token_ttl = parse_duration x "30d";
    refresh_token_ttl = parse_duration x "90d";
    jwks_cors_origins = record { values = "*" ∷ []; err = none };
    kms_key_id = "";
    kms_previous_key_ids = [];
    clients = [];
  }

  abbrev pub default_admin : Admin
  unfolding parse_duration
  default_admin = record {
    enabled = false;
    access_policy = "";
    bootstrap_secret = no_secret;
    root_user = record { email = ""; password_hash = no_secret };
    cookie_prefix = "";
    login_path = "";
    base_path = "/admin";
    session_ttl = parse_duration x "24h";
    upload = record { max_file_size_mb = pos 5 };
  }

  unfoldable pub defaults : Config
  unfolding parse_duration
  defaults = record {
    schema_version = pos 1;
    deployment = record { environment = "production"; stage = ""; public_url = "" };
    security = default_security;
    tokens = record {
      password_reset_ttl_minutes = pos 60;
      email_verification_ttl_minutes = pos 1440;
      email_change_ttl_minutes = pos 60;
      account_link_ttl_minutes = pos 60;
      magic_link_ttl_minutes = pos 15;
    };
    cookies = record {
      secure = false;
      same_site = "lax";
      domain = "";
      path = "/";
      refresh_token_path = "";
      allow_insecure_cookie_mode = false;
    };
    sessions = record { check_on = "refresh" };
    email = default_email;
    sms = record {
      endpoint = "";
      api_key = no_secret;
      username = no_secret;
      password = no_secret;
      code_ttl_minutes = pos 10;
    };
    oauth = default_oauth;
    two_factor = record { app_name = "awesome-node-auth" };
    id_provider = default_id_provider;
    resource_server = record {
      enabled = false;
      jwks_url = "";
      issuer = "";
      jwks_cache_ttl_ms = pos 3_600_000;
      jwks_fetch_timeout_ms = pos 5000;
    };
    ui = record {
      enabled = false;
      headless = false;
      custom_css = "";
      branding = record {
        logo_url = "";
        primary_color = "#4a90d9";
        secondary_color = "#6c757d";
        site_name = "Awesome Node Auth";
        bg_color = "";
        bg_image = "";
        card_bg = "";
      };
      assets_dir = "";
      upload_dir = "";
    };
    admin = default_admin;
    tools = default_tools;
    rate_limit = record {
      enabled = true;
      window_seconds = pos 60;
      max = pos 10;
      key_by = "email";
      scope = "login" ∷ "forgot-password" ∷ "magic-link" ∷ "sms-code" ∷ "2fa-verify" ∷ [];
    };
    stores = default_stores;
    http = record { api_prefix = "/auth"; cors = record { origins = [] } };
    docs = record { swagger = "auto"; base_path = "" };
    runtime_settings = default_runtime_settings;
    secrets = [];
    sources = [];
  }
