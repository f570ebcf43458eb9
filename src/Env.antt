-- ===== src/Env.antt =====
-- The options of the store (`Options` and `Store`, internal/store/dynamodb/store.go) and of a call.
use awesome_lambda_auth.Common.{ℕ, String, Bool}

-- What the methods read of the `Store` and of the request besides the table: the options, the
-- clock's instant, `formatTime`, and whether a retry's wait ends before the request's context.
pub record Env : Type 0 where
  pub multi_tenant : Bool
  pub consume_on_read : Bool
  pub ttl_grace : ℕ
  pub now : ℕ
  pub format_time : ℕ → String
  pub waits : ℕ → Bool
