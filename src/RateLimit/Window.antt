-- ===== src/RateLimit/Window.antt =====
-- Fixed windows (`rateLimitWindow`, internal/store/dynamodb/rate_limit.go).
use awesome_lambda_auth.Common.{ℕ, ◌+◌, ◌*◌, ◌≤◌, ◌<◌, arith}
use awesome_lambda_auth.Database.Expression.{second}
use awesome_lambda_auth.RateLimit.{window_seconds, rate_limit_window}

pub window_seconds_pos : (window : ℕ) → 1 ≤ window_seconds window
unfolding window_seconds
window_seconds_pos window = ground arith

-- An instant lies inside its window: the window has not ended yet, and what is left of it is at
-- most its length.
rate_limit_window_bounds :
    (now window : ℕ)
    → let (index, ends) = rate_limit_window now window in
      (now < ends) × (ends ≤ now + window_seconds window * second)
unfolding rate_limit_window
rate_limit_window_bounds now window = grind (arith, window_seconds_pos window)

-- Two instants that are less than a window's length apart fall in the same window or in two that
-- follow one another: a budget per window is at most twice that budget over any span of that length.
rate_limit_window_seam :
    (now later window : ℕ)
    → now ≤ later
    → later < now + window_seconds window * second
    → let i = (rate_limit_window now window).0 in
      let j = (rate_limit_window later window).0 in (i ≤ j) × (j ≤ i + 1)
unfolding rate_limit_window
rate_limit_window_seam now later window h k = grind (arith, window_seconds_pos window)
