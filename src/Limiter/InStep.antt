-- ===== src/Limiter/InStep.antt =====
-- The in-process tier in step with the shared counter (cmd/auth/ratelimit.go over
-- internal/store/dynamodb/rate_limit.go).
use mathlib.Core.Path.{subst}
use awesome_lambda_auth.Common.{
  Option-cases, ◌/◌, ℕ, ◌+◌, ◌≤◌, ◌<◌, String, ◌≡◌, ◌⊎◌, sym, ap, ◌∙◌, inl, inr, true, false, none,
  some, arith, Bool-cases, lookup, insert, ◌==◌,
}
use awesome_lambda_auth.Database.{Key, attributes, Dynamo}
use awesome_lambda_auth.RateLimit.{
  request_key, Request, allow_request, rate_limit_key, rate_limit_pk, rate_limit_window,
  window_seconds,
}
use awesome_lambda_auth.Database.Expression.{unix}
use awesome_lambda_auth.RateLimit.Budget.{IsCount, count_at}
use awesome_lambda_auth.RateLimit.Refusal.{allow_request_refusal}
use awesome_lambda_auth.RateLimit.Progress.{allow_request-Progress, allow_request-grows}
use awesome_lambda_auth.Limiter.{
  LocalRateLimiter, Config, local_key, enter_window, count_local, or_zero,
}

pub count_local-cases :
    (k : String) (l : LocalRateLimiter)
    → (count_local k l ≡ (l, true))
      ⊎ ((count_local k l ≡ (l, false)) × (l.max ≤ or_zero (lookup k l.counts)))
      ⊎ ((count_local k l
            ≡ (record l { counts = insert k (or_zero (lookup k l.counts) + 1) l.counts }, true))
          × (or_zero (lookup k l.counts) < l.max))
unfolding count_local
count_local-cases k l = ground arith

abbrev pub request_of : Config → ℕ → String → String → Request
request_of cfg now scope subject = record {
  now = now;
  scope = scope;
  subject = subject;
  limit = cfg.max;
  window = cfg.window;
}

module _ (format_int : ℕ → String) (db : Dynamo) (scope subject : String) where
  open db use {Table, contents}

  abbrev pub counter : Table → ℕ → ℕ
  counter t index = count_at (contents t) (rate_limit_key format_int scope subject index)

  -- The in-process count of the subject never passes the shared one of the same window.
  pub record Synced (cfg : Config) (l : LocalRateLimiter) (t : Table) : Type 0 where
    pub same_max : l.max ≡ cfg.max
    pub same_window : l.window ≡ cfg.window
    pub counts :
        (w : ℕ) → IsCount (attributes (contents t (rate_limit_key format_int scope subject w)) "n")
    pub below : (n : ℕ) → lookup (local_key scope subject) l.counts ≡ some n → n ≤ counter t l.index

  pub enter-Synced :
      (cfg : Config) (now : ℕ) (l : LocalRateLimiter) (t : Table)
      → Synced cfg l t
      → Synced cfg (enter_window now l) t
  unfolding enter_window lookup
  enter-Synced cfg now l t s = elim (Bool-cases ((unix now / window_seconds l.window) == l.index)) [
    | inl stays ↦ rw stays s
    | inr moves ↦ rw moves (record {
      same_max = s.same_max;
      same_window = s.same_window;
      counts = s.counts;
      below = λ n h. cc;
    })
  ]

  -- Requests of other execution environments, and this one's for other subjects, only raise it.
  pub grow-Synced :
      (cfg : Config) (l : LocalRateLimiter) (t : Table) (r : Request)
      → Synced cfg l t
      → Synced cfg l (allow_request format_int db t r).0
  grow-Synced cfg l t r s = record {
    same_max = s.same_max;
    same_window = s.same_window;
    counts = λ w.
        (allow_request-grows format_int db t r (rate_limit_pk format_int scope subject w)
          (s.counts w)).0;
    below = λ n h. omega (
      arith,
      s.below n h,
      (allow_request-grows format_int db t r (rate_limit_pk format_int scope subject l.index)
          (s.counts l.index)).1,
    );
  }

  enter-index :
      (now : ℕ) (l : LocalRateLimiter)
      → (enter_window now l).index ≡ unix now / window_seconds l.window
  unfolding enter_window
  enter-index now l = ground arith

  pub window-index :
      (cfg : Config) (now : ℕ) (l : LocalRateLimiter)
      → l.window ≡ cfg.window
      → (rate_limit_window now cfg.window).0 ≡ (enter_window now l).index
  unfolding rate_limit_window
  window-index cfg now l same = sym (enter-index now l ∙ ap (λ w. unix now / window_seconds w) same)

  -- A request for the subject itself that the shared counter answered.
  pub own-below :
      (t : Table) (r : Request) (k : Key) (n : ℕ)
      → request_key format_int r ≡ k
      → IsCount (attributes (contents t k) "n")
      → n ≤ count_at (contents t) k
      → n < r.limit
      → (allow_request format_int db t r).1.error ≡ none
      → n + 1 ≤ count_at (contents (allow_request format_int db t r).0) k
  own-below t r k n e h under room answered =
      subst
        (λ j.
          IsCount (attributes (contents t j) "n")
          → n ≤ count_at (contents t) j
          → n + 1 ≤ count_at (contents (allow_request format_int db t r).0) j)
        e own h under
    where
      own :
          IsCount (attributes (contents t (request_key format_int r)) "n")
          → n ≤ count_at (contents t) (request_key format_int r)
          → n + 1
            ≤ count_at (contents (allow_request format_int db t r).0) (request_key format_int r)
      own c u =
          let p = allow_request-Progress format_int db t r c in
          elim (Bool-cases (allow_request format_int db t r).1.allowed) [
            | inl let_in ↦ omega (arith, p.spends let_in)
            | inr turned ↦
                omega
                  (arith, (allow_request_refusal format_int db t r c turned answered).0, p.grows)
          ]

  pub tracked-below :
      {cfg : Config} (l : LocalRateLimiter) (t : Table)
      → Synced cfg l t
      → (k : String) → k ≡ local_key scope subject
      → or_zero (lookup k l.counts) ≤ counter t l.index
  tracked-below l t s k e = elim (Option-cases (lookup k l.counts)) [
    | inl missing ↦ rw missing (omega arith)
    | inr (m, found) ↦ rw found (s.below m (ap (λ j. lookup j l.counts) (sym e) ∙ found))
  ]
