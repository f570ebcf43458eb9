-- ===== src/Limiter/Events.antt =====
-- Any number of requests through both tiers, with the requests of other execution environments
-- between them (cmd/auth/ratelimit.go over internal/store/dynamodb/rate_limit.go).
use awesome_lambda_auth.Limiter.Soundness.{local_refusal-spent, limit_request-Synced}
use awesome_lambda_auth.RateLimit.{rate_limit_window, rate_limit_key, allow_request, Request}
use awesome_lambda_auth.Limiter.InStep.{counter, grow-Synced, Synced, request_of}
use awesome_lambda_auth.Limiter.{
  local_allow, LocalRateLimiter, limit_request, new_local_rate_limiter, Config, Texts,
}
use awesome_lambda_auth.Common.{none, lookup, ℕ, List, [], ◌∷◌, ◌≤◌, ◌≡◌, refl, String, false, true}
use awesome_lambda_auth.Database.{attributes, Dynamo}
use awesome_lambda_auth.RateLimit.Budget.{IsCount}
use awesome_lambda_auth.Limiter.LocalTier.{nul}
use awesome_lambda_auth.Keys.Injective.{Lacks}

-- A request of this environment for a watched route that has a subject, or one of another, which
-- reaches the shared counter alone.
pub data LimiterEvent : Type 0 where
  own : (now : ℕ) (scope subject : String) → LimiterEvent
  elsewhere : Request → LimiterEvent

module _ (format_int : ℕ → String) (db : Dynamo) (x : Texts) (cfg : Config) where
  open db use {Table, contents}

  unfoldable pub run_events :
      LocalRateLimiter → Table → List LimiterEvent → LocalRateLimiter × Table
  unfolding limit_request allow_request
  run_events l t [] = (l, t)
  run_events l t (own now scope subject ∷ events) =
      let (l', t', decision) = limit_request format_int db x cfg true l t now scope subject in
      run_events l' t' events
  run_events l t (elsewhere r ∷ events) = run_events l (allow_request format_int db t r).0 events

  -- The scopes hold no NUL, and the shared counter answers this environment without an error.
  abbrev pub AllAnswered : LocalRateLimiter → Table → List LimiterEvent → Type 0
  AllAnswered l t [] = Unit
  AllAnswered l t (own now scope subject ∷ events) =
      Lacks nul scope
      × ((allow_request format_int db t (request_of cfg now scope subject)).1.error ≡ none)
      × AllAnswered (limit_request format_int db x cfg true l t now scope subject).0
          (limit_request format_int db x cfg true l t now scope subject).1 events
  AllAnswered l t (elsewhere r ∷ events) = AllAnswered l (allow_request format_int db t r).0 events

  run_events-Synced :
      (scope subject : String) (l : LocalRateLimiter) (t : Table) (events : List LimiterEvent)
      → Lacks nul scope
      → AllAnswered l t events
      → Synced format_int db scope subject cfg l t
      → Synced format_int db scope subject cfg (run_events l t events).0 (run_events l t events).1
  unfolding run_events
  run_events-Synced scope subject l t [] free all s = s
  run_events-Synced scope subject l t (own now scope' subject' ∷ events) free (free', answered, all)
        s =
      run_events-Synced scope subject
        (limit_request format_int db x cfg true l t now scope' subject').0
        (limit_request format_int db x cfg true l t now scope' subject').1 events free all
        (limit_request-Synced format_int db scope subject cfg x l t now scope' subject' free free'
          answered s)
  run_events-Synced scope subject l t (elsewhere r ∷ events) free all s =
      run_events-Synced scope subject l (allow_request format_int db t r).0 events free all
        (grow-Synced format_int db scope subject cfg l t r s)

  -- After any requests of this environment, all answered by the shared counter without an error, and
  -- any requests of others, a request that the in-process tier of an environment that started fresh
  -- refuses finds the shared counter of its window at the whole budget.
  pub run_events-spent :
      (scope subject : String) (t : Table) (events : List LimiterEvent) (now : ℕ)
      → let fresh = new_local_rate_limiter cfg.max cfg.window in
        Lacks nul scope
        → ((w : ℕ)
            → IsCount (attributes (contents t (rate_limit_key format_int scope subject w)) "n"))
        → AllAnswered fresh t events
        → (local_allow now scope subject (run_events fresh t events).0).1 ≡ false
        → cfg.max
          ≤ counter format_int db scope subject
              (run_events fresh t events).1
              (rate_limit_window now cfg.window).0
  unfolding new_local_rate_limiter lookup
  run_events-spent scope subject t events now free counts all refused =
      let fresh = new_local_rate_limiter cfg.max cfg.window in
      let start : Synced format_int db scope subject cfg fresh t = record {
        same_max = refl;
        same_window = refl;
        counts = counts;
        below = λ n h. cc;
      } in
      local_refusal-spent format_int db scope subject cfg (run_events fresh t events).0
        (run_events fresh t events).1 now
        (run_events-Synced scope subject fresh t events free all start) refused
