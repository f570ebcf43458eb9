-- ===== src/Limiter/Soundness.antt =====
-- Why a refusal of the in-process tier is one that the shared counter would have made
-- (cmd/auth/ratelimit.go over internal/store/dynamodb/rate_limit.go).
use awesome_lambda_auth.Common.{
  ℕ, ◌+◌, ◌≤◌, ◌<◌, String, ◌≡◌, refl, sym, ◌∙◌, inl, inr, Bool, true, false, none, some, arith,
  str-cases, lookup, insert, lookup-insert,
}
use awesome_lambda_auth.Database.{Dynamo}
use awesome_lambda_auth.RateLimit.{request_key, allow_request, rate_limit_key, rate_limit_window}
use awesome_lambda_auth.Limiter.{
  LocalRateLimiter, Texts, Config, local_key, enter_window, local_allow, limit_request, or_zero,
}
use awesome_lambda_auth.Limiter.LocalTier.{nul, local_key_injective}
use awesome_lambda_auth.Keys.Injective.{Lacks}
use awesome_lambda_auth.Limiter.InStep.{
  request_of, Synced, grow-Synced, enter-Synced, window-index, own-below, tracked-below, counter,
  count_local-cases,
}

module _ (format_int : ℕ → String) (db : Dynamo) (scope subject : String) where
  open db use {Table, contents}

  -- The entry that a request for `scope'` and `subject'` leaves behind, against the counter format_int db scope subject after
  -- the shared tier answered it.
  counted-Synced :
      (cfg : Config) (l : LocalRateLimiter) (t : Table) (now : ℕ) (scope' subject' : String)
      → Lacks nul scope
      → Lacks nul scope'
      → let r = request_of cfg now scope' subject' in
        let k = local_key scope' subject' in
        (rate_limit_window now cfg.window).0 ≡ l.index
        → or_zero (lookup k l.counts) < l.max
        → (allow_request format_int db t r).1.error ≡ none
        → Synced format_int db scope subject cfg l t
        → Synced format_int db scope subject cfg
            (record l { counts = insert k (or_zero (lookup k l.counts) + 1) l.counts })
            (allow_request format_int db t r).0
  counted-Synced cfg l t now scope' subject' free free' index room answered s =
      let r = request_of cfg now scope' subject' in
      let k = local_key scope' subject' in
      let grown = grow-Synced format_int db scope subject cfg l t r s in
      record {
        same_max = s.same_max;
        same_window = s.same_window;
        counts = grown.counts;
        below = λ n h. elim (str-cases k (local_key scope subject)) [
          | inr (ne, test) ↦ grown.below n (
              rw test at (
                sym (
                  lookup-insert k (local_key scope subject) (or_zero (lookup k l.counts) + 1)
                    l.counts)
                ∙ h))
          | inl (e, test) ↦
              let (same, same') = local_key_injective scope' subject' scope subject free' free e in
              let at_key : request_key format_int r
                  ≡ rate_limit_key format_int scope subject l.index =
                cc in
              let room' : or_zero (lookup k l.counts) < cfg.max = omega (arith, room, s.same_max) in
              let now_ =
                own-below format_int db scope subject t r
                  (rate_limit_key format_int scope subject l.index) (or_zero (lookup k l.counts))
                  at_key (s.counts l.index) (tracked-below format_int db scope subject l t s k e)
                  room' answered in
              let set_to : some (or_zero (lookup k l.counts) + 1) ≡ some n = rw test at (
                sym (
                  lookup-insert k (local_key scope subject) (or_zero (lookup k l.counts) + 1)
                    l.counts)
                ∙ h) in
              let value : or_zero (lookup k l.counts) + 1 ≡ n = cc set_to in
              omega (arith, now_, value)
        ];
      }

  limit_local :
      (cfg : Config) (x : Texts) (l l' : LocalRateLimiter) (t : Table) (now : ℕ)
      (scope' subject' : String) (locally : Bool)
      → local_allow now scope' subject' l ≡ (l', locally)
      → (locally ≡ true
          → Synced format_int db scope subject cfg l'
              (allow_request format_int db t (request_of cfg now scope' subject')).0)
      → (locally ≡ false → Synced format_int db scope subject cfg l' t)
      → Synced format_int db scope subject cfg
          (limit_request format_int db x cfg true l t now scope' subject').0
          (limit_request format_int db x cfg true l t now scope' subject').1
  unfolding limit_request
  limit_local cfg x l l' t now scope' subject' true e passed turned = rw e (passed refl)
  limit_local cfg x l l' t now scope' subject' false e passed turned = rw e (turned refl)

  -- Any request of this environment that the shared counter format_int db scope subject answers keeps the two tiers in step.
  pub limit_request-Synced :
      (cfg : Config) (x : Texts) (l : LocalRateLimiter) (t : Table) (now : ℕ)
      (scope' subject' : String)
      → Lacks nul scope
      → Lacks nul scope'
      → (allow_request format_int db t (request_of cfg now scope' subject')).1.error ≡ none
      → Synced format_int db scope subject cfg l t
      → Synced format_int db scope subject cfg
          (limit_request format_int db x cfg true l t now scope' subject').0
          (limit_request format_int db x cfg true l t now scope' subject').1
  unfolding local_allow
  limit_request-Synced cfg x l t now scope' subject' free free' answered s =
      let k = local_key scope' subject' in
      let entered = enter_window now l in
      let s' = enter-Synced format_int db scope subject cfg now l t s in
      let same = window-index format_int db scope subject cfg now l s.same_window in
      elim (count_local-cases k entered) [
        | inl e ↦
            limit_local cfg x l entered t now scope' subject' true e
              (λ _.
                grow-Synced format_int db scope subject cfg entered t
                  (request_of cfg now scope' subject') s')
              (λ h. absurd (cc h))
        | inr (inl (e, _)) ↦
            limit_local cfg x l entered t now scope' subject' false e (λ h. absurd (cc h)) (λ _. s')
        | inr (inr (e, room)) ↦
            limit_local cfg x l _ t now scope' subject' true e
              (λ _.
                counted-Synced cfg entered t now scope' subject' free free' same room answered s')
              (λ h. absurd (cc h))
      ]

  -- While the tiers are in step, a request for the subject that the in-process tier refuses finds
  -- the shared counter format_int db scope subject of its window at the whole budget.
  pub local_refusal-spent :
      (cfg : Config) (l : LocalRateLimiter) (t : Table) (now : ℕ)
      → Synced format_int db scope subject cfg l t
      → (local_allow now scope subject l).1 ≡ false
      → cfg.max ≤ counter format_int db scope subject t (rate_limit_window now cfg.window).0
  unfolding local_allow
  local_refusal-spent cfg l t now s refused =
      let k = local_key scope subject in
      let entered = enter_window now l in
      let s' = enter-Synced format_int db scope subject cfg now l t s in
      elim (count_local-cases k entered) [
        | inl e ↦ absurd (cc (rw e at refused))
        | inr (inl (e, full)) ↦
            rw (window-index format_int db scope subject cfg now l s.same_window) (
              omega (
                arith,
                full,
                s'.same_max,
                tracked-below format_int db scope subject entered t s' k refl,
              ))
        | inr (inr (e, room)) ↦ absurd (cc (rw e at refused))
      ]
