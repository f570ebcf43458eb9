-- ===== src/Tests/Limits.antt =====
-- Runs of the rate limiter's two tiers.
use Prim.Native.Char.{code}
use awesome_lambda_auth.Limiter.Events.{
  elsewhere, own, run_events-spent, LimiterEvent, AllAnswered, run_events,
}
use awesome_lambda_auth.Common.{
  insert, List, false, some, ap, str_eq, ◌==◌, if◌then◌else◌, String, length, lookup, ℕ, [], ◌∷◌,
  ◌≤◌, ◌+◌, refl, none, ◌≡◌, true, arith, inl, inr,
}
use awesome_lambda_auth.Limiter.{
  new_local_rate_limiter, count_local, enter_window, limit_request, local_key, Config,
  LocalRateLimiter, Texts, local_allow,
}
use awesome_lambda_auth.RateLimit.{
  answer, count_write, within_budget, has_control, check_rate_limit_subject, check_rate_limit_scope,
  check_request, rate_limit_pk, request_key, Request, allow_request, rate_limit_window,
  window_seconds,
}
use awesome_lambda_auth.Database.{num, Unchanged, Contents}
use awesome_lambda_auth.Database.Expression.{item_of}
use awesome_lambda_auth.Keys.{id_pattern}
use awesome_lambda_auth.RateLimit.Budget.{admitted-le, admitted, count_at}
use awesome_lambda_auth.RateLimit.Refusal.{allow_request_refusal}
use awesome_lambda_auth.Limiter.Soundness.{limit_request-Synced, local_refusal-spent}
use awesome_lambda_auth.Limiter.InStep.{Synced, counter}
use awesome_lambda_auth.Limiter.LocalTier.{local_allow-bounded, nul}
use awesome_lambda_auth.Tests.Data.{empty}
use awesome_lambda_auth.Keys.Injective.{Lacks}
use awesome_lambda_auth.Database.Local.{local}

abbrev decimal : ℕ → String
decimal n = if n == 0 then "0" else "1"

abbrev minute : ℕ
minute = 60_000_000_000

abbrev request : Request
request = record { now = 5_000_000_000; scope = "a"; subject = "s"; limit = 1; window = minute }

abbrev counter_key : String
counter_key = rate_limit_pk decimal "a" "s" 0

admitted-le_example :
    count_at empty (counter_key, "RL")
      + admitted decimal local counter_key empty (request ∷ request ∷ [])
    ≤ 1
admitted-le_example =
    admitted-le decimal local counter_key 1 empty (request ∷ request ∷ [])
      (λ e. refl, (λ e. refl, tt)) (inl refl) (omega arith)

-- Every window's counter stands at one.
abbrev spent_table : Contents
spent_table k = if str_eq k.1 "RL" then some (item_of (("n", num 1) ∷ [])) else none

refused_request : (allow_request decimal local spent_table request).1.allowed ≡ false
unfolding allow_request check_request check_rate_limit_scope check_rate_limit_subject id_pattern
    has_control rate_limit_window window_seconds within_budget count_write answer
refused_request = refl

without_error : (allow_request decimal local spent_table request).1.error ≡ none
unfolding allow_request check_request check_rate_limit_scope check_rate_limit_subject id_pattern
    has_control rate_limit_window window_seconds within_budget count_write answer
without_error = refl

allow_request_refusal_example :
    (1 ≤ count_at spent_table (request_key decimal request))
    × Unchanged spent_table (allow_request decimal local spent_table request).0
allow_request_refusal_example =
    allow_request_refusal decimal local spent_table request (inr (1, refl)) refused_request
      without_error

abbrev fresh_limiter : LocalRateLimiter
fresh_limiter = record { max = 1; window = minute; index = 0; counts = []; max_subjects = 10_000 }

local_allow-bounded_example :
    length (local_allow 5_000_000_000 "a" "s" fresh_limiter).0.counts
    ≤ (local_allow 5_000_000_000 "a" "s" fresh_limiter).0.max_subjects
local_allow-bounded_example = local_allow-bounded 5_000_000_000 "a" "s" fresh_limiter (omega arith)

no_nul : Lacks nul "a"
no_nul = (λ e. cc (ap code e), tt)

abbrev config : Config
config = record { window = minute; max = 1; by_email = true; routes = [] }

abbrev texts : Texts
texts = record { to_lower = λ s. s; trim_space = λ s. s; sha256_hex16 = λ s. s }

starts-Synced : Synced decimal local "a" "s" config fresh_limiter empty
unfolding lookup
starts-Synced = record {
  same_max = refl;
  same_window = refl;
  counts = λ w. inl refl;
  below = λ n h. cc;
}

answered : (allow_request decimal local empty request).1.error ≡ none
unfolding allow_request check_request check_rate_limit_scope check_rate_limit_subject id_pattern
    has_control rate_limit_window window_seconds within_budget count_write answer
answered = refl

limit_request-Synced_example :
    Synced decimal local "a" "s" config
      (limit_request decimal local texts config true fresh_limiter empty 5_000_000_000 "a" "s").0
      (limit_request decimal local texts config true fresh_limiter empty 5_000_000_000 "a" "s").1
limit_request-Synced_example =
    limit_request-Synced decimal local "a" "s" config texts fresh_limiter empty 5_000_000_000 "a"
      "s" no_nul no_nul answered starts-Synced

abbrev full_limiter : LocalRateLimiter
full_limiter = record fresh_limiter { counts = (local_key "a" "s", 1) ∷ [] }

full-Synced : Synced decimal local "a" "s" config full_limiter spent_table
unfolding lookup
full-Synced = record {
  same_max = refl;
  same_window = refl;
  counts = λ w. inr (1, refl);
  below = λ n h. ground arith;
}

local_refuses : (local_allow 5_000_000_000 "a" "s" full_limiter).1 ≡ false
unfolding local_allow enter_window count_local local_key lookup window_seconds
local_refuses = refl

local_refusal-spent_example :
    1 ≤ counter decimal local "a" "s" spent_table (rate_limit_window 5_000_000_000 minute).0
local_refusal-spent_example =
    local_refusal-spent decimal local "a" "s" config full_limiter spent_table 5_000_000_000
      full-Synced local_refuses

abbrev both : List LimiterEvent
both = own 5_000_000_000 "a" "s" ∷ elsewhere request ∷ []

all_answered : AllAnswered decimal local texts config (new_local_rate_limiter 1 minute) empty both
unfolding allow_request check_request check_rate_limit_scope check_rate_limit_subject id_pattern
    has_control rate_limit_window window_seconds within_budget count_write answer
all_answered = (no_nul, refl, tt)

refused_locally :
    (local_allow 6_000_000_000 "a" "s"
      (run_events decimal local texts config (new_local_rate_limiter 1 minute) empty both).0).1
    ≡ false
unfolding run_events limit_request new_local_rate_limiter local_allow enter_window count_local
    local_key lookup insert window_seconds
refused_locally = refl

run_events-spent_example :
    1
    ≤ counter decimal local "a" "s"
        (run_events decimal local texts config (new_local_rate_limiter 1 minute) empty both).1
        (rate_limit_window 6_000_000_000 minute).0
run_events-spent_example =
    run_events-spent decimal local texts config "a" "s" empty both 6_000_000_000 no_nul
      (λ w. inl refl) all_answered refused_locally
