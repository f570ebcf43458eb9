-- ===== src/RateLimit.antt =====
-- The shared rate-limit counter: internal/store/dynamodb/rate_limit.go.
pub mod Window
pub mod Budget
pub mod Refusal
pub mod Progress
use Prim.Native.String.{◌++◌, len}
use awesome_lambda_auth.Common.{
  ℕ, ◌+◌, ◌-◌, ◌*◌, ◌/◌, String, Bool, true, false, ◌||◌, Option, none, some, List, [], ◌∷◌, str_eq,
  ltb, ◌==◌, if◌then◌else◌,
}
use awesome_lambda_auth.Database.{
  text, num, Item, Key, Write, update, Outcome, written, refused, failed, Dynamo,
}
use awesome_lambda_auth.Database.Expression.{
  attribute_not_exists, below, assign, add, second, unix, schema_version,
}
use awesome_lambda_auth.Errors.{
  StoreError, service, invalid_scope, invalid_subject, bad_limit, ◌or_else◌,
}
use awesome_lambda_auth.Keys.{codes, id_pattern, key_sep}

-- `strings.ContainsAny(v, "\x00\n\r")`
unfoldable pub has_control : List ℕ → Bool
has_control [] = false
has_control (c ∷ cs) = c == 0 || c == 10 || c == 13 || has_control cs

abbrev pub max_rate_limit_subject_len : ℕ
max_rate_limit_subject_len = 320

unfoldable pub check_rate_limit_scope : String → Option StoreError
check_rate_limit_scope scope = if id_pattern (codes scope) then none else some invalid_scope

unfoldable pub check_rate_limit_subject : String → Option StoreError
check_rate_limit_subject subject =
    if str_eq subject ""
    then some invalid_subject
    else if ltb max_rate_limit_subject_len (len subject)
    then some invalid_subject
    else if has_control (codes subject)
    then some invalid_subject
    else none

-- `int64(window / time.Second)`, at least one.
unfoldable pub window_seconds : ℕ → ℕ
window_seconds window = if ltb (window / second) 1 then 1 else window / second

-- The index of the fixed window that an instant falls in, and the instant that the window ends.
unfoldable pub rate_limit_window : ℕ → ℕ → ℕ × ℕ
unfolding window_seconds
rate_limit_window now window =
    let secs = window_seconds window in
    let index = unix now / secs in (index, (index + 1) * secs * second)

-- `RL#<scope>#<subject>#<window>`; `format_int` is `strconv.FormatInt(·, 10)`.
unfoldable pub rate_limit_pk : (ℕ → String) → String → String → ℕ → String
rate_limit_pk format_int scope subject window =
    "RL#" ++ (scope ++ (key_sep ++ (subject ++ (key_sep ++ format_int window))))

-- `rateLimitTTLGrace`, five minutes.
abbrev pub rate_limit_ttl_grace : ℕ
rate_limit_ttl_grace = 300 * second

abbrev pub rate_limit_key : (ℕ → String) → String → String → ℕ → Key
rate_limit_key format_int scope subject window =
    (rate_limit_pk format_int scope subject window, "RL")

unfoldable pub counted : ℕ → Item → Item
counted ends i = add "n" 1 (
    assign "_v" (num schema_version)
      (assign "_t" (text "ratelimit") (assign "ttl" (num (unix (ends + rate_limit_ttl_grace))) i)))

unfoldable pub within_budget : ℕ → Item → Bool
within_budget limit i = attribute_not_exists "n" i || below "n" (num limit) i

unfoldable pub count_write : Key → ℕ → ℕ → Write
count_write at limit ends = record {
  at = at;
  cond = within_budget limit;
  effect = update (counted ends);
}

-- One request: the arguments of `AllowRequest` and the store's clock. `max` is a budget and
-- `window` a span of nanoseconds, which 0 stands for where Go has a negative one.
pub record Request : Type 0 where
  pub now : ℕ
  pub scope : String
  pub subject : String
  pub limit : ℕ
  pub window : ℕ

-- What `AllowRequest` returns: whether the request may proceed, what is left of the window, and the
-- error.
pub record Answer : Type 0 where
  pub allowed : Bool
  pub remaining : ℕ
  pub error : Option StoreError

unfoldable pub check_request : Request → Option StoreError
unfolding check_rate_limit_scope check_rate_limit_subject
check_request r =
    check_rate_limit_scope r.scope
    or_else check_rate_limit_subject r.subject
    or_else (if r.limit == 0 then some bad_limit else none)
    or_else (if r.window == 0 then some bad_limit else none)

unfoldable pub answer : ℕ → Outcome → Answer
answer remaining (written pre) = record { allowed = true; remaining = remaining; error = none }
answer remaining (refused pre) = record { allowed = false; remaining = remaining; error = none }
answer remaining failed = record { allowed = false; remaining = remaining; error = some service }

module _ (format_int : ℕ → String) where
  abbrev pub request_key : Request → Key
  request_key r = rate_limit_key format_int r.scope r.subject (rate_limit_window r.now r.window).0

  module _ (db : Dynamo) where
    open db use {Table, write_item}

    unfoldable pub allow_request : Table → Request → Table × Answer
    unfolding answer
    allow_request t r = elim (check_request r) [
      | some e ↦ (t, record { allowed = false; remaining = 0; error = some e })
      | none ↦
          let ends = (rate_limit_window r.now r.window).1 in
          let (t', out) = write_item t (count_write (request_key r) r.limit ends) in
          (t', answer (ends - r.now) out)
    ]
