-- ===== src/Limiter.antt =====
-- The rate limiter in front of the routes: cmd/auth/ratelimit.go. The parsed request body, SHA-256
-- and Go's Unicode `strings.ToLower` and `strings.TrimSpace` are parameters.
pub mod LocalTier
pub mod InStep
pub mod Soundness
pub mod Events
use Prim.Native.String.{◌++◌, len}
use awesome_lambda_auth.Common.{
  ℕ, ◌+◌, ◌-◌, ◌*◌, ◌/◌, String, Bool, true, false, not, ◌&&◌, ◌||◌, Option, none, some, List, [],
  ◌∷◌, str_eq, ltb, leb, ◌==◌, if◌then◌else◌, length, lookup, insert,
}
use awesome_lambda_auth.Database.{Dynamo}
use awesome_lambda_auth.Database.Expression.{second, unix}
use awesome_lambda_auth.Keys.{codes}
use awesome_lambda_auth.RateLimit.{
  Request, Answer, allow_request, window_seconds, has_control, max_rate_limit_subject_len,
}

pub record LocalRateLimiter : Type 0 where
  pub max : ℕ
  pub window : ℕ
  pub index : ℕ
  pub counts : List (String × ℕ)
  pub max_subjects : ℕ

unfoldable pub new_local_rate_limiter : ℕ → ℕ → LocalRateLimiter
new_local_rate_limiter max window = record {
  max = max;
  window = window;
  index = 0;
  counts = [];
  max_subjects = 10_000;
}

unfoldable pub local_key : String → String → String
local_key scope subject = scope ++ ("\0" ++ subject)

-- A clock that has moved into another window drops the whole table.
unfoldable pub enter_window : ℕ → LocalRateLimiter → LocalRateLimiter
enter_window now l =
    let index = unix now / window_seconds l.window in
    if index == l.index then l else record l { index = index; counts = [] }

abbrev or_zero : Option ℕ → ℕ
or_zero none = 0
or_zero (some n) = n

abbrev is_tracked : Option ℕ → Bool
is_tracked none = false
is_tracked (some n) = true

-- `allow` behind the window's reset.
unfoldable pub count_local : String → LocalRateLimiter → LocalRateLimiter × Bool
count_local k l =
    let found = lookup k l.counts in
    if not (is_tracked found) && leb l.max_subjects (length l.counts)
    then (l, true)
    else if leb l.max (or_zero found)
    then (l, false)
    else (record l { counts = insert k (or_zero found + 1) l.counts }, true)

unfoldable pub local_allow : ℕ → String → String → LocalRateLimiter → LocalRateLimiter × Bool
unfolding enter_window count_local
local_allow now scope subject l = count_local (local_key scope subject) (enter_window now l)

pub record SubjectSource : Type 0 where
  pub field : String
  pub address : Bool
  pub hash : Bool

abbrev pub subject_from_email : List SubjectSource
subject_from_email = record { field = "email"; address = true; hash = false } ∷ []

abbrev pub subject_from_challenge : List SubjectSource
subject_from_challenge = record { field = "tempToken"; address = false; hash = true } ∷ []

abbrev pub subject_from_email_or_challenge : List SubjectSource
subject_from_email_or_challenge =
    record { field = "email"; address = true; hash = false } ∷ subject_from_challenge

abbrev pub subject_from_user_or_challenge : List SubjectSource
subject_from_user_or_challenge =
    record { field = "userId"; address = false; hash = false } ∷ subject_from_challenge

-- What the source takes from outside: text functions, the hash, and of one request its clock, its
-- client address and the fields of its body that are there, each as a string if it is one.
pub record Texts : Type 0 where
  pub to_lower : String → String
  pub trim_space : String → String
  pub sha256_hex16 : String → String

unfoldable pub normalize_rate_limit_subject : Texts → String → SubjectSource → String
normalize_rate_limit_subject x v src =
    let v' = if src.address then x.to_lower (x.trim_space v) else x.trim_space v in
    if str_eq v' ""
    then ""
    else if src.hash
    then x.sha256_hex16 v'
    else if ltb max_rate_limit_subject_len (len v') || has_control (codes v')
    then ""
    else v'

pub record Incoming : Type 0 where
  pub now : ℕ
  pub route : String
  pub client_address : String
  pub body : Option (List (String × Option String))

abbrev joined : Option (Option String) → Option String
joined none = none
joined (some v) = v

-- The loop over the sources: the first field that is a string and has a usable value.
unfoldable pub subject_of_fields :
    Texts → List (String × Option String) → List SubjectSource → Option String
subject_of_fields x fields [] = none
subject_of_fields x fields (src ∷ rest) =
    let later = subject_of_fields x fields rest in
    elim (joined (lookup src.field fields)) [
      | none ↦ later
      | some v ↦
          if str_eq (normalize_rate_limit_subject x v src) ""
          then later
          else some (normalize_rate_limit_subject x v src)
    ]

abbrev or_address : Option String → String → String
or_address none address = address
or_address (some v) address = v

unfoldable pub rate_limit_subject : Texts → Bool → List SubjectSource → Incoming → String
unfolding subject_of_fields
rate_limit_subject x by_email [] r = r.client_address
rate_limit_subject x by_email (src ∷ rest) r =
    if not by_email then r.client_address else (elim r.body [
      | none ↦ r.client_address
      | some fields ↦ or_address (subject_of_fields x fields (src ∷ rest)) r.client_address
    ])

-- `rateLimitRemaining`
unfoldable pub rate_limit_remaining : ℕ → ℕ → ℕ
rate_limit_remaining now window =
    (unix now / window_seconds window + 1) * window_seconds window * second - now

pub record Route : Type 0 where
  pub scope : String
  pub subjects : List SubjectSource

pub record Config : Type 0 where
  pub window : ℕ
  pub max : ℕ
  pub by_email : Bool
  pub routes : List (String × Route)

-- What the middleware does with a request: hand it on, or answer 429 with what is left of the window.
pub data Decision : Type 0 where
  serve : Decision
  too_many : ℕ → Decision

module _ (format_int : ℕ → String) (db : Dynamo) (x : Texts) where
  open db use {Table}

  abbrev decide_shared : Answer → Decision
  decide_shared a = elim a.error [
    | some e ↦ serve
    | none ↦ if a.allowed then serve else too_many a.remaining
  ]

  -- The two tiers, for a request of a watched route that has a subject. `shared` says that the
  -- driver provides a counter.
  unfoldable pub limit_request :
      Config
      → Bool
      → LocalRateLimiter
      → Table
      → ℕ
      → String
      → String
      → LocalRateLimiter × Table × Decision
  unfolding local_allow allow_request
  limit_request cfg shared l t now scope subject =
      let (l', locally) = local_allow now scope subject l in
      if not locally
      then (l', t, too_many (rate_limit_remaining now cfg.window))
      else if not shared
      then (l', t, serve)
      else (let (t', a) = allow_request format_int db t (record {
        now = now;
        scope = scope;
        subject = subject;
        limit = cfg.max;
        window = cfg.window;
      }) in
          (l', t', decide_shared a))

  unfoldable pub handle :
      Config → Bool → LocalRateLimiter → Table → Incoming → LocalRateLimiter × Table × Decision
  unfolding limit_request rate_limit_subject
  handle cfg shared l t r = elim (lookup r.route cfg.routes) [
    | none ↦ (l, t, serve)
    | some route ↦
        let subject = rate_limit_subject x cfg.by_email route.subjects r in
        if str_eq subject ""
        then (l, t, serve)
        else limit_request cfg shared l t r.now route.scope subject
  ]
